-- ===== src/Process/Fds/Calls.antt =====
-- `user_dup` and `user_close` of kernel/src/process/mod.rs: the table of the current process and the
-- open files together. The waking of input waiters by `user_close` is left out.
use ristux.Common.{
  ℕ, ◌≡◌, ◌≢◌, ◌∙◌, refl, sym, ap, Bool, ◌==◌, Bool-cases, Option-cases, ◌⊎◌, inl, inr, none, some,
  ==_iff, arith,
}
use ristux.Common.Results.{Result, ok, err}
use ristux.Process.{Process, FdEntry}
use ristux.Process.Fds.{
  FdTableError, too_many_open_files, out_of_memory, entry_at, fd_limit, push_fd_with_all_flags,
  remove_fd,
}
use ristux.Process.Fds.Entries.{IsFdTable}
use ristux.Process.Fds.Lowest.{IsLowest, IsPut, entry, push_fd-outcome}
use ristux.Vfs.{VfsError, bad_fd, Vfs}
use ristux.Vfs.Open.{Room, handle_at, duplicate_fd, close}
use ristux.Vfs.Counts.{IsCounted}
use ristux.Vfs.Counts.Kept.{IsDuplicated, duplicate_fd-outcome, close-outcome}

abbrev pub map_fd_table_vfs_error : FdTableError → VfsError
map_fd_table_vfs_error too_many_open_files = VfsError.too_many_open_files
map_fd_table_vfs_error out_of_memory = VfsError.out_of_memory

abbrev pub install_dup : Bool → ℕ → ℕ → Process → Vfs → Result ℕ VfsError × Process × Vfs
install_dup grows dup status_flags p v =
    let (result, q) = push_fd_with_all_flags grows dup status_flags 0 p in
    elim result [
      | ok fd ↦ (ok fd, q, v)
      | err e ↦ (err (map_fd_table_vfs_error e), q, (close dup v).1)
    ]

-- The body of `user_dup` for the current process.
unfoldable pub user_dup : Room → Bool → ℕ → Process → Vfs → Result ℕ VfsError × Process × Vfs
user_dup room grows user_fd p v = elim (entry_at user_fd p.fds) [
  | none ↦ (err bad_fd, p, v)
  | some e ↦
      let (result, w) = duplicate_fd room e.vfs_fd v in
      elim result [ err f ↦ (err f, p, w) | ok dup ↦ install_dup grows dup e.status_flags p w ]
]

unfoldable pub user_close : ℕ → Process → Vfs → Result {0, 0} Unit VfsError × Process × Vfs
user_close user_fd p v =
    let (removed, q) = remove_fd user_fd p in
    elim removed [
      | none ↦ (err bad_fd, q, v)
      | some vfs_fd ↦ let (result, w) = close vfs_fd v in (result, q, w)
    ]

-- The same handle behind every descriptor.
abbrev pub SameFiles : Vfs → Vfs → Type 0
SameFiles v w = (j : ℕ) → handle_at w.open_files j ≡ handle_at v.open_files j

-- What a `user_dup` that succeeds has done.
pub record IsDup (user_fd n : ℕ) (p q : Process) (v w : Vfs) : Type 0 where
  pub source : FdEntry
  pub source_at : entry_at user_fd p.fds ≡ some source
  pub lowest : IsLowest 0 (fd_limit p) n p.fds
  pub dup : ℕ
  pub put : IsPut (entry n dup source.status_flags 0) p.fds q.fds
  pub duplicated : IsDuplicated source.vfs_fd dup v w

-- The duplicate can be closed, and then every descriptor is as before.
pub closed_again :
    (fd dup : ℕ) (v w : Vfs)
    → IsDuplicated fd dup v w
    → (u : Vfs) × (close dup w ≡ (ok tt, u)) × SameFiles v u × IsCounted u
closed_again fd dup v w d = elim (close-outcome dup w d.counted) [
  | inl (e, f) ↦ absurd (cc (e, d.opens.opened))
  | inr (u, e, c) ↦ (
    u,
    e,
    (λ j. elim (Bool-cases (j == dup)) [
      | inl g ↦
          ap (handle_at u.open_files) ((==_iff j dup).0 g)
          ∙ c.free
          ∙ sym d.opens.free
          ∙ ap (handle_at v.open_files) (sym ((==_iff j dup).0 g))
      | inr g ↦
          let ne : j ≢ dup = λ h. absurd (ground (arith, g, h)) in
          c.others j ne ∙ d.opens.others j ne
    ]),
    c.counted,
  )
]

abbrev pub Fails : Result ℕ VfsError × Process × Vfs → Process → Vfs → Type 0
Fails r p v = (e : VfsError) × (w : Vfs) × (r ≡ (err e, p, w)) × SameFiles v w × IsCounted w

abbrev pub Dups : Result ℕ VfsError × Process × Vfs → ℕ → Process → Vfs → Type 0
Dups r user_fd p v =
    (n : ℕ) × (q : Process) × (w : Vfs) × (r ≡ (ok n, q, w)) × IsDup user_fd n p q v w

installed :
    (grows : Bool) (user_fd dup : ℕ) (source : FdEntry) (p : Process) (v w : Vfs)
    → IsFdTable p.fds
    → entry_at user_fd p.fds ≡ some source
    → IsDuplicated source.vfs_fd dup v w
    → Fails (install_dup grows dup source.status_flags p w) p v
      ⊎ Dups (install_dup grows dup source.status_flags p w) user_fd p v
installed grows user_fd dup source p v w t e d =
    let (u, closes, same, counted) = closed_again source.vfs_fd dup v w d in
    elim (push_fd-outcome grows dup source.status_flags 0 p t) [
      | inl (used, f) ↦
          inl (VfsError.too_many_open_files, u, rw (install_dup, f, f, closes) refl, same, counted)
      | inr (inl (full, f)) ↦
          inl (VfsError.out_of_memory, u, rw (install_dup, f, f, closes) refl, same, counted)
      | inr (inr (n, q, f, low, put)) ↦ inr (
        n,
        q,
        w,
        rw (install_dup, f, f) refl,
        record {
          source = source;
          source_at = e;
          lowest = low;
          dup = dup;
          put = put;
          duplicated = d;
        },
      )
    ]

-- For a table with each number once and below `MAX_FDS`, and right counts of pipe and terminal ends:
-- if `user_dup` fails, at whatever step, the process is as it was, every VFS descriptor has the handle
-- it had, and the counts are right; otherwise it gives the lowest number not in use, whose new entry
-- has the status flags of the source, no descriptor flags, and a VFS descriptor that was free and now
-- has the handle of the source; all other entries and handles are as before, and table and counts are
-- right again.
pub user_dup-outcome :
    (room : Room) (grows : Bool) (user_fd : ℕ) (p : Process) (v : Vfs)
    → IsFdTable p.fds
    → IsCounted v
    → Fails (user_dup room grows user_fd p v) p v
      ⊎ Dups (user_dup room grows user_fd p v) user_fd p v
unfolding user_dup
user_dup-outcome room grows user_fd p v t c = elim (Option-cases (entry_at user_fd p.fds)) [
  | inl e ↦ inl (bad_fd, v, (rw (user_dup, e) refl), (λ j. refl), c)
  | inr (source, e) ↦ elim (duplicate_fd-outcome room source.vfs_fd v c) [
    | inl (g, f) ↦ inl (bad_fd, v, (rw (user_dup, e, f, f) refl), (λ j. refl), c)
    | inr (inl (g, f)) ↦
        inl (VfsError.out_of_memory, v, (rw (user_dup, e, f, f) refl), (λ j. refl), c)
    | inr (inr (dup, w, f, d)) ↦
        rw (user_dup, e, f, f) (installed grows user_fd dup source p v w t e d)
  ]
]
