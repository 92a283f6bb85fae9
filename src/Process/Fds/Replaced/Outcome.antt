-- ===== src/Process/Fds/Replaced/Outcome.antt =====
-- What `user_dup2` and `user_dup3` of kernel/src/process/mod.rs do on every path.
use mathlib.Core.Option.{some-injective}
use ristux.Common.{
  ℕ, ◌<◌, ◌≡◌, ◌≢◌, ◌∙◌, refl, sym, ap, Bool, false, ◌==◌, leb, Bool-cases, Option-cases, ◌⊎◌, inl,
  inr, Option, none, some, List, [], ◌∷◌, arith,
}
use ristux.Common.Results.{Result, ok, err}
use ristux.Process.{Process, FdEntry}
use ristux.Process.Fds.{
  FdTableError, too_many_open_files, out_of_memory, is_open, entry_at, set_entry, vfs_fd_of,
  fd_limit, replace_fd_with_flags,
}
use ristux.Process.Fds.Entries.{IsFdTable}
use ristux.Process.Fds.Lowest.{IsPut, entry, set_unused}
use ristux.Process.Fds.Calls.{Fails, closed_again}
use ristux.Process.Fds.Replaced.{
  map_dup_target_error, close_old, install_at, duplicate_to, user_dup2, set_entry-IsPut,
}
use ristux.Vfs.{VfsError, bad_fd, OpenHandle, Vfs}
use ristux.Vfs.Open.{Room, handle_at}
use ristux.Vfs.Counts.{IsCounted}
use ristux.Vfs.Counts.Kept.{IsDuplicated, duplicate_fd-outcome, close-outcome}

not_open : (n : ℕ) (fds : List FdEntry) → entry_at n fds ≡ none → is_open n fds ≡ false
not_open n [] h = refl
not_open n (e ∷ es) h = ground (arith, h, not_open n es)

-- The VFS descriptor that stands at a number.
abbrev pub old_at : ℕ → Process → Option ℕ
old_at target p = vfs_fd_of (entry_at target p.fds)

replace-outcome :
    (grows : Bool) (new : FdEntry) (p : Process)
    → IsFdTable p.fds
    → ((e : FdTableError) × (replace_fd_with_flags grows new p ≡ (err e, p)))
      ⊎ ((q : Process) × (replace_fd_with_flags grows new p ≡ (ok (old_at new.user_fd p), q))
          × IsPut new p.fds q.fds)
unfolding replace_fd_with_flags fd_limit
replace-outcome grows new p t = elim (Bool-cases (leb (fd_limit p) new.user_fd)) [
  | inl f ↦ inl (too_many_open_files, (rw f refl))
  | inr f ↦
      let below : new.user_fd < fd_limit p = ground (arith, f) in
      elim (Option-cases (entry_at new.user_fd p.fds)) [
        | inr (old, e) ↦ inr (
          record p { fds = set_entry new p.fds },
          rw (f, e) refl,
          set_entry-IsPut new old p.fds t (omega (arith, below)) e,
        )
        | inl e ↦ elim (set_unused grows new p t (not_open new.user_fd p.fds e) below) [
          | inl (g, h) ↦ inl (out_of_memory, (rw (f, e, h, h) refl))
          | inr (q, h, put) ↦ inr (q, (rw (f, e, h, h) refl), put)
        ]
      ]
]

-- What has been done when it has succeeded.
pub record IsDupTo (user_fd target fd_flags : ℕ) (p q : Process) (v w : Vfs) : Type 0 where
  pub source : FdEntry
  pub source_at : entry_at user_fd p.fds ≡ some source
  pub dup : ℕ
  pub handle : OpenHandle
  pub put : IsPut (entry target dup source.status_flags fd_flags) p.fds q.fds
  pub original : handle_at v.open_files source.vfs_fd ≡ some handle
  pub was_free : handle_at v.open_files dup ≡ none
  pub duplicate : handle_at w.open_files dup ≡ some handle
  pub closed : (old : ℕ) → old_at target p ≡ some old → handle_at w.open_files old ≡ none
  pub others :
      (j : ℕ)
      → j ≢ dup
      → old_at target p ≢ some j
      → handle_at w.open_files j ≡ handle_at v.open_files j
  pub counted : IsCounted w

abbrev pub DupsTo : Result ℕ VfsError × Process × Vfs → ℕ → ℕ → ℕ → Process → Vfs → Type 0
DupsTo r user_fd target fd_flags p v =
    (q : Process) × (w : Vfs) × (r ≡ (ok target, q, w)) × IsDupTo user_fd target fd_flags p q v w

-- What the number had is closed.
old_closed :
    (user_fd target fd_flags dup : ℕ) (source : FdEntry) (p q : Process) (v w : Vfs)
    → entry_at user_fd p.fds ≡ some source
    → IsDuplicated source.vfs_fd dup v w
    → IsPut (entry target dup source.status_flags fd_flags) p.fds q.fds
    → ((old : ℕ) → old_at target p ≡ some old → handle_at v.open_files old ≢ none)
    → DupsTo (close_old (old_at target p) target q w) user_fd target fd_flags p v
old_closed user_fd target fd_flags dup source p q v w e d put open_there =
    elim (Option-cases (old_at target p)) [
      | inl f ↦ (
        q,
        w,
        rw (f, close_old) refl,
        record {
          source = source;
          source_at = e;
          dup = dup;
          handle = d.handle;
          put = put;
          original = d.original;
          was_free = d.opens.free;
          duplicate = d.opens.opened;
          closed = λ old g. absurd (cc (f, g));
          others = λ j ne other. d.opens.others j ne;
          counted = d.counted;
        },
      )
      | inr (old, f) ↦
          let apart : old ≢ dup =
            λ g. open_there old f (ap (handle_at v.open_files) g ∙ d.opens.free) in
          elim (close-outcome old w d.counted) [
            | inl (free, g) ↦ absurd (open_there old f (sym (d.opens.others old apart) ∙ free))
            | inr (u, g, c) ↦ (
              q,
              u,
              rw (f, close_old, g, g) refl,
              record {
                source = source;
                source_at = e;
                dup = dup;
                handle = d.handle;
                put = put;
                original = d.original;
                was_free = d.opens.free;
                duplicate = c.others dup (λ h. apart (sym h)) ∙ d.opens.opened;
                closed =
                    λ x h. ap (handle_at u.open_files) (some-injective _ _ (sym h ∙ f)) ∙ c.free;
                others = λ j ne other.
                    c.others j (λ h. other (f ∙ ap some (sym h))) ∙ d.opens.others j ne;
                counted = c.counted;
              },
            )
          ]
    ]

installed_at :
    (grows : Bool) (user_fd target fd_flags dup : ℕ) (source : FdEntry) (p : Process) (v w : Vfs)
    → IsFdTable p.fds
    → ((old : ℕ) → old_at target p ≡ some old → handle_at v.open_files old ≢ none)
    → entry_at user_fd p.fds ≡ some source
    → IsDuplicated source.vfs_fd dup v w
    → Fails (install_at grows (entry target dup source.status_flags fd_flags) p w) p v
      ⊎ DupsTo
          (install_at grows (entry target dup source.status_flags fd_flags) p w)
          user_fd
          target
          fd_flags
          p
          v
installed_at grows user_fd target fd_flags dup source p v w t open_there e d =
    elim (replace-outcome grows (entry target dup source.status_flags fd_flags) p t) [
      | inl (error, f) ↦
          let (u, closes, same, counted) = closed_again source.vfs_fd dup v w d in
          inl (map_dup_target_error error, u, rw (install_at, f, f, closes) refl, same, counted)
      | inr (q, f, put) ↦ inr (
          rw (install_at, f, f)
            (old_closed user_fd target fd_flags dup source p q v w e d put open_there))
    ]

duplicate_to-outcome :
    (room : Room) (grows : Bool) (user_fd target fd_flags : ℕ) (p : Process) (v : Vfs)
    → IsFdTable p.fds
    → IsCounted v
    → ((old : ℕ) → old_at target p ≡ some old → handle_at v.open_files old ≢ none)
    → Fails (duplicate_to room grows user_fd target fd_flags p v) p v
      ⊎ DupsTo (duplicate_to room grows user_fd target fd_flags p v) user_fd target fd_flags p v
unfolding duplicate_to
duplicate_to-outcome room grows user_fd target fd_flags p v t c open_there =
    elim (Option-cases (entry_at user_fd p.fds)) [
      | inl e ↦ inl (bad_fd, v, (rw (duplicate_to, e) refl), (λ j. refl), c)
      | inr (source, e) ↦ elim (duplicate_fd-outcome room source.vfs_fd v c) [
        | inl (g, f) ↦ inl (bad_fd, v, (rw (duplicate_to, e, f, f) refl), (λ j. refl), c)
        | inr (inl (g, f)) ↦
            inl (VfsError.out_of_memory, v, (rw (duplicate_to, e, f, f) refl), (λ j. refl), c)
        | inr (inr (dup, w, f, d)) ↦
            rw (duplicate_to, e, f, f)
              (installed_at grows user_fd target fd_flags dup source p v w t open_there e d)
      ]
    ]

-- For two different numbers, a table with each number once and below `MAX_FDS`, right counts of pipe
-- and terminal ends, and an open VFS descriptor behind the target if it is in use: if `user_dup2`
-- fails, at whatever step, the process is as it was, every VFS descriptor has the handle it had, and
-- the counts are right; otherwise it gives the target, whose new entry has the status flags of the
-- source, no descriptor flags, and a VFS descriptor that was free and now has the handle of the
-- source; what the target had is closed, all other entries and handles are as before, and table and
-- counts are right again.
pub user_dup2-outcome :
    (room : Room) (grows : Bool) (user_fd target : ℕ) (p : Process) (v : Vfs)
    → user_fd ≢ target
    → IsFdTable p.fds
    → IsCounted v
    → ((old : ℕ) → old_at target p ≡ some old → handle_at v.open_files old ≢ none)
    → Fails (user_dup2 room grows user_fd target p v) p v
      ⊎ DupsTo (user_dup2 room grows user_fd target p v) user_fd target 0 p v
unfolding user_dup2
user_dup2-outcome room grows user_fd target p v ne t c open_there =
    let differ : (user_fd == target) ≡ false = ground (arith, ne) in
    rw (user_dup2, differ) (duplicate_to-outcome room grows user_fd target 0 p v t c open_there)
