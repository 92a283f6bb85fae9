-- ===== src/Process/Fds/Duplicated.antt =====
-- `duplicate_fd_entries` of kernel/src/process/mod.rs, with which a fork copies the descriptors of the
-- parent: all of them or none. Whether the vector of the copies gets its memory is an argument.
pub mod Copied
use ristux.Common.{
  ℕ, ◌≡◌, ◌≢◌, ◌∙◌, refl, sym, ap, Bool, true, false, not, ◌==◌, Bool-cases, inl, inr,
  if◌then◌else◌, none, List, [], ◌∷◌, ◌++◌, map, ==_iff, arith,
}
use ristux.Common.Results.{Result, ok, err}
use ristux.Process.{FdEntry, contains}
use ristux.Process.Fds.Calls.{SameFiles}
use ristux.Vfs.{VfsError, too_many_open_files, out_of_memory, Vfs}
use ristux.Vfs.Open.{Room, handle_at, duplicate_fd, close}
use ristux.Vfs.Counts.{IsCounted}
use ristux.Vfs.Counts.Kept.{IsDuplicated, close-outcome}

pub data ForkError : Type 0 where
  no_such_process fork_out_of_memory invalid_process_state : ForkError

abbrev pub map_fork_vfs_error : VfsError → ForkError
map_fork_vfs_error error = elim error [
  | out_of_memory ↦ fork_out_of_memory
  | too_many_open_files ↦ fork_out_of_memory
  | _ ↦ invalid_process_state
]

unfoldable pub close_fd_entries : List FdEntry → Vfs → Vfs
close_fd_entries [] v = v
close_fd_entries (e ∷ es) v = close_fd_entries es (close e.vfs_fd v).1

abbrev pub with_vfs_fd : ℕ → FdEntry → FdEntry
with_vfs_fd vfs_fd e = record e { vfs_fd = vfs_fd }

-- The loop, with what has been duplicated so far.
unfoldable pub duplicate_from :
    Room → List FdEntry → List FdEntry → Vfs → Result (List FdEntry) ForkError × Vfs
duplicate_from room done [] v = (ok done, v)
duplicate_from room done (e ∷ es) v =
    let (result, w) = duplicate_fd room e.vfs_fd v in
    elim result [
      | err f ↦ (err (map_fork_vfs_error f), close_fd_entries done w)
      | ok dup ↦ duplicate_from room (done ++ (with_vfs_fd dup e ∷ [])) es w
    ]

unfoldable pub duplicate_fd_entries :
    Bool → Room → List FdEntry → Vfs → Result (List FdEntry) ForkError × Vfs
duplicate_fd_entries reserved room entries v =
    if not reserved then (err fork_out_of_memory, v) else duplicate_from room [] entries v

abbrev pub fds_of : List FdEntry → List ℕ
fds_of es = map (λ e. e.vfs_fd) es

-- Besides these descriptors, which were free, `w` has the files of `v`.
pub record Extends (fds : List ℕ) (v w : Vfs) : Type 0 where
  pub outside :
      (j : ℕ) → contains fds j ≡ false → handle_at w.open_files j ≡ handle_at v.open_files j
  pub were_free : (j : ℕ) → contains fds j ≡ true → handle_at v.open_files j ≡ none
  pub counted : IsCounted w

-- After a close the descriptor is free, whether it was open or not.
closes :
    (fd : ℕ) (w : Vfs)
    → IsCounted w
    → (handle_at (close fd w).1.open_files fd ≡ none)
      × ((j : ℕ) → j ≢ fd → handle_at (close fd w).1.open_files j ≡ handle_at w.open_files j)
      × IsCounted (close fd w).1
closes fd w c = elim (close-outcome fd w c) [
  | inl (e, f) ↦ rw f (e, (λ j ne. refl), c)
  | inr (u, f, d) ↦ rw f (d.free, d.others, d.counted)
]

close-Extends :
    (fd : ℕ) (fds : List ℕ) (v w : Vfs) → Extends (fd ∷ fds) v w → Extends fds v (close fd w).1
close-Extends fd fds v w x =
    let (free, others, counted) = closes fd w x.counted in
    record {
      outside = λ j h. elim (Bool-cases (fd == j)) [
        | inl g ↦
            let same : fd ≡ j = (==_iff fd j).0 g in
            let was : handle_at v.open_files j ≡ none = x.were_free j (rw g refl) in
            ap (handle_at (close fd w).1.open_files) (sym same) ∙ free ∙ sym was
        | inr g ↦
            let ne : j ≢ fd = λ e. absurd (ground (arith, g, e)) in
            others j ne ∙ x.outside j (rw g h)
      ];
      were_free = λ j h. x.were_free j (ground (arith, h));
      counted = counted;
    }

pub close_fd_entries-Extends :
    (es : List FdEntry) (v w : Vfs)
    → Extends (fds_of es) v w
    → SameFiles v (close_fd_entries es w) × IsCounted (close_fd_entries es w)
unfolding close_fd_entries
close_fd_entries-Extends [] v w x = ((λ j. x.outside j refl), x.counted)
close_fd_entries-Extends (e ∷ es) v w x =
    close_fd_entries-Extends es v (close e.vfs_fd w).1 (close-Extends e.vfs_fd (fds_of es) v w x)

contains-append :
    (fds : List ℕ) (new j : ℕ)
    → contains (fds ++ (new ∷ [])) j ≡ (if new == j then true else contains fds j)
contains-append [] new j = refl
contains-append (fd ∷ fds) new j = ground (arith, contains-append fds new j)

pub fds_of-append :
    (es : List FdEntry) (e : FdEntry) → fds_of (es ++ (e ∷ [])) ≡ fds_of es ++ (e.vfs_fd ∷ [])
fds_of-append [] e = refl
fds_of-append (f ∷ es) e = ap (λ t. f.vfs_fd ∷ t) (fds_of-append es e)

pub duplicate-Extends :
    (fd new : ℕ) (fds : List ℕ) (v w u : Vfs)
    → Extends fds v w
    → IsDuplicated fd new w u
    → Extends (fds ++ (new ∷ [])) v u
duplicate-Extends fd new fds v w u x d = record {
  outside = λ j h.
      let ne : j ≢ new = λ e. absurd (ground (arith, contains-append fds new j, h, e)) in
      d.opens.others j ne ∙ x.outside j (ground (arith, contains-append fds new j, h));
  were_free = λ j h. elim (Bool-cases (contains fds j)) [
    | inl g ↦ x.were_free j g
    | inr g ↦
        let same : new ≡ j = ground (arith, contains-append fds new j, h, g) in
        sym (x.outside j g) ∙ ap (handle_at w.open_files) (sym same) ∙ d.opens.free
  ];
  counted = d.counted;
}
