-- ===== src/Process/Fds/Duplicated/Copied.antt =====
-- Copies of descriptor entries, kernel/src/process/mod.rs.
use mathlib.Core.Path.{subst}
use mathlib.Core.List.{append-nil, append_assoc}
use ristux.Common.{
  ℕ, ◌≡◌, ◌∙◌, refl, sym, ap, Bool, true, false, ◌⊎◌, inl, inr, some, List, [], ◌∷◌, ◌++◌,
}
use ristux.Common.Results.{Result, ok, err}
use ristux.Process.{FdEntry}
use ristux.Process.Fds.Calls.{SameFiles}
use ristux.Process.Fds.Duplicated.{
  ForkError, fork_out_of_memory, map_fork_vfs_error, close_fd_entries, with_vfs_fd, duplicate_from,
  duplicate_fd_entries, fds_of, Extends, close_fd_entries-Extends, fds_of-append, duplicate-Extends,
}
use ristux.Vfs.{bad_fd, out_of_memory, OpenHandle, Vfs}
use ristux.Vfs.Open.{Room, handle_at}
use ristux.Vfs.Counts.{IsCounted}
use ristux.Vfs.Counts.Kept.{IsDuplicated, duplicate_fd-outcome}

-- One entry is a copy of another: all but the VFS descriptor, which has the same handle.
pub record IsCopy (u : Vfs) (e d : FdEntry) : Type 0 where
  pub handle : OpenHandle
  pub original : handle_at u.open_files e.vfs_fd ≡ some handle
  pub duplicate : handle_at u.open_files d.vfs_fd ≡ some handle
  pub others_same : d ≡ with_vfs_fd d.vfs_fd e

pub data Copies (u : Vfs) : List FdEntry → List FdEntry → Type 0 where
  copies_none : Copies u [] []
  copies_more :
      {e d : FdEntry} {es ds : List FdEntry}
      → IsCopy u e d
      → Copies u es ds
      → Copies u (e ∷ es) (d ∷ ds)

Copies-append :
    {u : Vfs} {es ds : List FdEntry} {e d : FdEntry}
    → Copies u es ds
    → IsCopy u e d
    → Copies u (es ++ (e ∷ [])) (ds ++ (d ∷ []))
Copies-append copies_none c = copies_more c copies_none
Copies-append (copies_more b cs) c = copies_more b (Copies-append cs c)

-- A descriptor that is open stays as it is when another is opened.
stays :
    (fd new j : ℕ) (handle : OpenHandle) (w u : Vfs)
    → IsDuplicated fd new w u
    → handle_at w.open_files j ≡ some handle
    → handle_at u.open_files j ≡ some handle
stays fd new j handle w u d h =
    d.opens.others j (λ e. absurd (cc (ap (handle_at w.open_files) e, d.opens.free, h))) ∙ h

Copies-stay :
    (fd new : ℕ) (w u : Vfs) {es ds : List FdEntry}
    → IsDuplicated fd new w u
    → Copies w es ds
    → Copies u es ds
Copies-stay fd new w u x copies_none = copies_none
Copies-stay fd new w u x (copies_more {e} {d} c cs) =
    copies_more
      (record {
        handle = c.handle;
        original = stays fd new e.vfs_fd c.handle w u x c.original;
        duplicate = stays fd new d.vfs_fd c.handle w u x c.duplicate;
        others_same = c.others_same;
      })
      (Copies-stay fd new w u x cs)

abbrev pub Failed : Result (List FdEntry) ForkError × Vfs → Vfs → Type 0
Failed r v = (e : ForkError) × (w : Vfs) × (r ≡ (err e, w)) × SameFiles v w × IsCounted w

abbrev pub Copied : Result (List FdEntry) ForkError × Vfs → List FdEntry → Vfs → Type 0
Copied r es v =
    (ds : List FdEntry) × (w : Vfs) × (r ≡ (ok ds, w)) × Copies w es ds × Extends (fds_of ds) v w

duplicate_from-lem :
    (room : Room) (before done es : List FdEntry) (v w : Vfs)
    → Copies w before done
    → Extends (fds_of done) v w
    → Failed (duplicate_from room done es w) v
      ⊎ Copied (duplicate_from room done es w) (before ++ es) v
unfolding duplicate_from
duplicate_from-lem room before done [] v w c x =
    inr (done, w, refl, subst (λ b. Copies w b done) (sym (append-nil before)) c, x)
duplicate_from-lem room before done (e ∷ es) v w c x =
    let (same, counted) = close_fd_entries-Extends done v w x in
    elim (duplicate_fd-outcome room e.vfs_fd w x.counted) [
      | inl (g, f) ↦ inl (
        map_fork_vfs_error bad_fd,
        close_fd_entries done w,
        rw (duplicate_from, f, f) refl,
        same,
        counted,
      )
      | inr (inl (g, f)) ↦ inl (
        map_fork_vfs_error out_of_memory,
        close_fd_entries done w,
        rw (duplicate_from, f, f) refl,
        same,
        counted,
      )
      | inr (inr (new, u, f, d)) ↦
          let r = duplicate_from room (done ++ (with_vfs_fd new e ∷ [])) es u in
          let copy : IsCopy u e (with_vfs_fd new e) = record {
            handle = d.handle;
            original = stays e.vfs_fd new e.vfs_fd d.handle w u d d.original;
            duplicate = d.opens.opened;
            others_same = refl;
          } in
          let grown =
            subst (λ fds. Extends fds v u) (sym (fds_of-append done (with_vfs_fd new e)))
              (duplicate-Extends e.vfs_fd new (fds_of done) v w u x d) in
          rw (duplicate_from, f, f)
            (subst (λ b. Failed r v ⊎ Copied r b v) (append_assoc before (e ∷ []) es)
              (duplicate_from-lem room (before ++ (e ∷ [])) (done ++ (with_vfs_fd new e ∷ [])) es v
                u (Copies-append (Copies-stay e.vfs_fd new w u d c) copy) grown))
    ]

-- If the counts of pipe and terminal ends are right: when `duplicate_fd_entries` fails, for lack of
-- memory for its vector or with whatever error at whatever entry, every VFS descriptor has the handle
-- it had before and the counts are right; when it succeeds, it gives for each entry in order a copy
-- with the same number and flags, whose VFS descriptor was free and now has the handle of the
-- original; all other descriptors are as before, and the counts are right again.
pub duplicate_fd_entries-outcome :
    (reserved : Bool) (room : Room) (entries : List FdEntry) (v : Vfs)
    → IsCounted v
    → Failed (duplicate_fd_entries reserved room entries v) v
      ⊎ Copied (duplicate_fd_entries reserved room entries v) entries v
unfolding duplicate_fd_entries
duplicate_fd_entries-outcome false room entries v c =
    inl (fork_out_of_memory, v, refl, (λ j. refl), c)
duplicate_fd_entries-outcome true room entries v c =
    duplicate_from-lem room [] [] entries v v copies_none
      (record { outside = λ j h. refl; were_free = λ j h. absurd (cc h); counted = c })
