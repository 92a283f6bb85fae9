-- ===== src/Vfs/Counts/Kept.antt =====
-- `duplicate_fd`, `close` and the making of pipes and terminals keep the counts, and change one
-- descriptor only.
use ristux.Common.{
  ℕ, zero, suc, ◌≡◌, ◌≢◌, ◌∙◌, refl, ap, true, false, Bool-cases, Option-cases, ◌⊎◌, inl, inr,
  Option, none, some, List, [], ◌∷◌, set, arith,
}
use ristux.Common.Results.{ok, err}
use ristux.Vfs.{bad_fd, out_of_memory, OpenHandle, Vfs}
use ristux.Vfs.Open.{
  Room, reserve_open_handle_slots, place, push_open_handle, handle_at, duplicate_fd, close,
}
use ristux.Vfs.Counts.{pipe_ends, pty_ends, on_pipe, on_pty, held, IsCounted}
use ristux.Vfs.Counts.Changes.{More, place-held, free-held}
use ristux.Vfs.Counts.Handles.{retain_handle-Retained, release_handle-Released}

-- The descriptor was free, now has the handle, and no other has changed.
pub record Opens (handle : OpenHandle) (before : List (Option OpenHandle)) (fd : ℕ)
    (after : List (Option OpenHandle)) : Type 0 where
  pub free : handle_at before fd ≡ none
  pub opened : handle_at after fd ≡ some handle
  pub others : (j : ℕ) → j ≢ fd → handle_at after j ≡ handle_at before j

place_free :
    (handle : OpenHandle) (slots : List (Option OpenHandle))
    → handle_at slots (place handle slots).0 ≡ none
unfolding place
place_free handle [] = refl
place_free handle (none ∷ slots) = refl
place_free handle (some other ∷ slots) = place_free handle slots

place_opened :
    (handle : OpenHandle) (slots : List (Option OpenHandle))
    → handle_at (place handle slots).1 (place handle slots).0 ≡ some handle
unfolding place
place_opened handle [] = refl
place_opened handle (none ∷ slots) = refl
place_opened handle (some other ∷ slots) = place_opened handle slots

place_others :
    (handle : OpenHandle) (slots : List (Option OpenHandle)) (j : ℕ)
    → j ≢ (place handle slots).0
    → handle_at (place handle slots).1 j ≡ handle_at slots j
unfolding place
place_others handle [] zero ne = absurd (ne refl)
place_others handle [] (suc j) ne = refl
place_others handle (none ∷ slots) zero ne = absurd (ne refl)
place_others handle (none ∷ slots) (suc j) ne = refl
place_others handle (some other ∷ slots) zero ne = refl
place_others handle (some other ∷ slots) (suc j) ne =
    place_others handle slots j (λ e. ne (ap suc e))

pub place-Opens :
    (handle : OpenHandle) (slots : List (Option OpenHandle))
    → Opens handle slots (place handle slots).0 (place handle slots).1
place-Opens handle slots = record {
  free = place_free handle slots;
  opened = place_opened handle slots;
  others = place_others handle slots;
}

pub push-ok :
    (room : Room) (handle : OpenHandle) (v : Vfs)
    → reserve_open_handle_slots room 1 v ≡ true
    → push_open_handle room handle v
      ≡ (ok (place handle v.open_files).0, record v { open_files = (place handle v.open_files).1 })
unfolding push_open_handle
push-ok room handle v h = rw h refl

pub reserve_same :
    (room : Room) (n : ℕ) (v w : Vfs)
    → w.open_files ≡ v.open_files
    → reserve_open_handle_slots room n w ≡ reserve_open_handle_slots room n v
unfolding reserve_open_handle_slots
reserve_same room n v w e = rw e refl

-- What `duplicate_fd` has done when it has succeeded.
pub record IsDuplicated (fd new : ℕ) (v w : Vfs) : Type 0 where
  pub handle : OpenHandle
  pub original : handle_at v.open_files fd ≡ some handle
  pub opens : Opens handle v.open_files new w.open_files
  pub counted : IsCounted w

pushed-IsCounted :
    (handle : OpenHandle) (v w : Vfs)
    → IsCounted v
    → w.open_files ≡ v.open_files
    → More handle v w
    → IsCounted (record w { open_files = (place handle w.open_files).1 })
unfolding pipe_ends pty_ends
pushed-IsCounted handle v w c e m = record {
  pipes_count = λ role i. omega (
    arith,
    c.pipes_count role i,
    m.pipe_more role i,
    place-held (on_pipe role i) handle w.open_files,
    ap (held (on_pipe role i)) e,
  );
  ptys_count = λ role i. omega (
    arith,
    c.ptys_count role i,
    m.pty_more role i,
    place-held (on_pty role i) handle w.open_files,
    ap (held (on_pty role i)) e,
  );
}

-- In a table whose counts are right, `duplicate_fd` fails with `BadFd` if the descriptor is not open
-- and with `OutOfMemory` if there is no room for a slot, both times with the table as it was;
-- otherwise it gives a descriptor that was free and now has the handle of the first, no other
-- descriptor changes, and the counts of pipe and terminal ends are right again.
pub duplicate_fd-outcome :
    (room : Room) (fd : ℕ) (v : Vfs)
    → IsCounted v
    → ((handle_at v.open_files fd ≡ none) × (duplicate_fd room fd v ≡ (err bad_fd, v)))
      ⊎ ((reserve_open_handle_slots room 1 v ≡ false)
          × (duplicate_fd room fd v ≡ (err out_of_memory, v)))
      ⊎ ((new : ℕ) × (w : Vfs) × (duplicate_fd room fd v ≡ (ok new, w)) × IsDuplicated fd new v w)
unfolding duplicate_fd
duplicate_fd-outcome room fd v c = elim (Option-cases (handle_at v.open_files fd)) [
  | inl e ↦ inl (e, (rw (duplicate_fd, e) refl))
  | inr (handle, e) ↦ elim (Bool-cases (reserve_open_handle_slots room 1 v)) [
    | inr f ↦ inr (inl (f, (rw (duplicate_fd, e, f) refl)))
    | inl f ↦
        let (w, g, same, m) = retain_handle-Retained v fd handle c e in
        inr (
          inr (
            (place handle w.open_files).0,
            record w { open_files = (place handle w.open_files).1 },
            rw (duplicate_fd, e, f, g) (push-ok room handle w (reserve_same room 1 v w same ∙ f)),
            record {
              handle = handle;
              original = e;
              opens = rw same (place-Opens handle v.open_files);
              counted = pushed-IsCounted handle v w c same m;
            },
          ))
  ]
]

freed : (slots : List (Option OpenHandle)) (fd : ℕ) → handle_at (set slots fd none) fd ≡ none
freed [] fd = refl
freed (slot ∷ slots) zero = refl
freed (slot ∷ slots) (suc fd) = freed slots fd

freed_others :
    (slots : List (Option OpenHandle)) (fd j : ℕ)
    → j ≢ fd
    → handle_at (set slots fd none) j ≡ handle_at slots j
freed_others [] fd j ne = refl
freed_others (slot ∷ slots) zero zero ne = absurd (ne refl)
freed_others (slot ∷ slots) zero (suc j) ne = refl
freed_others (slot ∷ slots) (suc fd) zero ne = refl
freed_others (slot ∷ slots) (suc fd) (suc j) ne = freed_others slots fd j (λ e. ne (ap suc e))

released-IsCounted :
    (handle : OpenHandle) (fd : ℕ) (v w : Vfs)
    → IsCounted v
    → handle_at v.open_files fd ≡ some handle
    → w.open_files ≡ set v.open_files fd none
    → More handle w v
    → IsCounted w
released-IsCounted handle fd v w c h e m = record {
  pipes_count = λ role i. omega (
    arith,
    c.pipes_count role i,
    m.pipe_more role i,
    free-held (on_pipe role i) v.open_files fd handle h,
    ap (held (on_pipe role i)) e,
  );
  ptys_count = λ role i. omega (
    arith,
    c.ptys_count role i,
    m.pty_more role i,
    free-held (on_pty role i) v.open_files fd handle h,
    ap (held (on_pty role i)) e,
  );
}

-- What `close` has done when it has succeeded.
pub record IsClosed (fd : ℕ) (v w : Vfs) : Type 0 where
  pub free : handle_at w.open_files fd ≡ none
  pub others : (j : ℕ) → j ≢ fd → handle_at w.open_files j ≡ handle_at v.open_files j
  pub counted : IsCounted w

-- In a table whose counts are right, `close` fails, with `BadFd` and the table as it was, only if the
-- descriptor is not open; otherwise the descriptor is free, no other descriptor changes, and the
-- counts of pipe and terminal ends are right again.
pub close-outcome :
    (fd : ℕ) (v : Vfs)
    → IsCounted v
    → ((handle_at v.open_files fd ≡ none) × (close fd v ≡ (err bad_fd, v)))
      ⊎ ((w : Vfs) × (close fd v ≡ (ok tt, w)) × IsClosed fd v w)
unfolding close
close-outcome fd v c = elim (Option-cases (handle_at v.open_files fd)) [
  | inl e ↦ inl (e, (rw (close, e) refl))
  | inr (handle, e) ↦
      let (w, g, same, m) = release_handle-Released v (set v.open_files fd none) fd handle c e in
      inr (
        w,
        rw (close, e, g) refl,
        record {
          free = rw same (freed v.open_files fd);
          others = rw same (freed_others v.open_files fd);
          counted = released-IsCounted handle fd v w c e same m;
        },
      )
]
