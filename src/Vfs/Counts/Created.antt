-- ===== src/Vfs/Counts/Created.antt =====
-- `create_pipe` of kernel/src/fs/vfs.rs opens both ends or none.
use ristux.Common.{
  ℕ, zero, suc, ◌+◌, ◌-◌, ◌≤◌, ◌==◌, leb, ◌≡◌, ◌∙◌, refl, ap, Bool, true, ◌&&◌, ◌||◌, Bool-cases,
  ◌⊎◌, inl, inr, if◌then◌else◌, Option, none, some, List, [], ◌∷◌, ◌++◌, length, arith,
}
use ristux.Common.Results.{ok, err}
use ristux.Vfs.{out_of_memory, OpenHandle, pipe_read, pipe_write, Vfs, new_pipe}
use ristux.Vfs.Open.{Room, free_slots, reserve_open_handle_slots, place, create_pipe}
use ristux.Vfs.Counts.{
  Role, reader, writer, master, slave, one, pipe_count, count_at, pipe_ends, pty_ends, on_pipe,
  on_pty, IsCounted,
}
use ristux.Vfs.Counts.Changes.{place-held}
use ristux.Vfs.Counts.Kept.{Opens, place-Opens, push-ok, reserve_same}

count_at-append {ℓ} :
    {A : Type ℓ} (count : A → ℕ) (xs : List A) (x : A) (i : ℕ)
    → count_at count (xs ++ (x ∷ [])) i
      ≡ count_at count xs i + (if length xs == i then count x else 0)
count_at-append count [] x zero = omega arith
count_at-append count [] x (suc i) = ground arith
count_at-append count (y ∷ xs) x zero = ground arith
count_at-append count (y ∷ xs) x (suc i) = ground (arith, count_at-append count xs x i)

-- The new pipe has one end of each kind.
new_pipe-count :
    (role : Role) (capacity : ℕ)
    → pipe_count role (new_pipe capacity) ≡ one reader role + one writer role
new_pipe-count reader capacity = refl
new_pipe-count writer capacity = refl
new_pipe-count master capacity = refl
new_pipe-count slave capacity = refl

new_pipe-ends :
    (role : Role) (i capacity : ℕ) (v : Vfs)
    → pipe_ends role i (record v { pipes = v.pipes ++ (new_pipe capacity ∷ []) })
      ≡ pipe_ends role i v
        + on_pipe role i (pipe_read (length v.pipes))
        + on_pipe role i (pipe_write (length v.pipes))
unfolding pipe_ends
new_pipe-ends role i capacity v = ground (
  arith,
  count_at-append (pipe_count role) v.pipes (new_pipe capacity) i,
  new_pipe-count role capacity,
)

-- After the first push there is room for the second.
second_slot :
    (handle : OpenHandle) (slots : List (Option OpenHandle))
    → ((free_slots slots ≡ 0)
        × (free_slots (place handle slots).1 ≡ 0)
        × (length (place handle slots).1 ≡ suc (length slots)))
      ⊎ ((free_slots slots ≡ suc (free_slots (place handle slots).1))
          × (length (place handle slots).1 ≡ length slots))
unfolding place
second_slot handle [] = inl (refl, refl, refl)
second_slot handle (none ∷ slots) = inr (refl, refl)
second_slot handle (some other ∷ slots) = elim (second_slot handle slots) [
  | inl (e, f, g) ↦ inl (e, f, ap suc g)
  | inr (e, f) ↦ inr (e, ap suc f)
]

-- A vector with room for some number of elements has room for fewer.
abbrev pub Monotone : Room → Type 0
Monotone room = (m n : ℕ) → m ≤ n → room.slots n ≡ true → room.slots m ≡ true

first_room :
    (room : Room) (v : Vfs)
    → Monotone room
    → reserve_open_handle_slots room 2 v ≡ true
    → reserve_open_handle_slots room 1 v ≡ true
unfolding reserve_open_handle_slots
first_room room v mono h =
    let free = free_slots v.open_files in
    let n = length v.open_files in
    ground (arith, h, mono (n + (1 - free)) (n + (2 - free)) (omega arith))

-- The two conditions are the same.
same_room :
    (slots : ℕ → Bool) (n m free left : ℕ)
    → ((free ≡ 0) × (left ≡ 0) × (m ≡ suc n)) ⊎ ((free ≡ suc left) × (m ≡ n))
    → (leb 2 free || slots (n + (2 - free))) ≡ true
    → (leb 1 left || slots (m + (1 - left))) ≡ true
same_room slots n m free left (inl (e, f, g)) h =
    let total : n + (2 - free) ≡ m + (1 - left) = omega (arith, e, f, g) in
    ground (arith, h, ap slots total, e, f)
same_room slots n m free left (inr (e, f)) h =
    let total : n + (2 - free) ≡ m + (1 - left) = omega (arith, e, f) in
    ground (arith, h, ap slots total, e)

second_room :
    (room : Room) (handle : OpenHandle) (v : Vfs)
    → reserve_open_handle_slots room 2 v ≡ true
    → reserve_open_handle_slots room 1 (record v { open_files = (place handle v.open_files).1 })
      ≡ true
unfolding reserve_open_handle_slots
second_room room handle v h =
    let after = (place handle v.open_files).1 in
    same_room room.slots (length v.open_files) (length after) (free_slots v.open_files)
      (free_slots after) (second_slot handle v.open_files) h

-- A new pipe of this capacity, and its two ends.
pub record IsPiped (capacity read_fd write_fd : ℕ) (v w : Vfs) : Type 0 where
  pub between : List (Option OpenHandle)
  pub pipes : w.pipes ≡ v.pipes ++ (new_pipe capacity ∷ [])
  pub read_end : Opens (pipe_read (length v.pipes)) v.open_files read_fd between
  pub write_end : Opens (pipe_write (length v.pipes)) between write_fd w.open_files
  pub counted : IsCounted w

abbrev piped : ℕ → Vfs → Vfs
piped capacity v =
    let pipe = length v.pipes in
    let slots = (place (pipe_read pipe) v.open_files).1 in
    record v {
      pipes = v.pipes ++ (new_pipe capacity ∷ []);
      open_files = (place (pipe_write pipe) slots).1;
    }

piped-IsCounted : (capacity : ℕ) (v : Vfs) → IsCounted v → IsCounted (piped capacity v)
unfolding pipe_ends pty_ends
piped-IsCounted capacity v c =
    let pipe = length v.pipes in
    let slots = (place (pipe_read pipe) v.open_files).1 in
    record {
      pipes_count = λ role i. omega (
        arith,
        c.pipes_count role i,
        new_pipe-ends role i capacity v,
        place-held (on_pipe role i) (pipe_read pipe) v.open_files,
        place-held (on_pipe role i) (pipe_write pipe) slots,
      );
      ptys_count = λ role i. omega (
        arith,
        c.ptys_count role i,
        place-held (on_pty role i) (pipe_read pipe) v.open_files,
        place-held (on_pty role i) (pipe_write pipe) slots,
      );
    }

both_left : (a b : Bool) → (a && b) ≡ true → a ≡ true
both_left a b h = ground (arith, h)

-- If a vector with room for some number of slots has room for fewer, and the counts are right:
-- `create_pipe` fails with `OutOfMemory` and the table as it was, or it adds one empty pipe and opens
-- first its read end and then its write end, each at a descriptor that was free, no other descriptor
-- changes, and the counts are right again.
pub create_pipe-outcome :
    (room : Room) (capacity : ℕ) (v : Vfs)
    → Monotone room
    → IsCounted v
    → (create_pipe room capacity v ≡ (err out_of_memory, v))
      ⊎ ((r : ℕ) × (s : ℕ) × (w : Vfs) × (create_pipe room capacity v ≡ (ok (r, s), w))
          × IsPiped capacity r s v w)
unfolding create_pipe
create_pipe-outcome room capacity v mono c =
    let pipe = length v.pipes in
    let w = record v { pipes = v.pipes ++ (new_pipe capacity ∷ []) } in
    let (i, slots) = place (pipe_read pipe) v.open_files in
    let (j, rest) = place (pipe_write pipe) slots in
    elim (Bool-cases (reserve_open_handle_slots room 2 v && room.pipes (suc pipe))) [
      | inr e ↦ inl (rw (create_pipe, e) refl)
      | inl e ↦ inr (
        i,
        j,
        piped capacity v,
        (let h = both_left (reserve_open_handle_slots room 2 v) (room.pipes (suc pipe)) e in
            let first =
              push-ok room (pipe_read pipe) w
                (reserve_same room 1 v w refl ∙ first_room room v mono h) in
            let second =
              push-ok room (pipe_write pipe) (record w { open_files = slots })
                (second_room room (pipe_read pipe) w (reserve_same room 2 v w refl ∙ h)) in
            rw (create_pipe, e, first, first, second, first, second) refl),
        record {
          between = slots;
          pipes = refl;
          read_end = place-Opens (pipe_read pipe) v.open_files;
          write_end = place-Opens (pipe_write pipe) slots;
          counted = piped-IsCounted capacity v c;
        },
      )
    ]
