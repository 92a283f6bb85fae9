-- ===== src/Refcount.antt =====
-- kernel/src/memory/refcount.rs: the sparse reference counts of physical frames. Whether the kernel
-- heap has room for a chunk is an argument. The static table is none before `init`.
pub mod Counts
mod Operations
mod Tests
use ristux.Common.{
  ℕ, zero, suc, ◌-◌, ◌/◌, ◌%◌, Bool, true, false, ◌==◌, leb, ltb, if◌then◌else◌, Option, none, some,
  List, [], ◌∷◌, get_elem?, set, get_or,
}
use ristux.Common.Results.{Result, ok, err}

abbrev pub frame_size : ℕ
frame_size = 4096

abbrev pub chunk_size : ℕ
chunk_size = 512

-- 16 GiB of frames, by chunks.
abbrev pub root_entries : ℕ
root_entries = 8192

pub record RefcountTable : Type 0 where
  pub root : List (Option (List ℕ))

pub data RefcountError : Type 0 where
  out_of_memory overflow untracked_frame : RefcountError

unfoldable pub repeat {ℓ} : {A : Type ℓ} → ℕ → A → List A
repeat zero x = []
repeat (suc n) x = x ∷ repeat n x

unfoldable pub new_table : RefcountTable
new_table = record { root = repeat root_entries none }

-- `get_chunk` and `chunk_mut`.
unfoldable pub get_chunk : RefcountTable → ℕ → Option (List ℕ)
get_chunk table frame = elim (get_elem? table.root (frame / chunk_size)) [
  | none ↦ none
  | some c ↦ c
]

unfoldable pub store_chunk : RefcountTable → ℕ → List ℕ → RefcountTable
store_chunk table frame chunk = record { root = set table.root (frame / chunk_size) (some chunk) }

-- The chunk that it returns is in the table afterwards: the callers store it there.
unfoldable pub ensure_chunk : Bool → RefcountTable → ℕ → Result (List ℕ) RefcountError
ensure_chunk has_room table frame =
    if leb root_entries (frame / chunk_size)
    then err untracked_frame
    else elim (get_chunk table frame) [
      | some c ↦ ok c
      | none ↦ if has_room then ok (repeat chunk_size 1) else err out_of_memory
    ]

abbrev pub frame_index : ℕ → ℕ
frame_index phys = phys / frame_size

-- `chunk[slot]`.
abbrev pub count_in : List ℕ → ℕ → ℕ
count_in chunk frame = get_or chunk (frame % chunk_size) 0

abbrev pub with_count : RefcountTable → List ℕ → ℕ → ℕ → RefcountTable
with_count table chunk frame val = store_chunk table frame (set chunk (frame % chunk_size) val)

unfoldable pub try_increment :
    Bool → ℕ → Option RefcountTable → Result {0, 0} Unit RefcountError × Option RefcountTable
try_increment has_room phys none = (ok tt, none)
try_increment has_room phys (some table) = elim (ensure_chunk has_room table (frame_index phys)) [
  | err e ↦ (err e, some table)
  | ok chunk ↦
      if count_in chunk (frame_index phys) == 65535
      then (err overflow, some (store_chunk table (frame_index phys) chunk))
      else (
        ok tt,
        some (with_count table chunk (frame_index phys) (suc (count_in chunk (frame_index phys)))),
      )
]

unfoldable pub decrement : ℕ → Option RefcountTable → ℕ × Option RefcountTable
decrement phys none = (0, none)
decrement phys (some table) = elim (get_chunk table (frame_index phys)) [
  | none ↦ (0, some table)
  | some chunk ↦ (
    count_in chunk (frame_index phys) - 1,
    some (with_count table chunk (frame_index phys) (count_in chunk (frame_index phys) - 1)),
  )
]

unfoldable pub get : ℕ → Option RefcountTable → ℕ
get phys none = 1
get phys (some table) = elim (get_chunk table (frame_index phys)) [
  | none ↦ 1
  | some chunk ↦ count_in chunk (frame_index phys)
]

unfoldable pub set_count : Bool → ℕ → ℕ → Option RefcountTable → Option RefcountTable
set_count has_room phys val none = none
set_count has_room phys val (some table) = elim (get_chunk table (frame_index phys)) [
  | some chunk ↦ some (with_count table chunk (frame_index phys) val)
  | none ↦ if val == 1 then some table else elim (ensure_chunk has_room table (frame_index phys)) [
    | ok chunk ↦ some (with_count table chunk (frame_index phys) val)
    | err e ↦ some table
  ]
]
