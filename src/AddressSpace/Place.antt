-- ===== src/AddressSpace/Place.antt =====
-- How kernel/src/memory/address_space.rs chooses the address of a new mapping, and makes it.
use ristux.Common.{
  ℕ, zero, suc, ◌+◌, ◌-◌, ◌/◌, min, Bool, true, false, ◌&&◌, ◌||◌, not, ◌==◌, leb, ltb,
  if◌then◌else◌, Option, none, some, [], ◌∷◌, ◌++◌, length, u64_max,
}
use ristux.Common.Results.{Result, ok, err}
use ristux.Refcount.{frame_size}
use ristux.Frames.{align_down, max}
use ristux.AddressSpace.{
  AddressSpace, UserProtection, PagingError, not_mapped, out_of_frames, user_mmap_start,
  user_mmap_end, user_stack_guard, checked_add, checked_align_up, align_up, is_user_mapped,
  lazy_range_overlaps,
}

-- So many pages from this one are not mapped.
unfoldable pub pages_unmapped : ℕ → ℕ → AddressSpace → Bool
pages_unmapped zero page s = true
pages_unmapped (suc rounds) page s =
    if is_user_mapped page s then false else pages_unmapped rounds (page + frame_size) s

unfoldable pub range_available : ℕ → ℕ → AddressSpace → Bool
range_available start len s = elim (checked_add start len) [
  | none ↦ false
  | some end ↦
      if (ltb start user_mmap_start || ltb user_mmap_end end) || leb end start
      then false
      else if lazy_range_overlaps start end s.lazy_mappings
      then false
      else pages_unmapped ((len + (frame_size - 1)) / frame_size) start s
]

-- `while candidate.checked_add(len)? <= end`, on fuel.
unfoldable pub find_from : ℕ → ℕ → ℕ → ℕ → AddressSpace → Option ℕ
find_from zero candidate end len s = none
find_from (suc rounds) candidate end len s =
    elim (leb (candidate + len) u64_max && leb (candidate + len) end) [
      | false ↦ none
      | true ↦ elim (range_available candidate len s) [
        | true ↦ some candidate
        | false ↦ find_from rounds (candidate + frame_size) end len s
      ]
    ]

-- One candidate for each page of the range, and one more to end.
unfoldable pub find_free_range : ℕ → ℕ → ℕ → AddressSpace → Option ℕ
find_free_range start end len s =
    find_from ((end - start) / frame_size + 2) (align_up start) end len s

abbrev pub first_start : AddressSpace → ℕ
first_start s = max (align_up s.mmap_next) user_mmap_start

abbrev pub ok_or : Option ℕ → Result ℕ PagingError
ok_or none = err out_of_frames
ok_or (some a) = ok a

abbrev pub search_mmap_addr : ℕ → AddressSpace → Result ℕ PagingError
search_mmap_addr len s = elim (find_free_range (first_start s) user_mmap_end len s) [
  | some candidate ↦ ok candidate
  | none ↦ ok_or (find_free_range user_mmap_start (first_start s) len s)
]

unfoldable pub reserve_mmap_addr : ℕ → ℕ → AddressSpace → Result ℕ PagingError
reserve_mmap_addr hint len s =
    if len == 0 || ltb (user_mmap_end - user_mmap_start) len
    then err not_mapped
    else if not (hint == 0) && range_available (align_down hint) len s
    then ok (align_down hint)
    else search_mmap_addr len s

abbrev pub next_after : ℕ → ℕ
next_after end = if leb user_mmap_end end then user_mmap_start else end

unfoldable pub map_at :
    (ℕ → Bool) → ℕ → ℕ → UserProtection → AddressSpace → Result ℕ PagingError × AddressSpace
map_at room base len protection s = elim (checked_add base len) [
  | none ↦ (err not_mapped, s)
  | some end ↦ if not (room (length s.lazy_mappings + 1)) then (err out_of_frames, s) else (
    ok base,
    record s {
      lazy_mappings =
          s.lazy_mappings ++ (record { start = base; end = end; protection = protection } ∷ []);
      mmap_next = next_after (min end user_mmap_end);
    },
  )
]

unfoldable pub map_anonymous :
    (ℕ → Bool) → ℕ → ℕ → UserProtection → AddressSpace → Result ℕ PagingError × AddressSpace
map_anonymous room hint len protection s = elim (checked_align_up len) [
  | none ↦ (err not_mapped, s)
  | some aligned ↦ elim (reserve_mmap_addr hint aligned s) [
    | err e ↦ (err e, s)
    | ok base ↦ map_at room base aligned protection s
  ]
]

unfoldable pub can_grow_stack : ℕ → AddressSpace → Bool
can_grow_stack fault_addr s = elim (checked_add (align_down fault_addr) frame_size) [
  | none ↦ false
  | some page_end ↦ ltb user_stack_guard (align_down fault_addr) && leb page_end s.stack_top
]
