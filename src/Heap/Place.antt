-- ===== src/Heap/Place.antt =====
-- Where `alloc_start` puts an allocation in a free block.
use ristux.Common.{ℕ, ◌+◌, ◌-◌, ◌*◌, ◌/◌, ◌%◌, ◌≤◌, ◌<◌, ◌≡◌, ◌⊎◌, inl, inr, arith}
use native.Mathlib.Nat.{lt_of_mul-lt-mul_right}
use ristux.Heap.{align_up, alloc_start, header_size}

align_up-le : (value align : ℕ) → 0 < align → value ≤ align_up value align
unfolding align_up
align_up-le value align h = omega arith

align_up-mod : (value align : ℕ) → 0 < align → align_up value align % align ≡ 0
unfolding align_up
align_up-mod value align h = grind arith

-- Rounding up gives the least multiple.
align_up-least :
    (value align m : ℕ) → 0 < align → value ≤ m → m % align ≡ 0 → align_up value align ≤ m
unfolding align_up
align_up-least value align m h l a =
    let q : m / align * align ≡ m = omega (arith, a, h) in
    let u : (value + align - 1) / align < m / align + 1 =
      lt_of_mul-lt-mul_right align (omega (arith, q, l, h)) in
    grind (arith, q, u)

-- The payload behind the header is aligned, the header is in or behind the block's start, and the gap
-- before it is empty or holds a header.
pub alloc_start_lem :
    (block_start align : ℕ)
    → 0 < align
    → (block_start ≤ alloc_start block_start align)
      × ((alloc_start block_start align + header_size) % align ≡ 0)
      × ((alloc_start block_start align ≡ block_start)
          ⊎ (block_start + header_size ≤ alloc_start block_start align))
unfolding alloc_start
alloc_start_lem block_start align h = ground (
  arith,
  align_up-le (block_start + header_size) align h,
  align_up-le (block_start + header_size * 2) align h,
  align_up-mod (block_start + header_size) align h,
  align_up-mod (block_start + header_size * 2) align h,
)

-- A place in a block at `block_start` for a header before an aligned payload, with nothing or room for
-- a header before it.
abbrev pub IsPlace : ℕ → ℕ → ℕ → Type 0
IsPlace block_start align at =
    ((at + header_size) % align ≡ 0) × ((at ≡ block_start) ⊎ (block_start + header_size ≤ at))

-- There is no place before the one that `alloc_start` takes.
pub alloc_start-least :
    (block_start align at : ℕ)
    → 0 < align
    → IsPlace block_start align at
    → alloc_start block_start align ≤ at
unfolding alloc_start
alloc_start-least block_start align at h (a, inl e) = ground (
  arith,
  e,
  align_up-le (block_start + header_size) align h,
  align_up-least (block_start + header_size) align (at + header_size) h (omega (arith, e)) a,
)
alloc_start-least block_start align at h (a, inr l) = ground (
  arith,
  align_up-least (block_start + header_size) align (at + header_size) h (omega (arith, l)) a,
  align_up-least (block_start + header_size * 2) align (at + header_size) h (omega (arith, l)) a,
)
