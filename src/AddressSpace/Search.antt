-- ===== src/AddressSpace/Search.antt =====
-- kernel/src/memory/address_space.rs: the search of a free range for a new mapping.
use mathlib.Core.Path.{subst}
use ristux.Common.{
  ℕ, zero, suc, ◌+◌, ◌-◌, ◌*◌, ◌/◌, ◌%◌, ◌≤◌, ◌<◌, ◌≡◌, ◌⊎◌, refl, false, ◌&&◌, ◌||◌, not, ◌==◌,
  leb, ltb, Bool-cases, Option-cases, inl, inr, Option, none, some, u64_max, arith,
}
use ristux.Common.Results.{Result, ok, err}
use ristux.Refcount.{frame_size}
use ristux.AddressSpace.{
  AddressSpace, PagingError, not_mapped, out_of_frames, user_mmap_start, user_mmap_end, align_up,
  align_down,
}
use ristux.AddressSpace.Place.{
  range_available, find_from, find_free_range, first_start, search_mmap_addr, reserve_mmap_addr,
}
use ristux.AddressSpace.Ranges.{IsFree, IsTaken, range_available-IsFree, range_available-IsTaken}

-- The answer of a search from this candidate, page by page: the range fits and is free, or no range
-- that fits is available.
abbrev Finds : ℕ → ℕ → ℕ → AddressSpace → Option ℕ → Type 0
Finds candidate end len s (some base) =
    (base % frame_size ≡ candidate % frame_size) × IsFree base len s
Finds candidate end len s none =
    (k : ℕ)
    → candidate + k * frame_size + len ≤ u64_max
    → candidate + k * frame_size + len ≤ end
    → range_available (candidate + k * frame_size) len s ≡ false

taken_further :
    (rounds candidate end len : ℕ) (s : AddressSpace)
    → range_available candidate len s ≡ false
    → Finds (candidate + frame_size) end len s none
    → Finds candidate end len s none
taken_further rounds candidate end len s g f zero l u =
    let e : candidate + 0 * frame_size ≡ candidate = omega arith in rw e g
taken_further rounds candidate end len s g f (suc k) l u =
    let e : candidate + suc k * frame_size ≡ candidate + frame_size + k * frame_size =
      omega arith in
    rw e (f k (omega (arith, l)) (omega (arith, u)))

find_from-Finds :
    (rounds candidate end len : ℕ) (s : AddressSpace)
    → end < candidate + rounds * frame_size
    → Finds candidate end len s (find_from rounds candidate end len s)
unfolding find_from
find_from-Finds zero candidate end len s h = λ k l u. absurd (omega (arith, h, u))
find_from-Finds (suc rounds) candidate end len s h =
    elim (Bool-cases (leb (candidate + len) u64_max && leb (candidate + len) end)) [
      | inr f ↦ rw (f, find_from) (λ k l u. absurd (ground (arith, f, l, u)))
      | inl f ↦ elim (Bool-cases (range_available candidate len s)) [
        | inl g ↦ rw (f, g, find_from) (refl, range_available-IsFree candidate len s g)
        | inr g ↦
            rw (f, g, find_from)
              (further _ g
                (find_from-Finds rounds (candidate + frame_size) end len s (omega (arith, h))))
      ]
    ]
  where
    further :
        (o : Option ℕ)
        → range_available candidate len s ≡ false
        → Finds (candidate + frame_size) end len s o
        → Finds candidate end len s o
    further (some base) g (e, f) = (omega (arith, e), f)
    further none g f = taken_further rounds candidate end len s g f

-- Each page-aligned range for mappings that lies on one side of the first one tried is overlapped by a
-- lazy mapping or has a page that is mapped.
abbrev pub AllTaken : ℕ → AddressSpace → Type 0
AllTaken len s =
    (base : ℕ)
    → base % frame_size ≡ 0
    → user_mmap_start ≤ base
    → base + len ≤ user_mmap_end
    → (first_start s ≤ base) ⊎ (base + len ≤ first_start s)
    → IsTaken base len s

module _ (len : ℕ) (s : AddressSpace) where
  search-Finds :
      (start end : ℕ)
      → start % frame_size ≡ 0
      → Finds start end len s (find_free_range start end len s)
  unfolding find_free_range
  search-Finds start end h =
      let e : align_up start ≡ start = omega (arith, h) in
      rw e (find_from-Finds ((end - start) / frame_size + 2) start end len s (omega arith))

  all_taken :
      0 < len
      → find_free_range (first_start s) user_mmap_end len s ≡ none
      → find_free_range user_mmap_start (first_start s) len s ≡ none
      → AllTaken len s
  all_taken pos e f base a low high (inl l) =
      let h =
        subst (Finds (first_start s) user_mmap_end len s) e
          (search-Finds (first_start s) user_mmap_end (ground arith)) in
      let q : first_start s + (base - first_start s) / frame_size * frame_size ≡ base =
        ground (arith, a, l) in
      range_available-IsTaken base len s pos low high (
        subst (λ b. range_available b len s ≡ false) q
          (h ((base - first_start s) / frame_size) (omega (arith, q, high))
            (omega (arith, q, high))))
  all_taken pos e f base a low high (inr l) =
      let h =
        subst (Finds user_mmap_start (first_start s) len s) f
          (search-Finds user_mmap_start (first_start s) (omega arith)) in
      let q : user_mmap_start + (base - user_mmap_start) / frame_size * frame_size ≡ base =
        omega (arith, a, low) in
      range_available-IsTaken base len s pos low high (
        subst (λ b. range_available b len s ≡ false) q
          (h ((base - user_mmap_start) / frame_size) (omega (arith, q, high))
            (omega (arith, q, l))))

-- What `reserve_mmap_addr` may answer.
abbrev pub Reserves : ℕ → AddressSpace → Result ℕ PagingError → Type 0
Reserves len s (ok base) = (base % frame_size ≡ 0) × IsFree base len s
Reserves len s (err e) =
    ((e ≡ not_mapped) × ((len ≡ 0) ⊎ (user_mmap_end - user_mmap_start < len)))
    ⊎ ((e ≡ out_of_frames) × AllTaken len s)

search_mmap_addr-Reserves :
    (len : ℕ) (s : AddressSpace) → 0 < len → Reserves len s (search_mmap_addr len s)
search_mmap_addr-Reserves len s pos =
    let a = search-Finds len s (first_start s) user_mmap_end (ground arith) in
    let b = search-Finds len s user_mmap_start (first_start s) (omega arith) in
    elim (Option-cases (find_free_range (first_start s) user_mmap_end len s)) [
      | inr (base, e) ↦
          let f = subst (Finds (first_start s) user_mmap_end len s) e a in
          rw (e, search_mmap_addr) (ground (arith, f.0), f.1)
      | inl e ↦ elim (Option-cases (find_free_range user_mmap_start (first_start s) len s)) [
        | inr (base, g) ↦
            let f = subst (Finds user_mmap_start (first_start s) len s) g b in
            rw (e, g, search_mmap_addr) (omega (arith, f.0), f.1)
        | inl g ↦ rw (e, g, search_mmap_addr) (inr (refl, all_taken len s pos e g))
      ]
    ]

-- `reserve_mmap_addr` answers a multiple of 4096 at which that many bytes lie in the region for
-- mappings with nothing mapped, lazily or not; or NotMapped, for a length of zero or above the
-- region's; or OutOfFrames, and then each range of that length that starts at a page and does not lie
-- across the address where the search begins is overlapped by a lazy mapping or has a mapped
-- page.
pub reserve_mmap_addr-Reserves :
    (hint len : ℕ) (s : AddressSpace) → Reserves len s (reserve_mmap_addr hint len s)
unfolding reserve_mmap_addr
reserve_mmap_addr-Reserves hint len s =
    elim (Bool-cases (len == 0 || ltb (user_mmap_end - user_mmap_start) len)) [
      | inl f ↦ rw f (inl (refl, ground (arith, f)))
      | inr f ↦ elim (Bool-cases (not (hint == 0) && range_available (align_down hint) len s)) [
        | inl g ↦
            rw (f, g)
              (omega arith, range_available-IsFree (align_down hint) len s (ground (arith, g)))
        | inr g ↦ rw (f, g) (search_mmap_addr-Reserves len s (ground (arith, f)))
      ]
    ]
