-- ===== src/AddressSpace/Mapped.antt =====
-- `map_anonymous` of kernel/src/memory/address_space.rs.
use ristux.Common.{
  ℕ, ◌+◌, ◌-◌, ◌%◌, ◌≤◌, ◌<◌, ◌≡◌, ◌⊎◌, refl, Bool, true, false, if◌then◌else◌, leb, Bool-cases,
  inl, inr, some, List, [], ◌∷◌, ◌++◌, length, u64_max, arith,
}
use ristux.Common.Results.{Result, ok, err}
use ristux.Refcount.{frame_size}
use ristux.AddressSpace.{
  AddressSpace, LazyMapping, UserProtection, PagingError, not_mapped, out_of_frames,
  user_mmap_start, user_mmap_end, align_up, holds, lazy_protection_for_page, lazy_protection_in,
}
use ristux.AddressSpace.Place.{reserve_mmap_addr, map_anonymous, map_at}
use ristux.AddressSpace.Cuts.{sum, sum-append}
use ristux.AddressSpace.Cover.{weight_at, one, IsDisjoint}
use ristux.AddressSpace.Pieces.{within}
use ristux.AddressSpace.Ranges.{IsFree}
use ristux.AddressSpace.Search.{AllTaken, Reserves, reserve_mmap_addr-Reserves}

-- Why no mapping is made.
pub data Refused (room : ℕ → Bool) (len : ℕ) (s : AddressSpace) : PagingError → Type 0 where
  bad_length : (len ≡ 0) ⊎ (user_mmap_end - user_mmap_start < len) → Refused room len s not_mapped
  all_taken : AllTaken (align_up len) s → Refused room len s out_of_frames
  no_memory : room (length s.lazy_mappings + 1) ≡ false → Refused room len s out_of_frames

-- A mapping of this many bytes was added at the base.
pub record Maps (base len : ℕ) (p : UserProtection) (s after : AddressSpace) : Type 0 where
  pub aligned : base % frame_size ≡ 0
  pub free : IsFree base len s
  pub disjoint : IsDisjoint after.lazy_mappings
  pub found :
      (page : ℕ)
      → lazy_protection_for_page page after
        ≡ (if within base (base + len) page then some p else lazy_protection_for_page page s)
  pub others_same :
      after ≡ record s { lazy_mappings = after.lazy_mappings; mmap_next = after.mmap_next }
  pub next_in_range : (user_mmap_start ≤ after.mmap_next) × (after.mmap_next < user_mmap_end)

abbrev pub MapOutcome :
    (ℕ → Bool) → ℕ → UserProtection → AddressSpace → Result ℕ PagingError × AddressSpace → Type 0
MapOutcome room len p s r =
    ((e : PagingError) × (r ≡ (err e, s)) × Refused room len s e)
    ⊎ ((base : ℕ) × (r.0 ≡ ok base) × Maps base (align_up len) p s r.1)

lookup-append :
    (page : ℕ) (ms : List LazyMapping) (new : LazyMapping)
    → sum (weight_at one page) ms ≡ 0 ⊎ (holds page new ≡ false)
    → lazy_protection_in page (ms ++ (new ∷ []))
      ≡ (if holds page new then some new.protection else lazy_protection_in page ms)
lookup-append page [] new h = refl
lookup-append page (m ∷ ms) new (inl h) = elim (Bool-cases (holds page m)) [
  | inl f ↦ absurd (ground (arith, h, f))
  | inr f ↦ rw f (lookup-append page ms new (inl (ground (arith, h, f))))
]
lookup-append page (m ∷ ms) new (inr h) = elim (Bool-cases (holds page m)) [
  | inl f ↦ rw (f, h)
  | inr f ↦ rw f (lookup-append page ms new (inr h))
]

map_at-Maps :
    (room : ℕ → Bool) (base len : ℕ) (p : UserProtection) (s : AddressSpace)
    → IsDisjoint s.lazy_mappings
    → base % frame_size ≡ 0
    → IsFree base (align_up len) s
    → MapOutcome room len p s (map_at room base (align_up len) p s)
unfolding map_at lazy_protection_for_page
map_at-Maps room base len p s d a f =
    let fits : leb (base + align_up len) u64_max ≡ true = ground (arith, f.high) in
    let new : LazyMapping = record { start = base; end = base + align_up len; protection = p } in
    elim (Bool-cases (room (length s.lazy_mappings + 1))) [
      | inr g ↦ rw (fits, g, map_at) (inl (out_of_frames, refl, no_memory g))
      | inl g ↦
          rw (fits, g, map_at)
            (inr (
              base,
              refl,
              record {
                aligned = a;
                free = f;
                disjoint = λ page. elim (Bool-cases (holds page new)) [
                  | inl h ↦ ground (
                    arith,
                    sum-append (weight_at one page) s.lazy_mappings (new ∷ []),
                    f.not_lazy page (ground (arith, h)) (ground (arith, h)),
                    h,
                  )
                  | inr h ↦
                      ground (
                        arith,
                        sum-append (weight_at one page) s.lazy_mappings (new ∷ []),
                        d page,
                        h,
                      )
                ];
                found = λ page.
                    lookup-append page s.lazy_mappings new (elim (Bool-cases (holds page new)) [
                      | inl h ↦ inl (f.not_lazy page (ground (arith, h)) (ground (arith, h)))
                      | inr h ↦ inr h
                    ]);
                others_same = refl;
                next_in_range = ground (arith, f.low, f.high, f.nonempty);
              },
            ))
    ]

-- On lazy mappings of which no two share a page, `map_anonymous` either fails and changes nothing, for
-- a length of zero or above the region for mappings, or because the vector gets no memory, or when each
-- range of that length in the region that starts at a page, and does not lie across the address where
-- the search begins, is overlapped by a lazy mapping or has a mapped page; or it answers a multiple of 4096 at which the length, rounded up to
-- pages, was free in that region, and then just the pages there are found with the protection, no two
-- mappings share a page, and the next search starts in the region.
pub map_anonymous-outcome :
    (room : ℕ → Bool) (hint len : ℕ) (p : UserProtection) (s : AddressSpace)
    → IsDisjoint s.lazy_mappings
    → MapOutcome room len p s (map_anonymous room hint len p s)
unfolding map_anonymous
map_anonymous-outcome room hint len p s d =
    elim (Bool-cases (leb (len + (frame_size - 1)) u64_max)) [
      | inr f ↦ rw (f, map_anonymous) (inl (not_mapped, refl, bad_length (inr (ground (arith, f)))))
      | inl f ↦
          rw (f, map_anonymous)
            (reserved (reserve_mmap_addr hint (align_up len) s)
              (reserve_mmap_addr-Reserves hint (align_up len) s))
    ]
  where
    reserved :
        (r : Result ℕ PagingError)
        → Reserves (align_up len) s r
        → MapOutcome room len p s
            (elim r [ err e ↦ (err e, s) | ok base ↦ map_at room base (align_up len) p s ])
    reserved (ok base) (a, f) = map_at-Maps room base len p s d a f
    reserved (err e) (inl (q, h)) = rw q (inl (not_mapped, refl, bad_length (ground (arith, h))))
    reserved (err e) (inr (q, h)) = rw q (inl (out_of_frames, refl, all_taken h))
