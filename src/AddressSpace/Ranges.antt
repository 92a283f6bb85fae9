-- ===== src/AddressSpace/Ranges.antt =====
-- kernel/src/memory/address_space.rs: when a range for mappings is free and when it is taken.
use ristux.Common.{
  ℕ, zero, suc, ◌+◌, ◌-◌, ◌*◌, ◌/◌, ◌≤◌, ◌<◌, ◌≡◌, ◌≢◌, ◌⊎◌, refl, All, any, get_elem?, true, false,
  ◌&&◌, ◌==◌, leb, ltb, Bool-cases, inl, inr, some, List, [], ◌∷◌, u64_max, arith,
}
use ristux.Refcount.{frame_size}
use ristux.AddressSpace.{
  AddressSpace, LazyMapping, user_mmap_start, user_mmap_end, is_user_mapped, lazy_range_overlaps,
}
use ristux.AddressSpace.Place.{pages_unmapped, range_available}
use ristux.AddressSpace.Cuts.{sum}
use ristux.AddressSpace.Cover.{weight_at, one}

overlaps-uncovered :
    (start end page : ℕ) (ms : List LazyMapping)
    → lazy_range_overlaps start end ms ≡ false
    → start ≤ page
    → page < end
    → sum (weight_at one page) ms ≡ 0
unfolding lazy_range_overlaps
overlaps-uncovered start end page [] h l u = refl
overlaps-uncovered start end page (m ∷ ms) h l u =
    elim (Bool-cases (ltb start m.end && ltb m.start end)) [
      | inl f ↦ absurd (ground (arith, h, f))
      | inr f ↦
          ground (arith, f, l, u, overlaps-uncovered start end page ms (ground (arith, h, f)) l u)
    ]

pages_unmapped-all :
    (rounds page : ℕ) (s : AddressSpace)
    → pages_unmapped rounds page s ≡ true
    → (k : ℕ) → k < rounds
    → is_user_mapped (page + k * frame_size) s ≡ false
unfolding pages_unmapped
pages_unmapped-all zero page s h k l = absurd (omega (arith, l))
pages_unmapped-all (suc rounds) page s h zero l =
    let e : page + 0 * frame_size ≡ page = omega arith in rw e (ground (arith, h))
pages_unmapped-all (suc rounds) page s h (suc k) l =
    let e : page + suc k * frame_size ≡ page + frame_size + k * frame_size = omega arith in
    rw e (pages_unmapped-all rounds (page + frame_size) s (ground (arith, h)) k (omega (arith, l)))

unmapped_user :
    (page : ℕ) (ms : List (ℕ × ℕ))
    → any (λ (m : ℕ × ℕ). m.0 == page) ms ≡ false
    → All (λ (m : ℕ × ℕ). m.0 ≢ page) ms
unmapped_user page [] h = tt
unmapped_user page (m ∷ ms) h =
    (λ e. absurd (ground (arith, e, h)), unmapped_user page ms (ground (arith, h)))

-- A lazy mapping overlaps the range, ending after its start and starting before its end, or a page of
-- the range is mapped.
abbrev pub IsTaken : ℕ → ℕ → AddressSpace → Type 0
IsTaken base len s =
    ((i : ℕ) × (m : LazyMapping) × (get_elem? s.lazy_mappings i ≡ some m)
      × (base < m.end)
      × (m.start < base + len))
    ⊎ ((i : ℕ) × (m : ℕ × ℕ) × (k : ℕ) × (get_elem? s.user_mappings i ≡ some m)
        × (k * frame_size < len)
        × (m.0 ≡ base + k * frame_size))

overlapping :
    (start end : ℕ) (ms : List LazyMapping)
    → lazy_range_overlaps start end ms ≡ true
    → (i : ℕ) × (m : LazyMapping) × (get_elem? ms i ≡ some m) × (start < m.end) × (m.start < end)
unfolding lazy_range_overlaps
overlapping start end [] h = absurd (cc h)
overlapping start end (m ∷ ms) h = elim (Bool-cases (ltb start m.end && ltb m.start end)) [
  | inl f ↦ (0, m, refl, ground (arith, f), ground (arith, f))
  | inr f ↦
      let (i, n, at, l, u) = overlapping start end ms (ground (arith, h, f)) in (suc i, n, at, l, u)
]

mapped_user :
    (page : ℕ) (ms : List (ℕ × ℕ))
    → any (λ (m : ℕ × ℕ). m.0 == page) ms ≡ true
    → (i : ℕ) × (m : ℕ × ℕ) × (get_elem? ms i ≡ some m) × (m.0 ≡ page)
mapped_user page [] h = absurd (cc h)
mapped_user page (m ∷ ms) h = elim (Bool-cases (m.0 == page)) [
  | inl f ↦ (0, m, refl, ground (arith, f))
  | inr f ↦ let (i, n, at, e) = mapped_user page ms (ground (arith, h, f)) in (suc i, n, at, e)
]

mapped_page :
    (rounds page : ℕ) (s : AddressSpace)
    → pages_unmapped rounds page s ≡ false
    → (i : ℕ) × (m : ℕ × ℕ) × (k : ℕ) × (get_elem? s.user_mappings i ≡ some m)
      × (k < rounds)
      × (m.0 ≡ page + k * frame_size)
unfolding pages_unmapped is_user_mapped
mapped_page zero page s h = absurd (cc h)
mapped_page (suc rounds) page s h = elim (Bool-cases (is_user_mapped page s)) [
  | inl f ↦
      let (i, m, at, e) = mapped_user page s.user_mappings f in
      (i, m, 0, at, omega arith, omega (arith, e))
  | inr f ↦
      let (i, m, k, at, l, e) =
        mapped_page rounds (page + frame_size) s (rw (f, pages_unmapped) at h) in
      (i, m, suc k, at, omega (arith, l), omega (arith, e))
]

pub range_available-IsTaken :
    (start len : ℕ) (s : AddressSpace)
    → 0 < len
    → user_mmap_start ≤ start
    → start + len ≤ user_mmap_end
    → range_available start len s ≡ false
    → IsTaken start len s
unfolding range_available
range_available-IsTaken start len s pos low high h =
    elim (Bool-cases (lazy_range_overlaps start (start + len) s.lazy_mappings)) [
      | inl o ↦ inl (overlapping start (start + len) s.lazy_mappings o)
      | inr o ↦
          let n : pages_unmapped ((len + (frame_size - 1)) / frame_size) start s ≡ false =
            ground (arith, h, o, pos, low, high) in
          let (i, m, k, at, l, e) = mapped_page _ start s n in
          inr (i, m, k, at, omega (arith, l), e)
    ]

-- A range for mappings in which nothing is mapped.
pub record IsFree (base len : ℕ) (s : AddressSpace) : Type 0 where
  pub nonempty : 0 < len
  pub low : user_mmap_start ≤ base
  pub high : base + len ≤ user_mmap_end
  pub not_lazy :
      (page : ℕ) → base ≤ page → page < base + len → sum (weight_at one page) s.lazy_mappings ≡ 0
  pub not_user :
      (k : ℕ)
      → k * frame_size < len
      → All (λ (m : ℕ × ℕ). m.0 ≢ base + k * frame_size) s.user_mappings

pub range_available-IsFree :
    (start len : ℕ) (s : AddressSpace) → range_available start len s ≡ true → IsFree start len s
unfolding range_available is_user_mapped
range_available-IsFree start len s h = elim (Bool-cases (leb (start + len) u64_max)) [
  | inr f ↦ absurd (cc (rw (f, range_available) at h))
  | inl f ↦
      let g = rw (f, range_available) at h in
      let o : lazy_range_overlaps start (start + len) s.lazy_mappings ≡ false = ground (arith, g) in
      let p : pages_unmapped ((len + (frame_size - 1)) / frame_size) start s ≡ true =
        ground (arith, g) in
      record {
        nonempty = ground (arith, g);
        low = ground (arith, g);
        high = ground (arith, g);
        not_lazy = λ page l u. overlaps-uncovered start (start + len) page s.lazy_mappings o l u;
        not_user = λ k l.
            unmapped_user (start + k * frame_size) s.user_mappings
              (pages_unmapped-all _ start s p k (omega (arith, l)));
      }
]
