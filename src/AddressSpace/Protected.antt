-- ===== src/AddressSpace/Protected.antt =====
-- `protect_lazy_range` of kernel/src/memory/address_space.rs.
use ristux.Common.{
  ℕ, ◌+◌, ◌≤◌, ◌≡◌, refl, Bool, false, ◌&&◌, ◌==◌, Bool-cases, inl, inr, Option, none, some, List,
  min, arith,
}
use ristux.AddressSpace.{LazyMapping, UserProtection, max}
use ristux.AddressSpace.Lazy.{beside, protect_step, protect_lazy_range}
use ristux.AddressSpace.Cuts.{Holds}
use ristux.AddressSpace.Cover.{Weight, weight_of, IsDisjoint}
use ristux.AddressSpace.Pieces.{IsRight, Leaves, loop-Leaves, IsRight-kept, IsRight-append}

abbrev given : UserProtection → Weight → Weight
given p w q = w p

-- The protection where there was one.
abbrev pub replaced : UserProtection → Option UserProtection → Option UserProtection
replaced p none = none
replaced p (some q) = some p

given_weight :
    (p : UserProtection) (w : Weight) (o : Option UserProtection)
    → weight_of (given p w) o ≡ weight_of w (replaced p o)
given_weight p w none = refl
given_weight p w (some q) = refl

protect_step-IsRight :
    (room : ℕ → Bool) (p : UserProtection) (start end : ℕ)
    → start ≤ end
    → (n : ℕ) (m : LazyMapping) (ms : List LazyMapping)
    → Holds (IsRight (given p) start end m ms) (protect_step room p start end n m ms)
protect_step-IsRight room p start end o n m ms = elim (Bool-cases (beside start end m)) [
  | inl a ↦ rw a (
      IsRight-kept (given p) start end m ms _ (λ w page. ground (arith, a))
        (λ page. ground (arith, a)))
  | inr a ↦ elim (Bool-cases (max start m.start == m.start && min end m.end == m.end)) [
    | inl b ↦
        rw (a, b)
          (IsRight-kept (given p) start end m ms _ (λ w page. ground (arith, a, b))
            (λ page. ground (arith, a, b)))
    | inr b ↦ elim (Bool-cases (max start m.start == m.start)) [
      | inl c ↦ elim (Bool-cases (room (n + 1))) [
        | inr f ↦ rw (a, b, c, f) tt
        | inl f ↦
            rw (a, b, c, f)
              (IsRight-append (given p) start end m ms _ _ (ground (arith, o, a, b, c))
                (λ w page. ground (arith, o, a, b, c)) (λ page. ground (arith, o, a, b, c)))
      ]
      | inr c ↦ elim (Bool-cases (min end m.end == m.end)) [
        | inl d ↦ elim (Bool-cases (room (n + 1))) [
          | inr f ↦ rw (a, b, c, d, f) tt
          | inl f ↦
              rw (a, b, c, d, f)
                (IsRight-append (given p) start end m ms _ _ (ground (arith, o, a, b, c, d))
                  (λ w page. ground (arith, o, a, b, c, d)) (λ page. ground (arith, o, a, b, c, d)))
        ]
        | inr d ↦ elim (Bool-cases (room (n + 2))) [
          | inr f ↦ rw (a, b, c, d, f) tt
          | inl f ↦
              rw (a, b, c, d, f)
                (IsRight-append (given p) start end m ms _ _ (ground (arith, o, a, b, c, d))
                  (λ w page. ground (arith, o, a, b, c, d)) (λ page. ground (arith, o, a, b, c, d)))
        ]
      ]
    ]
  ]
]

protect_step-needs :
    (room : ℕ → Bool) (p : UserProtection) (start end n : ℕ) (m : LazyMapping)
    (ms : List LazyMapping)
    → protect_step room p start end n m ms ≡ none
    → (k : ℕ) × (room k ≡ false)
protect_step-needs room p start end n m ms h = elim (Bool-cases (room (n + 1))) [
  | inr f ↦ (n + 1, f)
  | inl f ↦ (n + 2, ground (arith, h, f))
]

-- On lazy mappings of which no two share a page, and for a range that does not end before it starts,
-- `protect_lazy_range` returns; it leaves mappings of which no two share a page, and beside the range
-- finds the same protection for each page as before; if it succeeds it finds the given one for just
-- the pages in the range that had one; and it fails only where the vector gets no memory.
pub protect_lazy_range-outcome :
    (room : ℕ → Bool) (p : UserProtection) (start end : ℕ) (ms : List LazyMapping)
    → start ≤ end
    → IsDisjoint ms
    → Leaves room (replaced p) start end ms (protect_lazy_range room p start end ms)
unfolding protect_lazy_range
protect_lazy_range-outcome room p start end ms o d =
    loop-Leaves (given p) (protect_step room p start end) start end
      (protect_step-IsRight room p start end o) room (protect_step-needs room p start end)
      (replaced p) (given_weight p) ms d
