-- ===== src/AddressSpace/Removed.antt =====
-- `remove_lazy_range` of kernel/src/memory/address_space.rs.
use ristux.Common.{
  ℕ, ◌+◌, ◌≤◌, ◌≡◌, refl, Bool, false, ◌&&◌, leb, Bool-cases, inl, inr, Option, none, some, List,
  arith,
}
use ristux.AddressSpace.{LazyMapping, UserProtection}
use ristux.AddressSpace.Lazy.{beside, remove_step, remove_lazy_range}
use ristux.AddressSpace.Cuts.{sum-put_last, Holds}
use ristux.AddressSpace.Cover.{Weight, weight_at, weight_of, one, IsDisjoint}
use ristux.AddressSpace.Pieces.{
  IsRight, Leaves, visits, left, loop-Leaves, IsRight-kept, IsRight-append,
}

abbrev gone : Weight → Weight
gone w p = 0

zero_weight : (w : Weight) (o : Option UserProtection) → weight_of (gone w) o ≡ 0
zero_weight w none = refl
zero_weight w (some p) = refl

remove_step-IsRight :
    (room : ℕ → Bool) (start end : ℕ)
    → start ≤ end
    → (n : ℕ) (m : LazyMapping) (ms : List LazyMapping)
    → Holds (IsRight gone start end m ms) (remove_step room start end n m ms)
remove_step-IsRight room start end o n m ms = elim (Bool-cases (beside start end m)) [
  | inl a ↦
      rw a (IsRight-kept gone start end m ms _ (λ w page. ground (arith, a)) (λ page. omega arith))
  | inr a ↦ elim (Bool-cases (leb start m.start && leb m.end end)) [
    | inl b ↦
        rw (a, b)
          (record {
            fewer = ground (arith, a, b, sum-put_last (visits start end) ms);
            exact = λ w page. ground (arith, a, b, sum-put_last (left gone start end w page) ms);
            cover = λ page. ground (arith, sum-put_last (weight_at one page) ms);
          })
    | inr b ↦ elim (Bool-cases (leb start m.start)) [
      | inl c ↦
          rw (a, b, c)
            (IsRight-kept gone start end m ms _ (λ w page. ground (arith, a, b, c))
              (λ page. ground (arith, a, b, c)))
      | inr c ↦ elim (Bool-cases (leb m.end end)) [
        | inl d ↦
            rw (a, b, c, d)
              (IsRight-kept gone start end m ms _ (λ w page. ground (arith, a, c, d))
                (λ page. ground (arith, a, c, d)))
        | inr d ↦ elim (Bool-cases (room (n + 1))) [
          | inr f ↦ rw (a, b, c, d, f) tt
          | inl f ↦
              rw (a, b, c, d, f)
                (IsRight-append gone start end m ms _ _ (ground (arith, a, b, c, d))
                  (λ w page. ground (arith, a, c, d)) (λ page. ground (arith, o, c, d)))
        ]
      ]
    ]
  ]
]

remove_step-needs :
    (room : ℕ → Bool) (start end n : ℕ) (m : LazyMapping) (ms : List LazyMapping)
    → remove_step room start end n m ms ≡ none
    → (k : ℕ) × (room k ≡ false)
remove_step-needs room start end n m ms h = (n + 1, ground (arith, h))

-- On lazy mappings of which no two share a page, and for a range that does not end before it starts,
-- `remove_lazy_range` returns; it leaves mappings of which no two share a page, and beside the range
-- finds the same protection for each page as before; if it succeeds it finds none for a page in the
-- range; and it fails only where the vector gets no memory.
pub remove_lazy_range-outcome :
    (room : ℕ → Bool) (start end : ℕ) (ms : List LazyMapping)
    → start ≤ end
    → IsDisjoint ms
    → Leaves room (λ o. none) start end ms (remove_lazy_range room start end ms)
unfolding remove_lazy_range
remove_lazy_range-outcome room start end ms o d =
    loop-Leaves gone (remove_step room start end) start end (remove_step-IsRight room start end o)
      room (remove_step-needs room start end) (λ o. none) (λ w o. zero_weight w o) ms d
