-- ===== src/AddressSpace/Cuts.antt =====
-- The loop that kernel/src/memory/address_space.rs runs over the lazy mappings: an invariant rule and
-- its end, for any body.
use mathlib.Core.Path.{subst}
use ristux.Common.{
  ℕ, zero, suc, ◌+◌, ◌*◌, ◌≤◌, ◌<◌, ◌≡◌, refl, Option, none, some, List, [], ◌∷◌, ◌++◌, length,
  put_last, last_or, all_but_last, Option-cases, inl, inr, arith,
}
use ristux.Common.Results.{Result, ok, err}
use ristux.AddressSpace.{LazyMapping, PagingError, out_of_frames}
use ristux.AddressSpace.Lazy.{Step, cut_from}

-- A number of each entry, added up.
abbrev pub sum : (LazyMapping → ℕ) → List LazyMapping → ℕ
sum f [] = 0
sum f (m ∷ ms) = f m + sum f ms

module _ (f : LazyMapping → ℕ) where
  pub sum-append : (xs ys : List LazyMapping) → sum f (xs ++ ys) ≡ sum f xs + sum f ys
  sum-append [] ys = omega arith
  sum-append (x ∷ xs) ys = omega (arith, sum-append xs ys)

  sum-all_but_last :
      (m : LazyMapping) (ms : List LazyMapping)
      → f (last_or m ms) + sum f (all_but_last (m ∷ ms)) ≡ sum f (m ∷ ms)
  sum-all_but_last m [] = refl
  sum-all_but_last m (n ∷ ms) = omega (arith, sum-all_but_last n ms)

  pub sum-put_last : (ms : List LazyMapping) → sum f (put_last ms) ≡ sum f ms
  sum-put_last [] = refl
  sum-put_last (m ∷ ms) = sum-all_but_last m ms

  pub sum-le_length :
      (k : ℕ) → ((m : LazyMapping) → f m ≤ k) → (ms : List LazyMapping) → sum f ms ≤ k * length ms
  sum-le_length k h [] = omega arith
  sum-le_length k h (m ∷ ms) =
      let t = sum-le_length k h ms in
      let e : k * suc (length ms) ≡ k + k * length ms = grind arith in omega (arith, h m, t, e)

-- The loop ended with this answer, and what holds of the entries passed and left at the end.
-- It stops where the body has no memory for an entry.
pub data EndsWith {ℓ} (step : Step) (P : List LazyMapping → List LazyMapping → Type ℓ)
    : Option (Result {0, 0} Unit PagingError × List LazyMapping) → Type ℓ where
  finished : (ms : List LazyMapping) → P ms [] → EndsWith step P (some (ok tt, ms))
  stopped :
      (passed ms : List LazyMapping) (n : ℕ) (m : LazyMapping) (rest : List LazyMapping)
      → P passed ms
      → step n m rest ≡ none
      → EndsWith step P (some (err out_of_frames, passed ++ ms))

-- What holds of an answer of the body, if it has memory.
abbrev pub Holds {ℓ} :
    (List LazyMapping → List LazyMapping → Type ℓ)
    → Option (List LazyMapping × List LazyMapping)
    → Type ℓ
Holds Q none = Unit
Holds Q (some (done, rest)) = Q done rest

-- The body leaves entries of less size to visit, and keeps the invariant.
module _ {ℓ} (step : Step) (P : List LazyMapping → List LazyMapping → Type ℓ)
    (size : LazyMapping → ℕ)
    (falls : (n : ℕ) (m : LazyMapping) (ms : List LazyMapping)
      → Holds (λ done rest. sum size rest < sum size (m ∷ ms)) (step n m ms))
    (keeps : (n : ℕ) (m : LazyMapping) (passed ms : List LazyMapping)
      → P passed (m ∷ ms)
      → Holds (λ done rest. P (passed ++ done) rest) (step n m ms)) where
  pub cut_from-ends :
      (fuel : ℕ) (passed ms : List LazyMapping)
      → sum size ms < fuel
      → P passed ms
      → EndsWith step P (cut_from step fuel passed ms)
  unfolding cut_from
  cut_from-ends zero passed ms h p = absurd (omega (arith, h))
  cut_from-ends (suc fuel) passed [] h p = finished passed p
  cut_from-ends (suc fuel) passed (m ∷ ms) h p =
      let n = length passed + suc (length ms) in
      elim (Option-cases (step n m ms)) [
        | inl e ↦ rw (e, cut_from) (stopped passed (m ∷ ms) n m ms p e)
        | inr ((done, rest), e) ↦
            let l =
              subst (Holds (λ done rest. sum size rest < sum size (m ∷ ms))) e (falls n m ms) in
            let k =
              subst (Holds (λ done rest. P (passed ++ done) rest)) e (keeps n m passed ms p) in
            rw (e, cut_from) (cut_from-ends fuel (passed ++ done) rest (omega (arith, h, l)) k)
      ]
