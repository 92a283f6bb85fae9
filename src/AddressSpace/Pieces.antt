-- ===== src/AddressSpace/Pieces.antt =====
-- What the bodies of `remove_lazy_range` and `protect_lazy_range`, kernel/src/memory/address_space.rs,
-- have in common: in the range they change the weight of a protection, beside it they change nothing.
use ristux.Common.{
  ℕ, ◌+◌, ◌≤◌, ◌<◌, ◌≡◌, ◌≢◌, refl, Bool, true, false, ◌&&◌, ◌||◌, leb, ltb, if◌then◌else◌, Option,
  none, some, List, [], ◌∷◌, ◌++◌, arith,
}
use ristux.Common.Results.{Result, ok, err}
use ristux.AddressSpace.{LazyMapping, UserProtection, PagingError, lazy_protection_in}
use ristux.AddressSpace.Lazy.{Step, beside, cut_from, cut_fuel}
use ristux.AddressSpace.Cuts.{
  sum, sum-append, sum-le_length, Holds, EndsWith, finished, stopped, cut_from-ends,
}
use ristux.AddressSpace.Cover.{
  Weight, one, weight_at, weight_of, IsDisjoint, weight-lookup, eq_of_weights,
}

abbrev pub within : ℕ → ℕ → ℕ → Bool
within start end page = leb start page && ltb page end

-- Visits that an entry may still cost.
abbrev pub visits : ℕ → ℕ → LazyMapping → ℕ
visits start end m =
    if beside start end m || (leb start m.start && leb m.end end)
    then 1
    else if leb start m.start || leb m.end end
    then 2
    else 3

-- The weight that the entry is to have in the end.
abbrev pub left : (Weight → Weight) → ℕ → ℕ → Weight → ℕ → LazyMapping → ℕ
left after start end w page m =
    if within start end page then weight_at (after w) page m else weight_at w page m

-- A right answer of the body for an entry.
pub record IsRight (after : Weight → Weight) (start end : ℕ) (m : LazyMapping)
    (ms done rest : List LazyMapping) : Type 0 where
  pub fewer : sum (visits start end) rest < visits start end m + sum (visits start end) ms
  pub exact :
      (w : Weight) (page : ℕ)
      → sum (weight_at w page) done + sum (left after start end w page) rest
        ≡ left after start end w page m + sum (left after start end w page) ms
  pub cover :
      (page : ℕ)
      → sum (weight_at one page) done + sum (weight_at one page) rest
        ≤ weight_at one page m + sum (weight_at one page) ms

-- An answer that keeps pieces of the entry in its place, and appends others, is right if they have
-- the weights of the entry.
module _ (after : Weight → Weight) (start end : ℕ) (m : LazyMapping)
    (ms done : List LazyMapping) where
  pub IsRight-kept :
      ((w : Weight) (page : ℕ) → sum (weight_at w page) done ≡ left after start end w page m)
      → ((page : ℕ) → sum (weight_at one page) done ≤ weight_at one page m)
      → IsRight after start end m ms done ms
  IsRight-kept exact cover = record {
    fewer = ground arith;
    exact = λ w page. omega (arith, exact w page);
    cover = λ page. omega (arith, cover page);
  }

  pub IsRight-append :
      (pushed : List LazyMapping)
      → sum (visits start end) pushed < visits start end m
      → ((w : Weight) (page : ℕ)
          → sum (weight_at w page) done + sum (left after start end w page) pushed
            ≡ left after start end w page m)
      → ((page : ℕ)
          → sum (weight_at one page) done + sum (weight_at one page) pushed ≤ weight_at one page m)
      → IsRight after start end m ms done (ms ++ pushed)
  IsRight-append pushed fewer exact cover = record {
    fewer = omega (arith, fewer, sum-append (visits start end) ms pushed);
    exact =
        λ w page. omega (arith, exact w page, sum-append (left after start end w page) ms pushed);
    cover = λ page. omega (arith, cover page, sum-append (weight_at one page) ms pushed);
  }

-- What the loop leaves: no page twice, the pages beside the range as they were, and without an error
-- the new protections in it. The error is the lack of memory.
pub record Leaves (room : ℕ → Bool) (new : Option UserProtection → Option UserProtection)
    (start end : ℕ) (ms : List LazyMapping)
    (r : Option (Result {0, 0} Unit PagingError × List LazyMapping)) : Type 0 where
  pub answer : Result {0, 0} Unit PagingError
  pub kept : List LazyMapping
  pub returns : r ≡ some (answer, kept)
  pub disjoint : IsDisjoint kept
  pub beside_same :
      (page : ℕ)
      → within start end page ≡ false
      → lazy_protection_in page kept ≡ lazy_protection_in page ms
  pub new_within :
      answer ≡ ok tt
      → (page : ℕ) → within start end page ≡ true
      → lazy_protection_in page kept ≡ new (lazy_protection_in page ms)
  pub refused : answer ≢ ok tt → (n : ℕ) × (room n ≡ false)

module _ (after : Weight → Weight) (step : Step) (start end : ℕ)
    (right : (n : ℕ) (m : LazyMapping) (ms : List LazyMapping)
      → Holds (IsRight after start end m ms) (step n m ms))
    (room : ℕ → Bool)
    (needs : (n : ℕ) (m : LazyMapping) (ms : List LazyMapping)
      → step n m ms ≡ none
      → (k : ℕ) × (room k ≡ false))
    (new : Option UserProtection → Option UserProtection)
    (agrees : (w : Weight) (o : Option UserProtection)
      → weight_of (after w) o ≡ weight_of w (new o)) where
  -- The invariant of the loop over this list.
  record Keeps (ms0 passed ms : List LazyMapping) : Type 0 where
    exact :
        (w : Weight) (page : ℕ)
        → sum (weight_at w page) passed + sum (left after start end w page) ms
          ≡ sum (left after start end w page) ms0
    cover :
        (page : ℕ)
        → sum (weight_at one page) passed + sum (weight_at one page) ms
          ≤ sum (weight_at one page) ms0

  Holds-map :
      {Q R : List LazyMapping → List LazyMapping → Type 0}
      (o : Option (List LazyMapping × List LazyMapping))
      → ((done rest : List LazyMapping) → Q done rest → R done rest)
      → Holds Q o
      → Holds R o
  Holds-map none f h = tt
  Holds-map (some (done, rest)) f h = f done rest h

  visits-le : (m : LazyMapping) → visits start end m ≤ 3
  visits-le m = ground arith

  loop-Keeps :
      (ms : List LazyMapping) → EndsWith step (Keeps ms) (cut_from step (cut_fuel ms) [] ms)
  loop-Keeps ms =
      cut_from-ends step (Keeps ms) (visits start end)
        (λ n m rest. Holds-map (step n m rest) (λ d r h. h.fewer) (right n m rest))
        (λ n m passed rest k.
          Holds-map (step n m rest)
            (λ d r h. record {
              exact = λ w page.
                  omega
                    (arith, h.exact w page, k.exact w page, sum-append (weight_at w page) passed d);
              cover = λ page.
                  omega
                    (arith, h.cover page, k.cover page, sum-append (weight_at one page) passed d);
            })
            (right n m rest))
        (cut_fuel ms) [] ms (omega (arith, sum-le_length (visits start end) 3 visits-le ms))
        (record { exact = λ w page. omega arith; cover = λ page. omega arith })

  left-in :
      (w : Weight) (page : ℕ) (ms : List LazyMapping)
      → within start end page ≡ true
      → sum (left after start end w page) ms ≡ sum (weight_at (after w) page) ms
  left-in w page [] h = refl
  left-in w page (m ∷ ms) h = rw h (omega (arith, left-in w page ms h))

  left-beside :
      (w : Weight) (page : ℕ) (ms : List LazyMapping)
      → within start end page ≡ false
      → sum (left after start end w page) ms ≡ sum (weight_at w page) ms
  left-beside w page [] h = refl
  left-beside w page (m ∷ ms) h = rw h (omega (arith, left-beside w page ms h))

  module _ (ms : List LazyMapping) (d : IsDisjoint ms) where
    same_beside :
        (passed rest : List LazyMapping)
        → Keeps ms passed rest
        → IsDisjoint (passed ++ rest)
        → (page : ℕ) → within start end page ≡ false
        → lazy_protection_in page (passed ++ rest) ≡ lazy_protection_in page ms
    same_beside passed rest k e page h = eq_of_weights _ _ (λ w. omega (
      arith,
      weight-lookup w page (passed ++ rest) (e page),
      weight-lookup w page ms (d page),
      sum-append (weight_at w page) passed rest,
      k.exact w page,
      left-beside w page rest h,
      left-beside w page ms h,
    ))

    still-IsDisjoint :
        (passed rest : List LazyMapping) → Keeps ms passed rest → IsDisjoint (passed ++ rest)
    still-IsDisjoint passed rest k page =
        omega (arith, d page, k.cover page, sum-append (weight_at one page) passed rest)

    leaves :
        (r : Option (Result {0, 0} Unit PagingError × List LazyMapping))
        → EndsWith step (Keeps ms) r
        → Leaves room new start end ms r
    leaves _ (stopped passed rest n m ms' k f) =
        let e = still-IsDisjoint passed rest k in
        record {
          answer = err _;
          kept = passed ++ rest;
          returns = refl;
          disjoint = e;
          beside_same = same_beside passed rest k e;
          new_within = λ c. absurd (cc);
          refused = λ c. needs n m ms' f;
        }
    leaves _ (finished kept k) =
        let e : IsDisjoint kept = λ page. omega (arith, d page, k.cover page) in
        record {
          answer = ok tt;
          kept = kept;
          returns = refl;
          disjoint = e;
          beside_same = λ page h. eq_of_weights _ _ (λ w. omega (
            arith,
            weight-lookup w page kept (e page),
            weight-lookup w page ms (d page),
            k.exact w page,
            left-beside w page ms h,
          ));
          new_within = λ c page h. eq_of_weights _ _ (λ w. omega (
            arith,
            weight-lookup w page kept (e page),
            weight-lookup (after w) page ms (d page),
            k.exact w page,
            left-in w page ms h,
            agrees w (lazy_protection_in page ms),
          ));
          refused = λ c. absurd (c refl);
        }

    pub loop-Leaves : Leaves room new start end ms (cut_from step (cut_fuel ms) [] ms)
    loop-Leaves = leaves _ (loop-Keeps ms)
