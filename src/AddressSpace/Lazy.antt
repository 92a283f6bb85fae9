-- ===== src/AddressSpace/Lazy.antt =====
-- The loops of kernel/src/memory/address_space.rs that remove and protect a range of the lazy mappings.
use ristux.Common.{
  ℕ, zero, suc, ◌+◌, ◌*◌, min, Bool, ◌&&◌, ◌||◌, ◌==◌, leb, if◌then◌else◌, Option, none, some, List,
  [], ◌∷◌, ◌++◌, length, put_last,
}
use ristux.Common.Results.{Result, ok, err}
use ristux.Frames.{max}
use ristux.AddressSpace.{LazyMapping, UserProtection, PagingError, out_of_frames}

-- The entry lies beside the range.
abbrev pub beside : ℕ → ℕ → LazyMapping → Bool
beside start end m = leb m.end start || leb end m.start

-- What becomes of the entry at the index, for a vector of this length: the entries that the index
-- then has passed, and those that it has yet to visit. None is the lack of memory.
abbrev pub Step : Type 0
Step = ℕ → LazyMapping → List LazyMapping → Option (List LazyMapping × List LazyMapping)

abbrev pub remove_step : (ℕ → Bool) → ℕ → ℕ → Step
remove_step room start end len m ms =
    if beside start end m
    then some (m ∷ [], ms)
    else if leb start m.start && leb m.end end
    then some ([], put_last ms)
    else if leb start m.start
    then some (record m { start = min end m.end } ∷ [], ms)
    else if leb m.end end
    then some (record m { end = max start m.start } ∷ [], ms)
    else if room (len + 1)
    then some (
      record m { end = start } ∷ [],
      ms ++ (record { start = end; end = m.end; protection = m.protection } ∷ []),
    )
    else none

abbrev pub protect_step : (ℕ → Bool) → UserProtection → ℕ → ℕ → Step
protect_step room protection start end len m ms =
    let overlap_start = max start m.start in
    let overlap_end = min end m.end in
    let inside : LazyMapping = record {
      start = overlap_start;
      end = overlap_end;
      protection = protection;
    } in
    let behind : LazyMapping = record {
      start = overlap_end;
      end = m.end;
      protection = m.protection;
    } in
    if beside start end m
    then some (m ∷ [], ms)
    else if overlap_start == m.start && overlap_end == m.end
    then some (record m { protection = protection } ∷ [], ms)
    else if overlap_start == m.start
    then if room (len + 1) then some (inside ∷ [], ms ++ (behind ∷ [])) else none
    else if overlap_end == m.end
    then if room (len + 1)
      then some (record m { end = overlap_start } ∷ [], ms ++ (inside ∷ []))
      else none
    else if room (len + 2)
    then some (record m { end = overlap_start } ∷ [], ms ++ (inside ∷ (behind ∷ [])))
    else none

-- `while index < len`, on fuel: the entries before the index, and those from it.
unfoldable pub cut_from :
    Step
    → ℕ
    → List LazyMapping
    → List LazyMapping
    → Option (Result {0, 0} Unit PagingError × List LazyMapping)
cut_from step zero passed ms = none
cut_from step (suc fuel) passed [] = some (ok tt, passed)
cut_from step (suc fuel) passed (m ∷ ms) = elim (step (length passed + suc (length ms)) m ms) [
  | none ↦ some (err out_of_frames, passed ++ (m ∷ ms))
  | some (done, rest) ↦ cut_from step fuel (passed ++ done) rest
]

abbrev pub cut_fuel : List LazyMapping → ℕ
cut_fuel ms = 3 * length ms + 1

unfoldable pub remove_lazy_range :
    (ℕ → Bool)
    → ℕ
    → ℕ
    → List LazyMapping
    → Option (Result {0, 0} Unit PagingError × List LazyMapping)
remove_lazy_range room start end ms = cut_from (remove_step room start end) (cut_fuel ms) [] ms

unfoldable pub protect_lazy_range :
    (ℕ → Bool)
    → UserProtection
    → ℕ
    → ℕ
    → List LazyMapping
    → Option (Result {0, 0} Unit PagingError × List LazyMapping)
protect_lazy_range room protection start end ms =
    cut_from (protect_step room protection start end) (cut_fuel ms) [] ms
