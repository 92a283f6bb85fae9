-- ===== src/Refcount/Tests.antt =====
-- A table of one chunk: the others are not there yet.
use ristux.Common.{ℕ, zero, suc, ap, ◌≡◌, refl, true, Option, none, some, List, length, All, arith}
use ristux.Common.Results.{err}
use ristux.Refcount.{
  new_table, repeat, get, try_increment, decrement, get_chunk, ensure_chunk, untracked_frame,
  root_entries,
}
use ristux.Refcount.Counts.{TableIsValid, ChunkIsValid}
use ristux.Refcount.Operations.{decrement-try_increment}

repeat-length : (n : ℕ) → length (repeat {A = Option (List ℕ)} n none) ≡ n
unfolding repeat
repeat-length zero = refl
repeat-length (suc n) = ap suc (repeat-length n)

repeat-ChunkIsValid : (n : ℕ) → All ChunkIsValid (repeat n none)
unfolding repeat
repeat-ChunkIsValid zero = tt
repeat-ChunkIsValid (suc n) = (tt, repeat-ChunkIsValid n)

new_table-TableIsValid : TableIsValid new_table
unfolding new_table
new_table-TableIsValid = record {
  entries = repeat-length root_entries;
  chunks = repeat-ChunkIsValid root_entries;
}

new_count : get 8192 (some new_table) ≡ 1
unfolding get get_chunk new_table repeat
new_count = refl

beyond : (try_increment true 17179869184 (some new_table)).0 ≡ err untracked_frame
unfolding try_increment ensure_chunk
beyond = refl

-- The implicit reference of a frame without a chunk is reported as dropped, but stays.
dropped_implicit :
    ((decrement 8192 (some new_table)).0 ≡ 0) × (get 8192 (decrement 8192 (some new_table)).1 ≡ 1)
unfolding decrement get get_chunk new_table repeat
dropped_implicit = (refl, refl)

decrement-try_increment_example :
    ((decrement 8192 (try_increment true 8192 (some new_table)).1).0 ≡ get 8192 (some new_table))
    × (get 4096 (decrement 8192 (try_increment true 8192 (some new_table)).1).1
        ≡ get 4096 (some new_table))
decrement-try_increment_example =
    decrement-try_increment new_table 8192 4096 new_table-TableIsValid (omega arith)
      (omega (arith, new_count))
