-- ===== src/Refcount/Operations.antt =====
-- What taking and dropping a reference do to the counts of all frames.
use ristux.Common.{
  ℕ, suc, ◌-◌, ◌/◌, ◌%◌, ◌<◌, ◌≡◌, ◌∙◌, refl, sym, ap, Bool, true, false, ◌==◌, ==_iff,
  Option-cases, inl, inr, if◌then◌else◌, Option, none, some, List, length, set, All-set,
  All-get_elem?, length-set, arith,
}
use mathlib.Core.Path.{subst}
use ristux.Common.Results.{ok}
use ristux.Refcount.{
  RefcountTable, chunk_size, root_entries, frame_index, get, try_increment, decrement, get_chunk,
  store_chunk, ensure_chunk, count_in, with_count, repeat,
}
use ristux.Refcount.Counts.{
  ChunkIsValid, TableIsValid, ChunkOf, present, fresh, from_chunk, entry, ChunkOf-length,
  ChunkOf-count, with_count_lem, get_chunk-store_self,
}

entry-some : (o : Option (Option (List ℕ))) (c : List ℕ) → entry o ≡ some c → o ≡ some (some c)
entry-some none c h = cc
entry-some (some none) c h = cc
entry-some (some (some d)) c h = ap some h

chunk-length :
    (t : RefcountTable) (frame : ℕ) (c : List ℕ)
    → TableIsValid t
    → get_chunk t frame ≡ some c
    → length c ≡ chunk_size
unfolding get_chunk
chunk-length t frame c v h =
    All-get_elem? ChunkIsValid t.root (frame / chunk_size) v.chunks (entry-some _ c h)

-- With room on the heap every frame in range has a chunk to work on.
ensure_chunk-ok :
    (t : RefcountTable) (frame : ℕ)
    → TableIsValid t
    → frame / chunk_size < root_entries
    → (c : List ℕ) × ChunkOf t frame c × (ensure_chunk true t frame ≡ ok c)
unfolding ensure_chunk
ensure_chunk-ok t frame v h = elim (Option-cases (get_chunk t frame)) [
  | inl e ↦ (repeat chunk_size 1, fresh e refl, ground (arith, e, h))
  | inr (c, e) ↦ (c, present e (chunk-length t frame c v e), ground (arith, e, h))
]

with_count-TableIsValid :
    (t : RefcountTable) (frame val : ℕ) (c : List ℕ)
    → TableIsValid t
    → length c ≡ chunk_size
    → TableIsValid (with_count t c frame val)
unfolding store_chunk
with_count-TableIsValid t frame val c v l = record {
  entries = length-set t.root _ _ ∙ v.entries;
  chunks = All-set ChunkIsValid t.root _ _ v.chunks (length-set c (frame % chunk_size) val ∙ l);
}

-- What `try_increment` does below the greatest count.
try_increment-table :
    (t : RefcountTable) (phys : ℕ) (c : List ℕ)
    → ensure_chunk true t (frame_index phys) ≡ ok c
    → (count_in c (frame_index phys) == 65535) ≡ false
    → try_increment true phys (some t)
      ≡ (ok tt, some (with_count t c (frame_index phys) (suc (count_in c (frame_index phys)))))
unfolding try_increment
try_increment-table t phys c e n = rw (try_increment, e, n) refl

-- For a frame in range whose count is below 65535, with room on the heap, taking a reference succeeds and
-- adds one to this frame's count and to no other's.
pub try_increment_lem :
    (t : RefcountTable) (phys other : ℕ)
    → TableIsValid t
    → frame_index phys / chunk_size < root_entries
    → get phys (some t) < 65535
    → ((try_increment true phys (some t)).0 ≡ ok tt)
      × (get other (try_increment true phys (some t)).1 ≡ (
          if frame_index phys == frame_index other
          then suc (get phys (some t))
          else get other (some t)))
unfolding get
try_increment_lem t phys other v h b =
    let (c, k, e) = ensure_chunk-ok t (frame_index phys) v h in
    let n = ChunkOf-count (frame_index phys) k refl in
    let done = try_increment-table t phys c e (ground (arith, b, n)) in
    (
      ap (λ r. r.0) done,
      ap (λ r. get other r.1) done
          ∙ with_count_lem t (frame_index phys) (suc (count_in c (frame_index phys)))
              (frame_index other) c v h k
          ∙ ap (λ m. if frame_index phys == frame_index other then suc m else get other (some t))
              (sym n),
    )

decrement-table :
    (t : RefcountTable) (phys : ℕ) (c : List ℕ)
    → get_chunk t (frame_index phys) ≡ some c
    → decrement phys (some t) ≡ (
      count_in c (frame_index phys) - 1,
      some (with_count t c (frame_index phys) (count_in c (frame_index phys) - 1)),
    )
unfolding decrement
decrement-table t phys c e = rw (decrement, e) refl

-- Dropping a reference of a frame that has a chunk.
decrement-counts :
    (t : RefcountTable) (phys other : ℕ) (c : List ℕ)
    → TableIsValid t
    → frame_index phys / chunk_size < root_entries
    → get_chunk t (frame_index phys) ≡ some c
    → ((decrement phys (some t)).0 ≡ get phys (some t) - 1)
      × (get other (decrement phys (some t)).1 ≡ (
          if frame_index phys == frame_index other
          then get phys (some t) - 1
          else get other (some t)))
unfolding get
decrement-counts t phys other c v h e =
    let k = present e (chunk-length t (frame_index phys) c v e) in
    let n = ChunkOf-count (frame_index phys) k refl in
    let done = decrement-table t phys c e in
    (
      ap (λ r. r.0) done ∙ ap (λ m. m - 1) (sym n),
      ap (λ r. get other r.1) done
          ∙ with_count_lem t (frame_index phys) (count_in c (frame_index phys) - 1)
              (frame_index other) c v h k
          ∙ ap (λ m. if frame_index phys == frame_index other then m - 1 else get other (some t))
              (sym n),
    )

get-same :
    (t : RefcountTable) (phys other : ℕ)
    → frame_index phys ≡ frame_index other
    → get phys (some t) ≡ get other (some t)
unfolding get
get-same t phys other e = ap (λ f. from_chunk (get_chunk t f) f) e

-- The arithmetic of one step up and one step down, for the frame itself and for another.
up_down :
    (same : Bool) (own other up up_own : ℕ)
    → up_own ≡ suc own
    → up ≡ (if same then suc own else other)
    → (same ≡ true → own ≡ other)
    → (if same then up_own - 1 else up) ≡ other
up_down true own other up up_own u v w = omega (arith, u, w refl)
up_down false own other up up_own u v w = v

Drops : (s : Option RefcountTable) (phys other : ℕ) → Type 0
Drops s phys other =
    ((decrement phys s).0 ≡ get phys s - 1)
    × (get other (decrement phys s).1
        ≡ (if frame_index phys == frame_index other then get phys s - 1 else get other s))

try_increment-Drops :
    (t : RefcountTable) (phys other : ℕ)
    → TableIsValid t
    → frame_index phys / chunk_size < root_entries
    → get phys (some t) < 65535
    → Drops (try_increment true phys (some t)).1 phys other
unfolding Drops get
try_increment-Drops t phys other v h b =
    let (c, k, e) = ensure_chunk-ok t (frame_index phys) v h in
    let n = ChunkOf-count (frame_index phys) k refl in
    let more = suc (count_in c (frame_index phys)) in
    let d = set c (frame_index phys % chunk_size) more in
    subst (λ s. Drops s phys other)
      (sym (ap (λ r. r.1) (try_increment-table t phys c e (ground (arith, b, n)))))
      (decrement-counts (with_count t c (frame_index phys) more) phys other d
        (with_count-TableIsValid t (frame_index phys) more c v (ChunkOf-length k)) h
        (get_chunk-store_self t (frame_index phys) (frame_index phys) d v h refl))

own_count :
    (t : RefcountTable) (phys : ℕ)
    → TableIsValid t
    → frame_index phys / chunk_size < root_entries
    → get phys (some t) < 65535
    → get phys (try_increment true phys (some t)).1 ≡ suc (get phys (some t))
own_count t phys v h b = ground (arith, (try_increment_lem t phys phys v h b).1)

-- For a valid table, a frame in range whose count is below 65535, and room on the heap for a chunk,
-- `decrement` after `try_increment` restores every count and returns the count before.
pub decrement-try_increment :
    (t : RefcountTable) (phys other : ℕ)
    → TableIsValid t
    → frame_index phys / chunk_size < root_entries
    → get phys (some t) < 65535
    → ((decrement phys (try_increment true phys (some t)).1).0 ≡ get phys (some t))
      × (get other (decrement phys (try_increment true phys (some t)).1).1 ≡ get other (some t))
unfolding Drops
decrement-try_increment t phys other v h b =
    let (result, counts) = try_increment-Drops t phys other v h b in
    let own = own_count t phys v h b in
    (
      omega (arith, result, own),
      counts
          ∙ up_down (frame_index phys == frame_index other) (get phys (some t)) (get other (some t))
              (get other (try_increment true phys (some t)).1)
              (get phys (try_increment true phys (some t)).1) own
              (try_increment_lem t phys other v h b).1
              (λ e. get-same t phys other ((==_iff _ _).0 e)),
    )
