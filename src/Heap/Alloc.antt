-- ===== src/Heap/Alloc.antt =====
-- What a successful first fit takes out of the free list, and when there is none.
use ristux.Common.{
  ℕ, ◌+◌, ◌-◌, ◌*◌, ◌/◌, ◌%◌, ◌≤◌, ◌<◌, ◌≡◌, ◌⊎◌, inl, inr, refl, true, ◌&&◌, ltb, leb, none, some,
  List, [], ◌∷◌, All, leb→le, if◌then◌else◌, arith, Bool-cases,
}
use ristux.Heap.{
  alloc, alloc_from_free_list, update, Layout, LinkedListAllocator, align_up, FreeBlock, Taken,
  header_size, alloc_start, split, take_first_fit, free_bytes,
}
use ristux.Heap.Place.{alloc_start_lem, alloc_start-least}

-- How many blocks of a list hold the byte at an address.
abbrev pub inside : FreeBlock → ℕ → ℕ
inside b x = if leb b.addr x && ltb x (b.addr + b.size) then 1 else 0

abbrev pub count_at : List FreeBlock → ℕ → ℕ
count_at [] x = 0
count_at (b ∷ bs) x = inside b x + count_at bs x

-- What was free is what is taken and what stays free, byte by byte and in total; the taken block is
-- large enough and its payload is aligned; every node still has room for its header.
pub record IsTaken (alloc_size align : ℕ) (free : List FreeBlock) (t : Taken) : Type 0 where
  pub bytes : (x : ℕ) → count_at free x ≡ inside t.block x + count_at t.rest x
  pub total : free_bytes free ≡ t.block.size + free_bytes t.rest
  pub room : alloc_size ≤ t.block.size
  pub aligned : (t.block.addr + header_size) % align ≡ 0

abbrev pub HoldsHeader : FreeBlock → Type 0
HoldsHeader b = header_size ≤ b.size

-- Wherever in the block the header goes so that the payload behind it is aligned and the gap before it
-- is empty or holds a header, the allocation ends beyond the block.
abbrev pub IsUnfit : ℕ → ℕ → FreeBlock → Type 0
IsUnfit alloc_size align b =
    (at : ℕ)
    → (at + header_size) % align ≡ 0
    → (at ≡ b.addr) ⊎ (b.addr + header_size ≤ at)
    → b.addr + b.size < at + alloc_size

-- The outcome of a search of the free list.
abbrev pub Search : ℕ → ℕ → List FreeBlock → Type 0
Search alloc_size align free =
    ((take_first_fit alloc_size align free ≡ none) × All (IsUnfit alloc_size align) free)
    ⊎ ((t : Taken) × (take_first_fit alloc_size align free ≡ some t)
        × IsTaken alloc_size align free t
        × All HoldsHeader t.rest)

module _ (alloc_size align : ℕ) (pos : 0 < align) where
  split-IsTaken :
      (b : FreeBlock) (next : List FreeBlock)
      → alloc_start b.addr align - b.addr + alloc_size ≤ b.size
      → IsTaken alloc_size align (b ∷ next) (split b (alloc_start b.addr align) alloc_size next)
  unfolding split free_bytes
  split-IsTaken b next fits = record {
    bytes = λ x. ground (arith, alloc_start_lem b.addr align pos);
    total = ground (arith, alloc_start_lem b.addr align pos);
    room = ground (arith, alloc_start_lem b.addr align pos);
    aligned = ground (arith, alloc_start_lem b.addr align pos);
  }

  later-IsTaken :
      (b : FreeBlock) (next : List FreeBlock) (t : Taken)
      → IsTaken alloc_size align next t
      → IsTaken alloc_size align (b ∷ next) (record t { rest = b ∷ t.rest })
  unfolding free_bytes
  later-IsTaken b next t k = record {
    bytes = λ x. omega (arith, k.bytes x);
    total = omega (arith, k.total);
    room = k.room;
    aligned = k.aligned;
  }

  split-HoldsHeader :
      (b : FreeBlock) (next : List FreeBlock)
      → All HoldsHeader next
      → All HoldsHeader (split b (alloc_start b.addr align) alloc_size next).rest
  unfolding split
  split-HoldsHeader b next h = ground arith

  too_small :
      (b : FreeBlock)
      → b.size < alloc_start b.addr align - b.addr + alloc_size
      → IsUnfit alloc_size align b
  too_small b small at a place = omega (
    arith,
    small,
    alloc_start_lem b.addr align pos,
    alloc_start-least b.addr align at pos (a, place),
  )

  -- The search fails just if no block fits, and what it finds is what `IsTaken` says.
  pub take_first_fit_lem :
      (free : List FreeBlock) → All HoldsHeader free → Search alloc_size align free
  unfolding take_first_fit
  take_first_fit_lem [] h = inl (refl, tt)
  take_first_fit_lem (b ∷ next) h =
      elim (Bool-cases (leb (alloc_start b.addr align - b.addr + alloc_size) b.size)) [
        | inl e ↦ inr (
          split b (alloc_start b.addr align) alloc_size next,
          rw e,
          split-IsTaken b next (leb→le _ _ e),
          split-HoldsHeader b next h.1,
        )
        | inr e ↦ elim (take_first_fit_lem next h.1) [
          | inl (n, unfit) ↦ inl (rw (e, n), (too_small b (ground arith), unfit))
          | inr (t, s, k, hs) ↦
              inr (record t { rest = b ∷ t.rest }, rw (e, s), later-IsTaken b next t k, (h.0, hs))
        ]
      ]

-- The header and the payload in whole groups of eight bytes.
abbrev pub rounded : Layout → ℕ
rounded layout = (header_size + layout.size + 7) / 8 * 8

-- `alloc` on an initialized heap whose free blocks hold their headers: either no free block has a place
-- for the header and the payload, rounded up to eight bytes, with the payload aligned and nothing or
-- a whole header before them, and it returns null and changes nothing; or it returns the payload of a block taken out of the free memory, which is aligned and at
-- least `layout.size` long, and the header before it holds the block's size.
pub alloc_lem :
    (layout : Layout) (h : LinkedListAllocator)
    → 0 < layout.align
    → h.initialized ≡ true
    → All HoldsHeader h.free
    → ((alloc layout h ≡ (none, h)) × All (IsUnfit (rounded layout) layout.align) h.free)
      ⊎ ((t : Taken) × (alloc layout h ≡ (
        some (t.block.addr + header_size),
        record h { free = t.rest; size_at = update h.size_at t.block.addr t.block.size },
      ))
          × IsTaken (rounded layout) layout.align h.free t
          × (header_size + layout.size ≤ t.block.size))
unfolding alloc alloc_from_free_list align_up
alloc_lem layout h pos ready hs =
    elim (take_first_fit_lem (rounded layout) layout.align pos h.free hs) [
      | inl (n, unfit) ↦ inl (ground arith, unfit)
      | inr (t, s, k, _) ↦ inr (t, ground arith, k, omega (arith, k.room))
    ]
