-- ===== src/Heap/Coalesced.antt =====
-- The free list is in address order, and no two free blocks touch: freeing joins all neighbours.
use ristux.Common.{
  ℕ, ◌+◌, ◌-◌, ◌≤◌, ◌<◌, ◌≡◌, List, [], ◌∷◌, All, arith, leb, leb→le, Option-cases, some, ◌==◌,
  Bool-cases, inl, inr, ltb,
}
use mathlib.Core.Option.{some-injective}
use mathlib.Core.Path.{subst}
use ristux.Heap.{
  FreeBlock, Taken, insert_after, insert_free, coalesce_from, coalesce_head, split, take_first_fit,
  alloc_start,
}
use ristux.Heap.Place.{alloc_start_lem}
use ristux.Heap.Alloc.{inside, count_at, HoldsHeader}

-- Blocks in address order from `lo` on, with no overlap.
abbrev pub IsOrdered : ℕ → List FreeBlock → Type 0
IsOrdered lo [] = Unit
IsOrdered lo (b ∷ bs) = (lo ≤ b.addr) × IsOrdered (b.addr + b.size) bs

-- The same with a gap before each block.
abbrev pub IsApart : ℕ → List FreeBlock → Type 0
IsApart lo [] = Unit
IsApart lo (b ∷ bs) = (lo < b.addr) × IsApart (b.addr + b.size) bs

IsApart-IsOrdered : (lo : ℕ) (bs : List FreeBlock) → IsApart lo bs → IsOrdered lo bs
IsApart-IsOrdered lo [] h = tt
IsApart-IsOrdered lo (b ∷ bs) h = (omega arith, IsApart-IsOrdered (b.addr + b.size) bs h.1)

IsOrdered-mono : (lo hi : ℕ) (bs : List FreeBlock) → lo ≤ hi → IsOrdered hi bs → IsOrdered lo bs
IsOrdered-mono lo hi [] h k = tt
IsOrdered-mono lo hi (b ∷ bs) h k = (omega arith, k.1)

-- Joining neighbours of an ordered list.
coalesce_from-IsCoalesced :
    (b : FreeBlock) (bs : List FreeBlock)
    → IsOrdered (b.addr + b.size) bs
    → (lo : ℕ) → lo < b.addr
    → IsApart lo (coalesce_from b bs)
unfolding coalesce_from
coalesce_from-IsCoalesced b [] h lo k = (k, tt)
coalesce_from-IsCoalesced b (c ∷ bs) h lo k = elim (Bool-cases (b.addr + b.size == c.addr)) [
  | inl e ↦ rw e (
      coalesce_from-IsCoalesced (record b { size = b.size + c.size }) bs
        (IsOrdered-mono _ (c.addr + c.size) bs (ground arith) h.1) lo k)
  | inr e ↦ rw e (k, coalesce_from-IsCoalesced c bs h.1 (b.addr + b.size) (ground arith))
]

IsApart-mono : (lo hi : ℕ) (bs : List FreeBlock) → lo ≤ hi → IsApart hi bs → IsApart lo bs
IsApart-mono lo hi [] h k = tt
IsApart-mono lo hi (b ∷ bs) h k = (omega arith, k.1)

-- The bytes of a block are in no block of a list.
abbrev IsDisjoint : FreeBlock → List FreeBlock → Type 0
IsDisjoint b bs = (x : ℕ) → inside b x + count_at bs x ≤ 1

rest-IsDisjoint : (b c : FreeBlock) (bs : List FreeBlock) → IsDisjoint b (c ∷ bs) → IsDisjoint b bs
rest-IsDisjoint b c bs d x = omega (arith, d x)

ends_before :
    (b c : FreeBlock) (bs : List FreeBlock)
    → HoldsHeader b
    → IsDisjoint b (c ∷ bs)
    → c.addr ≤ b.addr
    → c.addr + c.size ≤ b.addr
ends_before b c bs h d k = ground (arith, d b.addr)

ends_after :
    (b c : FreeBlock) (bs : List FreeBlock)
    → HoldsHeader c
    → IsDisjoint b (c ∷ bs)
    → b.addr ≤ c.addr
    → b.addr + b.size ≤ c.addr
ends_after b c bs h d k = ground (arith, d c.addr)

insert_after-IsOrdered :
    (lo : ℕ) (b : FreeBlock) (bs : List FreeBlock)
    → lo ≤ b.addr
    → HoldsHeader b
    → All HoldsHeader bs
    → IsDisjoint b bs
    → IsOrdered lo bs
    → IsOrdered lo (insert_after b bs)
unfolding insert_after
insert_after-IsOrdered lo b [] k h hs d o = (k, tt)
insert_after-IsOrdered lo b (c ∷ bs) k h hs d o = elim (Bool-cases (ltb c.addr b.addr)) [
  | inl e ↦ rw e (
    o.0,
    insert_after-IsOrdered (c.addr + c.size) b bs (ends_before b c bs h d (ground arith)) h hs.1
        (rest-IsDisjoint b c bs d) o.1,
  )
  | inr e ↦ rw e (k, (ends_after b c bs hs.0 d (ground arith), o.1))
]

insert_free-IsOrdered :
    (lo : ℕ) (b : FreeBlock) (bs : List FreeBlock)
    → lo ≤ b.addr
    → HoldsHeader b
    → All HoldsHeader bs
    → IsDisjoint b bs
    → IsOrdered lo bs
    → IsOrdered lo (insert_free b bs)
unfolding insert_free
insert_free-IsOrdered lo b [] k h hs d o = (k, tt)
insert_free-IsOrdered lo b (c ∷ bs) k h hs d o = elim (Bool-cases (ltb b.addr c.addr)) [
  | inl e ↦ rw e (k, (ends_after b c bs hs.0 d (ground arith), o.1))
  | inr e ↦ rw e (
    o.0,
    insert_after-IsOrdered (c.addr + c.size) b bs (ends_before b c bs h d (ground arith)) h hs.1
        (rest-IsDisjoint b c bs d) o.1,
  )
]

coalesce_head-IsApart :
    (lo : ℕ) (bs : List FreeBlock) → IsOrdered (lo + 1) bs → IsApart lo (coalesce_head bs)
unfolding coalesce_head
coalesce_head-IsApart lo [] o = tt
coalesce_head-IsApart lo (b ∷ bs) o = coalesce_from-IsCoalesced b bs o.1 lo (omega arith)

-- Giving back a block that no free block overlaps, behind `lo`.
pub give_back-IsApart :
    (lo : ℕ) (b : FreeBlock) (bs : List FreeBlock)
    → lo < b.addr
    → HoldsHeader b
    → All HoldsHeader bs
    → ((x : ℕ) → inside b x + count_at bs x ≤ 1)
    → IsApart lo bs
    → IsApart lo (coalesce_head (insert_free b bs))
give_back-IsApart lo b bs k h hs d o =
    coalesce_head-IsApart lo (insert_free b bs)
      (insert_free-IsOrdered (lo + 1) b bs (omega arith) h hs d (above bs o))
  where
    above : (cs : List FreeBlock) → IsApart lo cs → IsOrdered (lo + 1) cs
    above [] a = tt
    above (c ∷ cs) a = (omega arith, IsApart-IsOrdered (c.addr + c.size) cs a.1)

split-IsApart :
    (alloc_size align lo : ℕ) (b : FreeBlock) (next : List FreeBlock)
    → 0 < align
    → 0 < alloc_size
    → alloc_start b.addr align - b.addr + alloc_size ≤ b.size
    → IsApart lo (b ∷ next)
    → IsApart lo (split b (alloc_start b.addr align) alloc_size next).rest
unfolding split
split-IsApart alloc_size align lo b next pos some_size fits o =
    let at = alloc_start b.addr align in
    let prefix = at - b.addr in
    let place = alloc_start_lem b.addr align pos in
    ground (
      arith,
      place,
      IsApart-mono lo (b.addr + b.size) next (omega arith) o.1,
      IsApart-mono (b.addr + prefix) (b.addr + b.size) next (omega arith) o.1,
      IsApart-mono (at + alloc_size + (b.size - (prefix + alloc_size))) (b.addr + b.size) next
          (omega (arith, place)) o.1,
    )

taken_later-IsApart :
    (lo : ℕ) (b : FreeBlock) (next : List FreeBlock) (t : Taken)
    → IsApart lo (b ∷ next)
    → IsApart (b.addr + b.size) t.rest
    → IsApart lo (b ∷ t.rest)
taken_later-IsApart lo b next t o k = (o.0, k)

pub take_first_fit-IsApart :
    (alloc_size align lo : ℕ) (free : List FreeBlock) (t : Taken)
    → 0 < align
    → 0 < alloc_size
    → take_first_fit alloc_size align free ≡ some t
    → IsApart lo free
    → IsApart lo t.rest
unfolding take_first_fit
take_first_fit-IsApart n align lo [] t pos some_size s o = cc
take_first_fit-IsApart n align lo (b ∷ next) t pos some_size s o =
    elim (Bool-cases (leb (alloc_start b.addr align - b.addr + n) b.size)) [
      | inl e ↦
          subst (λ (u : Taken). IsApart lo u.rest) (some-injective _ _ (rw e at s))
            (split-IsApart n align lo b next pos some_size (leb→le _ _ e) o)
      | inr e ↦ elim (Option-cases (take_first_fit n align next)) [
        | inl m ↦ absurd (ground arith)
        | inr (u, m) ↦
            subst (λ (u : Taken). IsApart lo u.rest) {y = t}
              (some-injective (record u { rest = b ∷ u.rest }) _ (ground arith))
              (o.0, take_first_fit-IsApart n align (b.addr + b.size) next u pos some_size m o.1)
      ]
    ]
