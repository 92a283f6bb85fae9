-- ===== src/Heap/Dealloc.antt =====
-- Giving a block back: insertion in address order, and joining neighbours.
use ristux.Common.{ℕ, ◌+◌, ◌≡◌, refl, List, [], ◌∷◌, All, ◌==◌, arith, Bool-cases, inl, inr, ◌∙◌}
use ristux.Heap.{FreeBlock, insert_after, insert_free, coalesce_from, coalesce_head}
use ristux.Heap.Alloc.{inside, count_at, HoldsHeader}

insert_after-count :
    (b : FreeBlock) (bs : List FreeBlock) (x : ℕ)
    → count_at (insert_after b bs) x ≡ inside b x + count_at bs x
unfolding insert_after
insert_after-count b [] x = refl
insert_after-count b (c ∷ bs) x = ground (arith, insert_after-count b bs x)

pub insert_free-count :
    (b : FreeBlock) (bs : List FreeBlock) (x : ℕ)
    → count_at (insert_free b bs) x ≡ inside b x + count_at bs x
unfolding insert_free
insert_free-count b [] x = refl
insert_free-count b (c ∷ bs) x = ground (arith, insert_after-count b bs x)

inside-joined :
    (b c : FreeBlock) (x : ℕ)
    → b.addr + b.size ≡ c.addr
    → inside (record b { size = b.size + c.size }) x ≡ inside b x + inside c x
inside-joined b c x e = ground arith

coalesce_from-count :
    (b : FreeBlock) (bs : List FreeBlock) (x : ℕ)
    → count_at (coalesce_from b bs) x ≡ inside b x + count_at bs x
unfolding coalesce_from
coalesce_from-count b [] x = refl
coalesce_from-count b (c ∷ bs) x = elim (Bool-cases (b.addr + b.size == c.addr)) [
  | inl e ↦ rw e (
      ground (
        arith,
        coalesce_from-count (record b { size = b.size + c.size }) bs x,
        inside-joined b c x (ground arith),
      ))
  | inr e ↦ rw e (omega (arith, coalesce_from-count c bs x))
]

coalesce_head-count : (bs : List FreeBlock) (x : ℕ) → count_at (coalesce_head bs) x ≡ count_at bs x
unfolding coalesce_head
coalesce_head-count [] x = refl
coalesce_head-count (b ∷ bs) x = coalesce_from-count b bs x

-- The bytes of a list of blocks after a block is given back.
pub give_back-count :
    (b : FreeBlock) (bs : List FreeBlock) (x : ℕ)
    → count_at (coalesce_head (insert_free b bs)) x ≡ inside b x + count_at bs x
give_back-count b bs x = coalesce_head-count (insert_free b bs) x ∙ insert_free-count b bs x

insert_after-HoldsHeader :
    (b : FreeBlock) (bs : List FreeBlock)
    → HoldsHeader b
    → All HoldsHeader bs
    → All HoldsHeader (insert_after b bs)
unfolding insert_after
insert_after-HoldsHeader b [] h k = (h, tt)
insert_after-HoldsHeader b (c ∷ bs) h k = ground (arith, insert_after-HoldsHeader b bs h k.1)

insert_free-HoldsHeader :
    (b : FreeBlock) (bs : List FreeBlock)
    → HoldsHeader b
    → All HoldsHeader bs
    → All HoldsHeader (insert_free b bs)
unfolding insert_free
insert_free-HoldsHeader b [] h k = (h, tt)
insert_free-HoldsHeader b (c ∷ bs) h k = ground (arith, insert_after-HoldsHeader b bs h k.1)

coalesce_from-HoldsHeader :
    (b : FreeBlock) (bs : List FreeBlock)
    → HoldsHeader b
    → All HoldsHeader bs
    → All HoldsHeader (coalesce_from b bs)
unfolding coalesce_from
coalesce_from-HoldsHeader b [] h k = (h, tt)
coalesce_from-HoldsHeader b (c ∷ bs) h k = ground (
  arith,
  coalesce_from-HoldsHeader (record b { size = b.size + c.size }) bs (omega arith) k.1,
  coalesce_from-HoldsHeader c bs k.0 k.1,
)

coalesce_head-HoldsHeader :
    (bs : List FreeBlock) → All HoldsHeader bs → All HoldsHeader (coalesce_head bs)
unfolding coalesce_head
coalesce_head-HoldsHeader [] k = k
coalesce_head-HoldsHeader (b ∷ bs) k = coalesce_from-HoldsHeader b bs k.0 k.1

pub give_back-HoldsHeader :
    (b : FreeBlock) (bs : List FreeBlock)
    → HoldsHeader b
    → All HoldsHeader bs
    → All HoldsHeader (coalesce_head (insert_free b bs))
give_back-HoldsHeader b bs h k =
    coalesce_head-HoldsHeader (insert_free b bs) (insert_free-HoldsHeader b bs h k)
