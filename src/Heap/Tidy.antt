-- ===== src/Heap/Tidy.antt =====
-- The free list stays in address order and fully joined, whatever clients do.
use ristux.Common.{ℕ, ◌+◌, ◌≤◌, ◌<◌, ◌≡◌, List, ◌∷◌, ◌++◌, ap, arith, Option-cases, inl, inr}
use ristux.Heap.{FreeBlock, Layout, header_size, take_first_fit, init}
use ristux.Heap.Alloc.{inside, count_at, HoldsHeader, rounded}
use ristux.Heap.Coalesced.{IsApart, give_back-IsApart, take_first_fit-IsApart}
use ristux.Heap.Partition.{
  World, IsHeaded, IsPartition, allocates, frees, Reach, here, next, allocate, release, fresh,
  allocates-some, allocates-none, header-le, without, count-without, frees_lem,
  allocates-IsPartition, frees-IsPartition, init-IsPartition,
}

-- The free list of a world: in address order, and with a gap between any two blocks.
pub record IsTidy (w : World) : Type 0 where
  pub apart : IsApart 0 w.heap.free
  pub not_null : 0 < w.heap.start

allocates-IsTidy :
    (layout : Layout) (w : World)
    → 0 < layout.align
    → IsPartition w
    → IsTidy w
    → IsTidy (allocates layout w)
allocates-IsTidy layout w pos v o =
    elim (Option-cases (take_first_fit (rounded layout) layout.align w.heap.free)) [
      | inl n ↦ rw (allocates-none layout w n) o
      | inr (t, s) ↦ rw (allocates-some layout w t v.ready s) (record {
        apart =
            take_first_fit-IsApart (rounded layout) layout.align 0 w.heap.free t pos
              (omega (arith, header-le layout)) s o.apart;
        not_null = o.not_null;
      })
    ]

freed-IsDisjoint :
    (b : FreeBlock) (before after : List FreeBlock) (w : World)
    → w.live ≡ before ++ (b ∷ after)
    → IsPartition w
    → (x : ℕ) → inside b x + count_at w.heap.free x ≤ 1
freed-IsDisjoint b before after w q v x =
    ground (arith, v.bytes x, count-without before b after x, ap (λ l. count_at l x) q)

freed_above :
    (b : FreeBlock) (before after : List FreeBlock) (w : World)
    → w.live ≡ before ++ (b ∷ after)
    → HoldsHeader b
    → IsPartition w
    → w.heap.start ≤ b.addr
freed_above b before after w q h v =
    ground
      (arith, v.bytes b.addr, count-without before b after b.addr, ap (λ l. count_at l b.addr) q)

frees-IsTidy :
    (b : FreeBlock) (before after : List FreeBlock) (w : World)
    → w.live ≡ before ++ (b ∷ after)
    → IsPartition w
    → IsTidy w
    → IsTidy (frees b before after w)
frees-IsTidy b before after w q v o =
    let (hb, hr) = without (IsHeaded w.heap.size_at) before b after (rw q at v.live_headers) in
    rw (frees_lem b before after w v.ready hb.0) (record {
      apart =
          give_back-IsApart 0 b w.heap.free
            (omega (arith, freed_above b before after w q hb.1 v, o.not_null)) hb.1 v.free_headers
            (freed-IsDisjoint b before after w q v) o.apart;
      not_null = o.not_null;
    })

Reach-both : {u t : World} → IsPartition u → IsTidy u → Reach u t → IsPartition t × IsTidy t
Reach-both v o here = (v, o)
Reach-both v o (next r (allocate w layout pos)) =
    let (v', o') = Reach-both v o r in
    (allocates-IsPartition layout w pos v', allocates-IsTidy layout w pos v' o')
Reach-both v o (next r (release w b before after q)) =
    let (v', o') = Reach-both v o r in
    (frees-IsPartition b before after w q v', frees-IsTidy b before after w q v' o')

fresh-IsTidy : (start size : ℕ) → 0 < start → IsTidy (fresh start size)
unfolding init
fresh-IsTidy start size h = ground arith

-- However clients allocate and free the blocks they hold, in a heap that does not start at the null
-- address, the free list stays in address order with a gap between any two blocks: neighbouring
-- free blocks are always joined into one.
pub Reach-IsTidy :
    (start size : ℕ) {w : World}
    → 0 < start
    → header_size ≤ size
    → Reach (fresh start size) w
    → IsTidy w
Reach-IsTidy start size h k r =
    (Reach-both (init-IsPartition start size k) (fresh-IsTidy start size h) r).1
