-- ===== src/Heap/Partition.antt =====
-- The heap and its clients: every byte of the heap space is in one block, free or handed out.
use ristux.Common.{
  ℕ, ◌+◌, ◌-◌, ◌≡◌, ◌≤◌, ◌<◌, inl, inr, refl, ap, true, Option, none, some, List, [], ◌∷◌, ◌++◌,
  All, arith,
}
use ristux.Heap.{
  FreeBlock, LinkedListAllocator, Layout, Taken, header_size, align_up, take_first_fit, update,
  alloc_from_free_list, alloc, insert_free, coalesce_head, dealloc_to_free_list, dealloc, init,
}
use ristux.Heap.Alloc.{inside, count_at, HoldsHeader, IsTaken, rounded, take_first_fit_lem}
use ristux.Heap.Dealloc.{give_back-count, give_back-HoldsHeader}

-- The allocator and the blocks that its clients hold.
pub record World : Type 0 where
  pub heap : LinkedListAllocator
  pub live : List FreeBlock

-- The header of a block that is handed out tells its size, and the block has room for it.
abbrev pub IsHeaded : (ℕ → ℕ) → FreeBlock → Type 0
IsHeaded size_at b = (size_at b.addr ≡ b.size) × HoldsHeader b

abbrev pub whole : LinkedListAllocator → FreeBlock
whole h = record { addr = h.start; size = h.end - h.start }

-- Every address of the heap space is in exactly one free or live block, and no other is in any.
pub record IsPartition (w : World) : Type 0 where
  pub bytes : (x : ℕ) → count_at w.heap.free x + count_at w.live x ≡ inside (whole w.heap) x
  pub free_headers : All HoldsHeader w.heap.free
  pub live_headers : All (IsHeaded w.heap.size_at) w.live
  pub ready : w.heap.initialized ≡ true

abbrev pub took : Option ℕ → LinkedListAllocator → List FreeBlock → World
took none h live = record { heap = h; live = live }
took (some ptr) h live = record {
  heap = h;
  live = record { addr = ptr - header_size; size = h.size_at (ptr - header_size) } ∷ live;
}

-- A client allocates; or it frees a block that it holds.
abbrev pub allocates : Layout → World → World
allocates layout w = let (ptr, h) = alloc layout w.heap in took ptr h w.live

abbrev pub frees : FreeBlock → List FreeBlock → List FreeBlock → World → World
frees b before after w = record {
  heap = dealloc (some (b.addr + header_size)) w.heap;
  live = before ++ after;
}

keep_headers :
    (size_at : ℕ → ℕ) (a v : ℕ) (live : List FreeBlock)
    → count_at live a ≡ 0
    → All (IsHeaded size_at) live
    → All (IsHeaded (update size_at a v)) live
keep_headers size_at a v [] none_at h = h
keep_headers size_at a v (b ∷ bs) none_at h =
    (ground arith, keep_headers size_at a v bs (ground arith) h.1)

pub init-IsPartition :
    (start size : ℕ)
    → header_size ≤ size
    → IsPartition (record { heap = init start size; live = [] })
unfolding init
init-IsPartition start size h = ground arith

-- The world after a successful allocation.
abbrev pub with_taken : Taken → World → World
with_taken t w = record {
  heap = record (w.heap) {
    free = t.rest;
    size_at = update w.heap.size_at t.block.addr t.block.size;
  };
  live = t.block ∷ w.live;
}

pub allocates-some :
    (layout : Layout) (w : World) (t : Taken)
    → w.heap.initialized ≡ true
    → take_first_fit (rounded layout) layout.align w.heap.free ≡ some t
    → allocates layout w ≡ with_taken t w
unfolding alloc alloc_from_free_list align_up
allocates-some layout w t r s = ground arith

pub allocates-none :
    (layout : Layout) (w : World)
    → take_first_fit (rounded layout) layout.align w.heap.free ≡ none
    → allocates layout w ≡ w
unfolding alloc alloc_from_free_list align_up
allocates-none layout w n = ground arith

pub header-le : (layout : Layout) → header_size + layout.size ≤ rounded layout
header-le layout = omega arith

with_taken-IsPartition :
    (layout : Layout) (w : World) (t : Taken)
    → IsTaken (rounded layout) layout.align w.heap.free t
    → All HoldsHeader t.rest
    → IsPartition w
    → IsPartition (with_taken t w)
with_taken-IsPartition layout w t k hs v = record {
  bytes = λ x. omega (arith, k.bytes x, v.bytes x);
  free_headers = hs;
  live_headers = (
    (ground arith, omega (arith, k.room, header-le layout)),
    keep_headers w.heap.size_at t.block.addr t.block.size w.live
        (ground (arith, k.bytes t.block.addr, v.bytes t.block.addr, k.room, header-le layout))
        v.live_headers,
  );
  ready = v.ready;
}

pub allocates-IsPartition :
    (layout : Layout) (w : World)
    → 0 < layout.align
    → IsPartition w
    → IsPartition (allocates layout w)
allocates-IsPartition layout w pos v =
    elim (take_first_fit_lem (rounded layout) layout.align pos w.heap.free v.free_headers) [
      | inl (n, _) ↦ rw (allocates-none layout w n) v
      | inr (t, s, k, hs) ↦
          rw (allocates-some layout w t v.ready s) (with_taken-IsPartition layout w t k hs v)
    ]

module _ {κ} (P : FreeBlock → Type κ) where
  pub without :
      (before : List FreeBlock) (b : FreeBlock) (after : List FreeBlock)
      → All P (before ++ (b ∷ after))
      → P b × All P (before ++ after)
  without [] b after h = (h.0, h.1)
  without (c ∷ cs) b after h = let (hb, hr) = without cs b after h.1 in (hb, (h.0, hr))

pub count-without :
    (before : List FreeBlock) (b : FreeBlock) (after : List FreeBlock) (x : ℕ)
    → count_at (before ++ (b ∷ after)) x ≡ inside b x + count_at (before ++ after) x
count-without [] b after x = refl
count-without (c ∷ cs) b after x = omega (arith, count-without cs b after x)

-- The world after a block is freed.
abbrev pub with_freed : FreeBlock → List FreeBlock → World → World
with_freed b live w = record {
  heap = record (w.heap) { free = coalesce_head (insert_free b w.heap.free) };
  live = live;
}

pub frees_lem :
    (b : FreeBlock) (before after : List FreeBlock) (w : World)
    → w.heap.initialized ≡ true
    → w.heap.size_at b.addr ≡ b.size
    → frees b before after w ≡ with_freed b (before ++ after) w
unfolding dealloc dealloc_to_free_list
frees_lem b before after w r e = ground arith

pub frees-IsPartition :
    (b : FreeBlock) (before after : List FreeBlock) (w : World)
    → w.live ≡ before ++ (b ∷ after)
    → IsPartition w
    → IsPartition (frees b before after w)
frees-IsPartition b before after w q v =
    let (hb, hr) = without (IsHeaded w.heap.size_at) before b after (rw q at v.live_headers) in
    rw (frees_lem b before after w v.ready hb.0) (record {
      bytes = λ x. omega (
        arith,
        give_back-count b w.heap.free x,
        v.bytes x,
        count-without before b after x,
        ap (λ l. count_at l x) q,
      );
      free_headers = give_back-HoldsHeader b w.heap.free hb.1 v.free_headers;
      live_headers = hr;
      ready = v.ready;
    })

-- What clients may do, in any order. `Layout` promises a power of two, of which only that it is not
-- 0 is used.
pub data Step : World → World → Type 0 where
  allocate : (w : World) (layout : Layout) → 0 < layout.align → Step w (allocates layout w)
  release :
      (w : World) (b : FreeBlock) (before after : List FreeBlock)
      → w.live ≡ before ++ (b ∷ after)
      → Step w (frees b before after w)

pub data Reach (w : World) : World → Type 0 where
  here : Reach w w
  next : {u t : World} → Reach w u → Step u t → Reach w t

Step-IsPartition : {u t : World} → Step u t → IsPartition u → IsPartition t
Step-IsPartition (allocate w layout pos) v = allocates-IsPartition layout w pos v
Step-IsPartition (release w b before after q) v = frees-IsPartition b before after w q v

Reach-kept : {u t : World} → IsPartition u → Reach u t → IsPartition t
Reach-kept v here = v
Reach-kept v (next r st) = Step-IsPartition st (Reach-kept v r)

abbrev pub fresh : ℕ → ℕ → World
fresh start size = record { heap = init start size; live = [] }

-- However clients allocate and free the blocks they hold, every byte of the heap space is in exactly
-- one block, free or held, and no other byte is in any: held blocks overlap neither each other nor
-- free memory, and none is lost. Each block has room for its header, and a held block's header tells
-- its size.
pub Reach-IsPartition :
    (start size : ℕ) {w : World} → header_size ≤ size → Reach (fresh start size) w → IsPartition w
Reach-IsPartition start size h r = Reach-kept (init-IsPartition start size h) r
