-- ===== src/Heap/Tests.antt =====
-- A run of the heap of kernel/src/memory/heap.rs at small numbers, and the theorems there.
use ristux.Common.{◌+◌, ◌≤◌, ◌≡◌, ◌⊎◌, refl, none, some, [], ◌∷◌, All, arith}
use ristux.Heap.{
  FreeBlock, Layout, LinkedListAllocator, Taken, header_size, update, init, alloc,
  alloc_from_free_list, take_first_fit, split, alloc_start, align_up, dealloc, dealloc_to_free_list,
  insert_free, insert_after, coalesce_head, coalesce_from,
}
use ristux.Heap.Alloc.{IsTaken, IsUnfit, rounded, alloc_lem}
use ristux.Heap.Partition.{
  World, IsPartition, allocates, frees, Step, Reach, here, next, fresh, Reach-IsPartition,
}
use ristux.Heap.Tidy.{IsTidy, Reach-IsTidy}

-- 1024 bytes at 4096.
abbrev heap : LinkedListAllocator
heap = init 4096 1024

abbrev small : Layout
small = record { size = 20; align = 8 }

-- An alignment that leaves a free block before the payload.
abbrev aligned : Layout
aligned = record { size = 64; align = 64 }

abbrev one : World
one = allocates small (fresh 4096 1024)

abbrev two : World
two = allocates aligned one

abbrev gap : FreeBlock
gap = record { addr = 4136; size = 72 }

two_lem :
    (two.live ≡ record { addr = 4208; size = 80 } ∷ record { addr = 4096; size = 40 } ∷ [])
    × (two.heap.free ≡ gap ∷ record { addr = 4288; size = 832 } ∷ [])
unfolding alloc alloc_from_free_list take_first_fit split alloc_start align_up init
two_lem = (refl, refl)

-- Freeing the first block joins it to the gap.
abbrev back : World
back = frees (record { addr = 4096; size = 40 }) (record { addr = 4208; size = 80 } ∷ []) [] two

back_lem :
    back.heap.free ≡ record { addr = 4096; size = 112 } ∷ record { addr = 4288; size = 832 } ∷ []
unfolding alloc alloc_from_free_list take_first_fit split alloc_start align_up init dealloc
    dealloc_to_free_list insert_free insert_after coalesce_head coalesce_from
back_lem = refl

run : Reach (fresh 4096 1024) back
run =
    next
      (next (next here (Step.allocate (fresh 4096 1024) small (omega arith)))
        (Step.allocate one aligned (omega arith)))
      (Step.release two (record { addr = 4096; size = 40 }) (record { addr = 4208; size = 80 } ∷ [])
        [] two_lem.0)

alloc_lem_example :
    ((alloc aligned heap ≡ (none, heap)) × All (IsUnfit (rounded aligned) 64) heap.free)
    ⊎ ((t : Taken) × (alloc aligned heap ≡ (
      some (t.block.addr + header_size),
      record heap { free = t.rest; size_at = update heap.size_at t.block.addr t.block.size },
    ))
        × IsTaken (rounded aligned) 64 heap.free t
        × (80 ≤ t.block.size))
unfolding init
alloc_lem_example = alloc_lem aligned heap (omega arith) refl (omega arith)

Reach-IsPartition_example : IsPartition back
Reach-IsPartition_example = Reach-IsPartition 4096 1024 (omega arith) run

Reach-IsTidy_example : IsTidy back
Reach-IsTidy_example = Reach-IsTidy 4096 1024 (omega arith) (omega arith) run
