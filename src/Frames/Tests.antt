-- ===== src/Frames/Tests.antt =====
-- A machine with memory from 1 MiB to 4 MiB less 100 bytes, and the theorems of
-- kernel/src/memory/frame_allocator.rs there.
use ristux.Common.{ℕ, ◌<◌, ◌≡◌, refl, true, false, ◌||◌, not, none, some, [], ◌∷◌, min, arith}
use ristux.Refcount.{repeat}
use ristux.Frames.{
  FrameAllocator, BootInfo, max_frames, bit_at, new_allocator, init, mark_available, mark_modules,
  mark_range, mark_frames, set_used, set_available, allocate, allocate_from, free_frame,
  available_entries,
}
use ristux.Frames.Counts.{IsCounted}
use ristux.Frames.Init.{BootIsValid, is_reserved, is_memory, init-IsFree}
use ristux.Frames.Allocate.{Allocates, allocate-outcome}
use ristux.Frames.Held.{Owned, started, allocated, freed, IsOwned, Reach-IsOwned}

abbrev machine : BootInfo
machine = record {
  memory_map = some (
      record { base_addr = 1048576; len = 3145628; is_available = true }
      ∷ record { base_addr = 4194204; len = 1000; is_available = false }
      ∷ []);
  range = (1056768, 1057000);
  modules = (1060864, 1070000) ∷ [];
  framebuffer = none;
}

machine-BootIsValid : BootIsValid machine 1056000
machine-BootIsValid = record {
  entries = omega arith;
  kernel = omega arith;
  range_below = omega arith;
  modules_below = omega arith;
  framebuffer_below = λ addr size e. cc;
}

abbrev at_start : FrameAllocator
at_start = init machine 1056000 new_allocator

-- The first frame behind the modules.
first_frame : (allocate at_start).0 ≡ some 1073152
unfolding allocate allocate_from init mark_available mark_modules mark_range mark_frames set_used
    set_available new_allocator repeat
first_frame = refl

-- The frame of the last 100 bytes, which are no memory, counts as free.
partial_frame : bit_at at_start.bitmap 1023 ≡ false
unfolding init mark_available mark_modules mark_range mark_frames set_used set_available
    new_allocator repeat
partial_frame = refl

at_start_initialized : at_start.initialized ≡ true
unfolding init
at_start_initialized = refl

init-IsFree_example :
    IsCounted at_start
    × ((j : ℕ)
        → j < max_frames
        → bit_at at_start.bitmap j
          ≡ (is_reserved machine 1056000 j || not (is_memory (available_entries machine) j)))
init-IsFree_example = init-IsFree machine 1056000 new_allocator machine-BootIsValid

at_start-IsCounted : IsCounted at_start
at_start-IsCounted = (init-IsFree machine 1056000 new_allocator machine-BootIsValid).0

allocate-outcome_example :
    Allocates (allocate at_start) at_start (min at_start.max_frame max_frames)
allocate-outcome_example = allocate-outcome at_start at_start-IsCounted at_start_initialized

abbrev taken : Owned
taken = record { allocator = (allocate at_start).1; held = 1073152 ∷ [] }

abbrev given_back : Owned
given_back = record { allocator = free_frame 1073152 taken.allocator; held = [] }

Reach-IsOwned_example : IsOwned machine 1056000 given_back
Reach-IsOwned_example = Reach-IsOwned machine-BootIsValid (
    freed taken 0 1073152
      (allocated (record { allocator = at_start; held = [] }) 1073152 (started new_allocator)
        at_start_initialized first_frame)
      refl)
