-- ===== src/Frames.antt =====
-- kernel/src/memory/frame_allocator.rs: the bitmap of physical frames, behind its lock. A word of the
-- bitmap is the list of its 64 bits, lowest first; a set bit is a used frame. The linker's
-- `__kernel_end` is an argument, and so is what the accessors of the boot information answer.
pub mod Bitmap
pub mod Counts
pub mod Ranges
pub mod Init
pub mod Allocate
pub mod Held
mod Tests
use ristux.Common.{
  ℕ, zero, suc, ◌+◌, ◌-◌, ◌*◌, ◌/◌, ◌%◌, min, Bool, true, false, ◌&&◌, not, leb, ltb, if◌then◌else◌,
  Option, none, some, List, [], ◌∷◌, get_or, set, u64_max, saturating_add,
}
use ristux.Refcount.{frame_size, frame_index, repeat}

abbrev pub max_frames : ℕ
max_frames = 4194304

abbrev pub bitmap_words : ℕ
bitmap_words = 65536

pub record Stats : Type 0 where
  pub total : ℕ
  pub free : ℕ

pub record FrameAllocator : Type 0 where
  pub bitmap : List (List Bool)
  pub max_frame : ℕ
  pub total_frames : ℕ
  pub free_frames : ℕ
  pub initialized : Bool

pub record MemoryEntry : Type 0 where
  pub base_addr : ℕ
  pub len : ℕ
  pub is_available : Bool

pub record BootInfo : Type 0 where
  pub memory_map : Option (List MemoryEntry)
  pub range : ℕ × ℕ
  pub modules : List (ℕ × ℕ)
  -- Its address, and its pitch times its height.
  pub framebuffer : Option (ℕ × ℕ)

abbrev pub full_word : List Bool
full_word = repeat 64 true

unfoldable pub new_allocator : FrameAllocator
new_allocator = record {
  bitmap = repeat bitmap_words full_word;
  max_frame = 0;
  total_frames = 0;
  free_frames = 0;
  initialized = false;
}

abbrev pub align_down : ℕ → ℕ
align_down addr = addr / frame_size * frame_size

abbrev pub align_up : ℕ → ℕ
align_up addr = (addr + (frame_size - 1)) % (u64_max + 1) / frame_size * frame_size

-- `bitmap[word] & mask != 0` and the two ways to store a bit.
abbrev pub bit_at : List (List Bool) → ℕ → Bool
bit_at bitmap index = get_or (get_or bitmap (index / 64) []) (index % 64) true

abbrev pub with_bit : List (List Bool) → ℕ → Bool → List (List Bool)
with_bit bitmap index b =
    set bitmap (index / 64) (set (get_or bitmap (index / 64) []) (index % 64) b)

unfoldable pub set_used : ℕ → FrameAllocator → FrameAllocator
set_used index a =
    if ltb (index / 64) bitmap_words && not (bit_at a.bitmap index)
    then record a { bitmap = with_bit a.bitmap index true; free_frames = a.free_frames - 1 }
    else a

unfoldable pub set_available : ℕ → FrameAllocator → FrameAllocator
set_available index a =
    if ltb (index / 64) bitmap_words && bit_at a.bitmap index
    then record a {
      bitmap = with_bit a.bitmap index false;
      total_frames = a.total_frames + 1;
      free_frames = a.free_frames + 1;
    }
    else a

unfoldable pub set_free : ℕ → FrameAllocator → FrameAllocator
set_free index a =
    if ltb (index / 64) bitmap_words && bit_at a.bitmap index
    then record a { bitmap = with_bit a.bitmap index false; free_frames = a.free_frames + 1 }
    else a

-- So many frames from this one, up to the first beyond the bitmap.
unfoldable pub mark_frames : ℕ → ℕ → Bool → FrameAllocator → FrameAllocator
mark_frames zero index used a = a
mark_frames (suc rounds) index used a = elim (leb max_frames index) [
  | true ↦ a
  | false ↦
      mark_frames rounds (suc index) used (if used then set_used index a else set_available index a)
]

unfoldable pub mark_range : ℕ → ℕ → Bool → FrameAllocator → FrameAllocator
mark_range start end used a =
    mark_frames ((align_up end - align_down start) / frame_size) (frame_index (align_down start))
      used a

abbrev pub entry_end : MemoryEntry → ℕ
entry_end e = saturating_add e.base_addr e.len

abbrev pub max : ℕ → ℕ → ℕ
max m n = if leb m n then n else m

unfoldable pub mark_available : List MemoryEntry → FrameAllocator → FrameAllocator
mark_available [] a = a
mark_available (e ∷ es) a = mark_available es (
    if e.is_available
    then mark_range e.base_addr (entry_end e) false
        (record a { max_frame = max a.max_frame (frame_index (align_down (entry_end e))) })
    else a)

unfoldable pub mark_modules : List (ℕ × ℕ) → FrameAllocator → FrameAllocator
mark_modules [] a = a
mark_modules ((start, end) ∷ ms) a = mark_modules ms (mark_range start end true a)

abbrev pub kernel_phys_end : ℕ → ℕ
kernel_phys_end kernel_end =
    if leb 18446744071562067968 kernel_end then kernel_end - 18446744071562067968 else kernel_end

abbrev pub available_entries : BootInfo → List MemoryEntry
available_entries boot = elim boot.memory_map [ none ↦ [] | some entries ↦ entries ]

abbrev pub mark_framebuffer : Option (ℕ × ℕ) → FrameAllocator → FrameAllocator
mark_framebuffer none a = a
mark_framebuffer (some (addr, size)) a = mark_range addr (addr + size) true a

unfoldable pub init : BootInfo → ℕ → FrameAllocator → FrameAllocator
init boot kernel_end a =
    let cleared = record new_allocator { initialized = a.initialized } in
    let mapped = mark_available (available_entries boot) cleared in
    let low = mark_range 0 1048576 true mapped in
    let kernel = mark_range 1048576 (kernel_phys_end kernel_end) true low in
    let booted = mark_range boot.range.0 boot.range.1 true kernel in
    let loaded = mark_modules boot.modules booted in
    record (mark_framebuffer boot.framebuffer loaded) { initialized = true }

-- `word == u64::MAX`, and `(!word).trailing_zeros()` above so many bits.
abbrev pub is_full : List Bool → Bool
is_full [] = true
is_full (b ∷ bs) = b && is_full bs

abbrev pub lowest_clear : ℕ → List Bool → ℕ
lowest_clear i [] = i
lowest_clear i (b ∷ bs) = if b then lowest_clear (suc i) bs else i

abbrev pub take_frame : ℕ → FrameAllocator → Option ℕ × FrameAllocator
take_frame index a =
    if leb a.max_frame index then (none, a) else (some (index * frame_size), set_used index a)

-- So many words from this one.
unfoldable pub allocate_from : ℕ → ℕ → FrameAllocator → Option ℕ × FrameAllocator
allocate_from zero word_index a = (none, a)
allocate_from (suc rounds) word_index a = elim (is_full (get_or a.bitmap word_index [])) [
  | true ↦ allocate_from rounds (suc word_index) a
  | false ↦ take_frame (word_index * 64 + lowest_clear 0 (get_or a.bitmap word_index [])) a
]

unfoldable pub allocate : FrameAllocator → Option ℕ × FrameAllocator
allocate a =
    if not a.initialized
    then (none, a)
    else allocate_from (min ((a.max_frame + 63) / 64) bitmap_words) 0 a

unfoldable pub free_frame : ℕ → FrameAllocator → FrameAllocator
free_frame frame a =
    if ltb (frame_index frame) a.max_frame then set_free (frame_index frame) a else a

unfoldable pub reserve_range : ℕ → ℕ → FrameAllocator → FrameAllocator
reserve_range start end a = mark_range start end true a

unfoldable pub stats : FrameAllocator → Stats
stats a = record { total = a.total_frames; free = a.free_frames }
