-- ===== src/Frames/Init.antt =====
-- kernel/src/memory/frame_allocator.rs: which frames are free after `init`.
use ristux.Common.{
  ℕ, zero, suc, ◌+◌, ◌/◌, ◌%◌, ◌≤◌, ◌<◌, ◌≡◌, refl, sym, Bool, true, false, ◌&&◌, ◌||◌, not,
  Bool-cases, inl, inr, Option, none, some, List, [], ◌∷◌, get_or, length, All, u64_max, arith,
}
use ristux.Refcount.{repeat}
use ristux.Frames.{
  FrameAllocator, MemoryEntry, BootInfo, max_frames, bitmap_words, full_word, new_allocator, bit_at,
  mark_available, mark_modules, mark_framebuffer, available_entries, entry_end, kernel_phys_end,
  init,
}
use ristux.Frames.Bitmap.{clear_bits, clear_words, length-repeat, All-repeat, get_or-repeat}
use ristux.Frames.Counts.{IsCounted}
use ristux.Frames.Ranges.{Marks, Marks-trans, touches, mark_range-Marks}

-- No range ends so high that rounding its end up to a frame wraps around.
abbrev pub EndsBelow : ℕ → Type 0
EndsBelow end = end + 4095 ≤ u64_max

pub record BootIsValid (boot : BootInfo) (kernel_end : ℕ) : Type 0 where
  pub entries : All (λ (e : MemoryEntry). EndsBelow (e.base_addr + e.len)) (available_entries boot)
  pub kernel : EndsBelow (kernel_phys_end kernel_end)
  pub range_below : EndsBelow boot.range.1
  pub modules_below : All (λ (m : ℕ × ℕ). EndsBelow m.1) boot.modules
  pub framebuffer_below :
      (addr size : ℕ) → boot.framebuffer ≡ some (addr, size) → EndsBelow (addr + size)

-- Some available entry of the memory map touches the frame.
abbrev pub is_memory : List MemoryEntry → ℕ → Bool
is_memory [] j = false
is_memory (e ∷ es) j =
    (e.is_available && touches e.base_addr (e.base_addr + e.len) j) || is_memory es j

abbrev pub in_module : List (ℕ × ℕ) → ℕ → Bool
in_module [] j = false
in_module (m ∷ ms) j = touches m.0 m.1 j || in_module ms j

abbrev pub in_framebuffer : Option (ℕ × ℕ) → ℕ → Bool
in_framebuffer none j = false
in_framebuffer (some (addr, size)) j = touches addr (addr + size) j

-- The first megabyte, the kernel, the boot information, a module or the framebuffer touches it.
abbrev pub is_reserved : BootInfo → ℕ → ℕ → Bool
is_reserved boot kernel_end j =
    (((touches 0 1048576 j || touches 1048576 (kernel_phys_end kernel_end) j)
        || touches boot.range.0 boot.range.1 j)
      || in_module boot.modules j)
    || in_framebuffer boot.framebuffer j

Marks-none : (b : Bool) (a : FrameAllocator) → IsCounted a → Marks (λ j. false) b a a
Marks-none b a v = record { right = v; bits = λ j h. refl }

entry_below :
    (e : MemoryEntry) → EndsBelow (e.base_addr + e.len) → entry_end e ≡ e.base_addr + e.len
entry_below e h = ground (arith, h)

-- Neither the highest frame nor the flag shows in the bitmap and its count.
module _ (m : ℕ) (i : Bool) where
  IsCounted-with :
      (a : FrameAllocator) → IsCounted a → IsCounted (record a { max_frame = m; initialized = i })
  IsCounted-with a v = record { shape = v.shape; counted = v.counted }

  Marks-with :
      {p : ℕ → Bool} {b : Bool} {a after : FrameAllocator}
      → Marks p b (record a { max_frame = m; initialized = i }) after
      → Marks p b a after
  Marks-with u = record { right = u.right; bits = u.bits }

mark_available-Marks :
    (es : List MemoryEntry) (a : FrameAllocator)
    → All (λ (e : MemoryEntry). EndsBelow (e.base_addr + e.len)) es
    → IsCounted a
    → Marks (is_memory es) false a (mark_available es a)
unfolding mark_available
mark_available-Marks [] a h v = Marks-none false a v
mark_available-Marks (e ∷ es) a h v = elim (Bool-cases e.is_available) [
  | inr f ↦ rw f (mark_available-Marks es a h.1 v)
  | inl f ↦
      rw (f, entry_below e h.0)
        (let u = Marks-with _ a.initialized (
            mark_range-Marks e.base_addr (e.base_addr + e.len) false _ h.0
              (IsCounted-with _ a.initialized a v)) in
          Marks-trans u (mark_available-Marks es _ h.1 u.right))
]

mark_modules-Marks :
    (ms : List (ℕ × ℕ)) (a : FrameAllocator)
    → All (λ (m : ℕ × ℕ). EndsBelow m.1) ms
    → IsCounted a
    → Marks (in_module ms) true a (mark_modules ms a)
unfolding mark_modules
mark_modules-Marks [] a h v = Marks-none true a v
mark_modules-Marks ((start, end) ∷ ms) a h v =
    let u = mark_range-Marks start end true a h.0 v in
    Marks-trans u (mark_modules-Marks ms _ h.1 u.right)

mark_framebuffer-Marks :
    (o : Option (ℕ × ℕ)) (a : FrameAllocator)
    → ((addr size : ℕ) → o ≡ some (addr, size) → EndsBelow (addr + size))
    → IsCounted a
    → Marks (in_framebuffer o) true a (mark_framebuffer o a)
mark_framebuffer-Marks none a h v = Marks-none true a v
mark_framebuffer-Marks (some (addr, size)) a h v =
    mark_range-Marks addr (addr + size) true a (h addr size refl) v

-- Before any range is marked every bit is set.
clear_bits-full : (n : ℕ) → clear_bits (repeat n true) ≡ 0
unfolding repeat
clear_bits-full zero = refl
clear_bits-full (suc n) = omega (arith, clear_bits-full n)

clear_words-full : (n : ℕ) → clear_words (repeat n full_word) ≡ 0
unfolding repeat
clear_words-full zero = refl
clear_words-full (suc n) = omega (arith, clear_bits-full 64, clear_words-full n)

bit_at-full : (n i k : ℕ) → get_or (get_or (repeat n full_word) i []) k true ≡ true
unfolding repeat
bit_at-full zero i k = refl
bit_at-full (suc n) zero k = get_or-repeat 64 k true
bit_at-full (suc n) (suc i) k = bit_at-full n i k

new_allocator-IsCounted : IsCounted new_allocator
unfolding new_allocator
new_allocator-IsCounted = record {
  shape = record {
    words = length-repeat bitmap_words full_word;
    bits =
        All-repeat (λ (w : List Bool). length w ≡ 64) bitmap_words full_word
          (length-repeat 64 true);
  };
  counted = sym (clear_words-full bitmap_words);
}

-- If no range of the boot information ends within 4095 bytes of the end of the address space: after
-- `init` the count of free frames is that of the clear bits, and of the 4194304 frames exactly those
-- are free that an available entry of the memory map touches, and that none of the first megabyte,
-- the kernel, the boot information, the modules and the framebuffer touches.
pub init-IsFree :
    (boot : BootInfo) (kernel_end : ℕ) (a : FrameAllocator)
    → BootIsValid boot kernel_end
    → IsCounted (init boot kernel_end a)
      × ((j : ℕ)
          → j < max_frames
          → bit_at (init boot kernel_end a).bitmap j
            ≡ (is_reserved boot kernel_end j || not (is_memory (available_entries boot) j)))
unfolding init new_allocator
init-IsFree boot kernel_end a ok =
    let m =
      mark_available-Marks (available_entries boot) _ ok.entries
        (IsCounted-with 0 a.initialized new_allocator new_allocator-IsCounted) in
    let low = mark_range-Marks 0 1048576 true _ (omega arith) m.right in
    let k = mark_range-Marks 1048576 (kernel_phys_end kernel_end) true _ ok.kernel low.right in
    let r = mark_range-Marks boot.range.0 boot.range.1 true _ ok.range_below k.right in
    let l = mark_modules-Marks boot.modules _ ok.modules_below r.right in
    let f = mark_framebuffer-Marks boot.framebuffer _ ok.framebuffer_below l.right in
    let all = Marks-trans (Marks-trans (Marks-trans (Marks-trans low k) r) l) f in
    (
      record { shape = f.right.shape; counted = f.right.counted },
      λ j h. ground (arith, all.bits j h, m.bits j h, bit_at-full bitmap_words (j / 64) (j % 64)),
    )
