-- ===== src/Frames/Counts.antt =====
-- kernel/src/memory/frame_allocator.rs: what `set_used`, `set_available` and `set_free` leave.
use ristux.Common.{
  ℕ, ◌+◌, ◌-◌, ◌/◌, ◌<◌, ◌≡◌, refl, Bool, true, false, ◌==◌, ltb, if◌then◌else◌, Bool-cases, inl,
  inr, ==_iff, arith,
}
use ristux.Frames.{
  FrameAllocator, bitmap_words, max_frames, bit_at, with_bit, set_used, set_available, set_free,
}
use ristux.Frames.Bitmap.{
  IsBitmap, clear_words, with_bit_self, with_bit_other, with_bit-IsBitmap, clear_words-with_bit,
}

-- The count of free frames is that of the clear bits.
pub record IsCounted (a : FrameAllocator) : Type 0 where
  pub shape : IsBitmap a.bitmap
  pub counted : a.free_frames ≡ clear_words a.bitmap

-- One bit is written, and the counts follow.
pub record Writes (index : ℕ) (b : Bool) (a after : FrameAllocator) : Type 0 where
  pub right : IsCounted after
  pub bits : (j : ℕ) → bit_at after.bitmap j ≡ (if index == j then b else bit_at a.bitmap j)
  pub same_max : after.max_frame ≡ a.max_frame

with_bit_at :
    (index : ℕ) (b : Bool) (a : FrameAllocator) (j : ℕ)
    → index / 64 < bitmap_words
    → IsBitmap a.bitmap
    → bit_at (with_bit a.bitmap index b) j ≡ (if index == j then b else bit_at a.bitmap j)
with_bit_at index b a j h v = elim (Bool-cases (index == j)) [
  | inr f ↦ rw f (with_bit_other a.bitmap index h v b j (λ e. ground (arith, e, f)))
  | inl f ↦
      let e : index ≡ j = (==_iff index j).0 f in
      rw f (rw (← e) (with_bit_self a.bitmap index h v b))
]

unchanged_at :
    (index : ℕ) (b : Bool) (a : FrameAllocator) (j : ℕ)
    → bit_at a.bitmap index ≡ b
    → bit_at a.bitmap j ≡ (if index == j then b else bit_at a.bitmap j)
unchanged_at index b a j h = elim (Bool-cases (index == j)) [
  | inr f ↦ rw f
  | inl f ↦ let e : index ≡ j = (==_iff index j).0 f in rw f (rw (← e) h)
]

word_of : (index : ℕ) → index < max_frames → ltb (index / 64) bitmap_words ≡ true
word_of index h = ground (arith, h)

Writes-none :
    (index : ℕ) (b : Bool) (a : FrameAllocator)
    → bit_at a.bitmap index ≡ b
    → IsCounted a
    → Writes index b a a
Writes-none index b a f v = record {
  right = v;
  bits = λ j. unchanged_at index b a j f;
  same_max = refl;
}

written :
    (index : ℕ) (b : Bool) (n t : ℕ) (a : FrameAllocator)
    → index < max_frames
    → n ≡ clear_words (with_bit a.bitmap index b)
    → IsCounted a
    → Writes index b a
        (record a { bitmap = with_bit a.bitmap index b; total_frames = t; free_frames = n })
written index b n t a h e v = record {
  right = record {
    shape = with_bit-IsBitmap a.bitmap index (omega (arith, h)) v.shape b;
    counted = e;
  };
  bits = λ j. with_bit_at index b a j (omega (arith, h)) v.shape;
  same_max = refl;
}

-- The equation between the counts before and after the write.
counted_write :
    (index : ℕ) (b : Bool) (a : FrameAllocator)
    → index < max_frames
    → IsCounted a
    → clear_words (with_bit a.bitmap index b) + (if bit_at a.bitmap index then 0 else 1)
      ≡ a.free_frames + (if b then 0 else 1)
counted_write index b a h v =
    omega (arith, v.counted, clear_words-with_bit a.bitmap index (omega (arith, h)) v.shape b)

pub set_used-Writes :
    (index : ℕ) (a : FrameAllocator)
    → index < max_frames
    → IsCounted a
    → Writes index true a (set_used index a)
unfolding set_used
set_used-Writes index a h v = elim (Bool-cases (bit_at a.bitmap index)) [
  | inl f ↦ rw (word_of index h, f) (Writes-none index true a f v)
  | inr f ↦
      rw (word_of index h, f)
        (written index true (a.free_frames - 1) (a.total_frames) a h
          (ground (arith, f, counted_write index true a h v)) v)
]

pub set_available-Writes :
    (index : ℕ) (a : FrameAllocator)
    → index < max_frames
    → IsCounted a
    → Writes index false a (set_available index a)
unfolding set_available
set_available-Writes index a h v = elim (Bool-cases (bit_at a.bitmap index)) [
  | inr f ↦ rw (word_of index h, f) (Writes-none index false a f v)
  | inl f ↦
      rw (word_of index h, f)
        (written index false (a.free_frames + 1) (a.total_frames + 1) a h
          (ground (arith, f, counted_write index false a h v)) v)
]

pub set_free-Writes :
    (index : ℕ) (a : FrameAllocator)
    → index < max_frames
    → IsCounted a
    → Writes index false a (set_free index a)
unfolding set_free
set_free-Writes index a h v = elim (Bool-cases (bit_at a.bitmap index)) [
  | inr f ↦ rw (word_of index h, f) (Writes-none index false a f v)
  | inl f ↦
      rw (word_of index h, f)
        (written index false (a.free_frames + 1) (a.total_frames) a h
          (ground (arith, f, counted_write index false a h v)) v)
]
