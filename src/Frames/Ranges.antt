-- ===== src/Frames/Ranges.antt =====
-- kernel/src/memory/frame_allocator.rs: `mark_range` writes the bit of each frame that the range of
-- addresses touches.
use ristux.Common.{
  ℕ, zero, suc, ap, ◌+◌, ◌-◌, ◌*◌, ◌/◌, ◌≤◌, ◌<◌, ◌≡◌, ◌∙◌, Bool, true, false, ◌&&◌, ◌||◌, leb, ltb,
  if◌then◌else◌, Bool-cases, inl, inr, u64_max, arith,
}
use ristux.Refcount.{frame_size}
use ristux.Frames.{
  FrameAllocator, max_frames, bit_at, set_used, set_available, mark_frames, mark_range, align_up,
  align_down,
}
use ristux.Frames.Counts.{IsCounted, Writes, set_used-Writes, set_available-Writes}

-- Some address of the frame is in the range.
abbrev pub touches : ℕ → ℕ → ℕ → Bool
touches start end j = ltb start ((j + 1) * frame_size) && ltb (j * frame_size) end

-- The frames that a test picks have their bits written, the others keep theirs.
pub record Marks (picked : ℕ → Bool) (b : Bool) (a after : FrameAllocator) : Type 0 where
  pub right : IsCounted after
  pub bits :
      (j : ℕ) → j < max_frames → bit_at after.bitmap j ≡ (if picked j then b else bit_at a.bitmap j)

pub Marks-trans :
    {p q : ℕ → Bool} {b : Bool} {a x y : FrameAllocator}
    → Marks p b a x
    → Marks q b x y
    → Marks (λ j. p j || q j) b a y
Marks-trans u v = record { right = v.right; bits = λ j h. ground (arith, v.bits j h, u.bits j h) }

abbrev between : ℕ → ℕ → ℕ → Bool
between index rounds j = leb index j && ltb j (index + rounds)

marked_one :
    (index : ℕ) (used : Bool) (a : FrameAllocator)
    → index < max_frames
    → IsCounted a
    → Writes index used a (if used then set_used index a else set_available index a)
marked_one index true a h v = set_used-Writes index a h v
marked_one index false a h v = set_available-Writes index a h v

mark_frames-Marks :
    (rounds index : ℕ) (used : Bool) (a : FrameAllocator)
    → IsCounted a
    → Marks (between index rounds) used a (mark_frames rounds index used a)
unfolding mark_frames
mark_frames-Marks zero index used a v = record { right = v; bits = λ j h. ground arith }
mark_frames-Marks (suc rounds) index used a v = elim (Bool-cases (leb max_frames index)) [
  | inl f ↦ rw (f, mark_frames) (record { right = v; bits = λ j h. ground (arith, f, h) })
  | inr f ↦
      let w = marked_one index used a (ground (arith, f)) v in
      let r =
        mark_frames-Marks rounds (suc index) used
          (if used then set_used index a else set_available index a) w.right in
      rw (f, mark_frames)
        (record { right = r.right; bits = λ j h. ground (arith, r.bits j h, w.bits j) })
]

pub mark_range-Marks :
    (start end : ℕ) (used : Bool) (a : FrameAllocator)
    → end + 4095 ≤ u64_max
    → IsCounted a
    → Marks (touches start end) used a (mark_range start end used a)
unfolding mark_range
mark_range-Marks start end used a h v =
    let r =
      mark_frames-Marks ((align_up end - align_down start) / frame_size)
        (align_down start / frame_size) used a v in
    record {
      right = r.right;
      bits = λ j k. r.bits j k ∙ ap (λ b. if b then used else bit_at a.bitmap j) (same_frames j);
    }
  where
    same_frames :
        (j : ℕ)
        → between (align_down start / frame_size) ((align_up end - align_down start) / frame_size) j
          ≡ touches start end j
    same_frames j = ground (arith, h)
