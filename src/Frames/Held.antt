-- ===== src/Frames/Held.antt =====
-- kernel/src/memory/frame_allocator.rs: the frames that callers hold, after any calls.
use mathlib.Core.Path.{subst}
use mathlib.Core.Option.{some-injective}
use ristux.Common.{
  ℕ, zero, suc, ◌*◌, ◌<◌, ◌≡◌, ◌≢◌, ◌∙◌, sym, ap, true, false, ◌||◌, ◌==◌, not, ltb, Bool-cases,
  inl, inr, some, List, [], ◌∷◌, get_elem?, remove, All, All-remove, All-get_elem?, ==_iff, arith,
}
use ristux.Refcount.{frame_size, frame_index}
use ristux.Frames.{
  FrameAllocator, BootInfo, max_frames, bit_at, init, allocate, free_frame, reserve_range,
  available_entries,
}
use ristux.Frames.Counts.{IsCounted, set_free-Writes}
use ristux.Frames.Ranges.{mark_range-Marks}
use ristux.Frames.Init.{BootIsValid, EndsBelow, is_memory, is_reserved, init-IsFree}
use ristux.Frames.Allocate.{Takes, allocate-outcome}

-- The allocator, and the frames that were handed out and not yet given back.
pub record Owned : Type 0 where
  pub allocator : FrameAllocator
  pub held : List ℕ

-- The calls after `init`: callers give back what they hold.
pub data Reach (boot : BootInfo) (kernel_end : ℕ) : Owned → Type 0 where
  started :
      (a : FrameAllocator)
      → Reach boot kernel_end (record { allocator = init boot kernel_end a; held = [] })
  allocated :
      (s : Owned) (start : ℕ)
      → Reach boot kernel_end s
      → s.allocator.initialized ≡ true
      → (allocate s.allocator).0 ≡ some start
      → Reach boot kernel_end
          (record { allocator = (allocate s.allocator).1; held = start ∷ s.held })
  freed :
      (s : Owned) (i start : ℕ)
      → Reach boot kernel_end s
      → get_elem? s.held i ≡ some start
      → Reach boot kernel_end
          (record { allocator = free_frame start s.allocator; held = remove s.held i })
  reserved :
      (s : Owned) (start end : ℕ)
      → Reach boot kernel_end s
      → EndsBelow end
      → Reach boot kernel_end
          (record { allocator = reserve_range start end s.allocator; held = s.held })

-- Memory that nothing else is in.
abbrev pub Usable : BootInfo → ℕ → ℕ → Type 0
Usable boot kernel_end j =
    (is_reserved boot kernel_end j || not (is_memory (available_entries boot) j)) ≡ false

-- A frame that is held is in use, and is memory that nothing else is in.
pub record IsHeld (boot : BootInfo) (kernel_end : ℕ) (a : FrameAllocator) (start : ℕ) : Type 0 where
  pub aligned : start ≡ frame_index start * frame_size
  pub in_bitmap : frame_index start < max_frames
  pub in_use : bit_at a.bitmap (frame_index start) ≡ true
  pub usable : Usable boot kernel_end (frame_index start)

-- No frame is listed twice.
abbrev pub Distinct : List ℕ → Type 0
Distinct [] = Unit
Distinct (x ∷ xs) = All (λ y. x ≢ y) xs × Distinct xs

pub record IsOwned (boot : BootInfo) (kernel_end : ℕ) (s : Owned) : Type 0 where
  pub right : IsCounted s.allocator
  pub free_usable :
      (j : ℕ) → j < max_frames → bit_at s.allocator.bitmap j ≡ false → Usable boot kernel_end j
  pub held_right : All (IsHeld boot kernel_end s.allocator) s.held
  pub distinct : Distinct s.held

All-map {κ μ} :
    {P : ℕ → Type κ} {Q : ℕ → Type μ} (xs : List ℕ) → ((x : ℕ) → P x → Q x) → All P xs → All Q xs
All-map [] f h = tt
All-map (x ∷ xs) f h = (f x h.0, All-map xs f h.1)

All-both {κ μ} :
    (P : ℕ → Type κ) (Q : ℕ → Type μ) (xs : List ℕ) → All P xs → All Q xs → All (λ x. P x × Q x) xs
All-both P Q [] h k = tt
All-both P Q (x ∷ xs) h k = ((h.0, k.0), All-both P Q xs h.1 k.1)

Distinct-remove : (xs : List ℕ) (i : ℕ) → Distinct xs → Distinct (remove xs i)
Distinct-remove [] i d = d
Distinct-remove (x ∷ xs) zero d = d.1
Distinct-remove (x ∷ xs) (suc i) d = (All-remove (λ y. x ≢ y) xs i d.0, Distinct-remove xs i d.1)

-- The one that is taken out is not among the others.
others :
    (xs : List ℕ) (i x : ℕ) → Distinct xs → get_elem? xs i ≡ some x → All (λ y. y ≢ x) (remove xs i)
others [] i x d e = cc
others (y ∷ xs) zero x d e = All-map xs (λ z ne q. ne (some-injective _ _ e ∙ sym q)) d.0
others (y ∷ xs) (suc i) x d e = (All-get_elem? (λ z. y ≢ z) xs i d.0 e, others xs i x d.1 e)

module _ (boot : BootInfo) (kernel_end : ℕ) where
  started-IsOwned :
      (a : FrameAllocator)
      → BootIsValid boot kernel_end
      → IsOwned boot kernel_end (record { allocator = init boot kernel_end a; held = [] })
  started-IsOwned a ok =
      let (c, bits) = init-IsFree boot kernel_end a ok in
      record {
        right = c;
        free_usable = λ j h f. sym (bits j h) ∙ f;
        held_right = tt;
        distinct = tt;
      }

  allocated-IsOwned :
      (s : Owned) (start : ℕ) (after : FrameAllocator)
      → IsOwned boot kernel_end s
      → Takes start s.allocator after
      → IsOwned boot kernel_end (record { allocator = after; held = start ∷ s.held })
  allocated-IsOwned s start after v t =
      let e : frame_index start ≡ t.index = omega (arith, t.start_of) in
      record {
        right = t.writes.right;
        free_usable = λ j h f. v.free_usable j h (ground (arith, t.writes.bits j, f));
        held_right = (
          record {
            aligned = omega (arith, t.start_of);
            in_bitmap = omega (arith, e, t.in_bitmap);
            in_use = rw e (ground (arith, t.writes.bits t.index));
            usable = rw e (v.free_usable t.index t.in_bitmap t.was_free);
          },
          All-map s.held
              (λ x h. record {
                aligned = h.aligned;
                in_bitmap = h.in_bitmap;
                in_use = ground (arith, t.writes.bits (frame_index x), h.in_use);
                usable = h.usable;
              })
              v.held_right,
        );
        distinct = (
          All-map s.held
              (λ x h q.
                let i : t.index ≡ frame_index x = sym e ∙ ap frame_index q in
                absurd (cc (sym t.was_free ∙ ap (bit_at s.allocator.bitmap) i ∙ h.in_use)))
              v.held_right,
          v.distinct,
        );
      }

  freed-IsOwned :
      (s : Owned) (i start : ℕ)
      → IsOwned boot kernel_end s
      → get_elem? s.held i ≡ some start
      → IsOwned boot kernel_end
          (record { allocator = free_frame start s.allocator; held = remove s.held i })
  unfolding free_frame
  freed-IsOwned s i start v e =
      let h = All-get_elem? (IsHeld boot kernel_end s.allocator) s.held i v.held_right e in
      let w = set_free-Writes (frame_index start) s.allocator h.in_bitmap v.right in
      let kept = All-remove (IsHeld boot kernel_end s.allocator) s.held i v.held_right in
      elim (Bool-cases (ltb (frame_index start) s.allocator.max_frame)) [
        | inr f ↦ rw f (record {
          right = v.right;
          free_usable = v.free_usable;
          held_right = kept;
          distinct = Distinct-remove s.held i v.distinct;
        })
        | inl f ↦ rw f (record {
          right = w.right;
          free_usable = λ j k q. elim (Bool-cases (frame_index start == j)) [
            | inl g ↦ subst (Usable boot kernel_end) ((==_iff (frame_index start) j).0 g) h.usable
            | inr g ↦ v.free_usable j k (ground (arith, w.bits j, g, q))
          ];
          held_right =
              All-map (remove s.held i)
                (λ x p. record {
                  aligned = p.0.aligned;
                  in_bitmap = p.0.in_bitmap;
                  in_use =
                      ground
                        (arith, w.bits (frame_index x), p.0.in_use, p.0.aligned, h.aligned, p.1);
                  usable = p.0.usable;
                })
                (All-both (IsHeld boot kernel_end s.allocator) (λ y. y ≢ start) (remove s.held i)
                  kept (others s.held i start v.distinct e));
          distinct = Distinct-remove s.held i v.distinct;
        })
      ]

  reserved-IsOwned :
      (s : Owned) (start end : ℕ)
      → IsOwned boot kernel_end s
      → EndsBelow end
      → IsOwned boot kernel_end
          (record { allocator = reserve_range start end s.allocator; held = s.held })
  unfolding reserve_range
  reserved-IsOwned s start end v b =
      let m = mark_range-Marks start end true s.allocator b v.right in
      record {
        right = m.right;
        free_usable = λ j h f. v.free_usable j h (ground (arith, m.bits j h, f));
        held_right =
            All-map s.held
              (λ x h. record {
                aligned = h.aligned;
                in_bitmap = h.in_bitmap;
                in_use = ground (arith, m.bits (frame_index x) h.in_bitmap, h.in_use);
                usable = h.usable;
              })
              v.held_right;
        distinct = v.distinct;
      }

-- If no range of the boot information ends within 4095 bytes of the end of the address space: after
-- `init` and any calls of `allocate`, of `free_frame` on frames that are held, and of `reserve_range`,
-- no frame is held twice; a held frame is in use, starts at a multiple of 4096, is touched by an
-- available entry of the memory map and by nothing that the boot information reserves; only such
-- frames are free; and the count of free frames is that of the clear bits.
pub Reach-IsOwned :
    {boot : BootInfo} {kernel_end : ℕ} {s : Owned}
    → BootIsValid boot kernel_end
    → Reach boot kernel_end s
    → IsOwned boot kernel_end s
Reach-IsOwned {boot} {kernel_end} ok (started a) = started-IsOwned boot kernel_end a ok
Reach-IsOwned {boot} {kernel_end} ok (allocated s start r i e) =
    let v = Reach-IsOwned ok r in
    elim (allocate-outcome s.allocator v.right i) [
      | inl (f, _) ↦ absurd (cc (sym e ∙ ap (λ t. t.0) f))
      | inr (start', f, t) ↦ allocated-IsOwned boot kernel_end s start (allocate s.allocator).1 v (
          subst (λ x. Takes x s.allocator (allocate s.allocator).1) (some-injective _ _ (sym f ∙ e))
            t)
    ]
Reach-IsOwned {boot} {kernel_end} ok (freed s i start r e) =
    freed-IsOwned boot kernel_end s i start (Reach-IsOwned ok r) e
Reach-IsOwned {boot} {kernel_end} ok (reserved s start end r b) =
    reserved-IsOwned boot kernel_end s start end (Reach-IsOwned ok r) b
