-- ===== src/Frames/Allocate.antt =====
-- kernel/src/memory/frame_allocator.rs: `allocate` takes the lowest free frame.
use ristux.Common.{
  ℕ, zero, suc, ◌+◌, ◌*◌, ◌/◌, ◌%◌, ◌≤◌, ◌<◌, ◌≡◌, refl, Bool, true, false, leb, ltb, Bool-cases,
  ◌⊎◌, inl, inr, Option, none, some, List, [], ◌∷◌, get_or, length, min, arith,
}
use ristux.Refcount.{frame_size}
use ristux.Frames.{
  FrameAllocator, max_frames, bitmap_words, bit_at, is_full, lowest_clear, take_frame,
  allocate_from, allocate,
}
use ristux.Frames.Bitmap.{All-get_or}
use ristux.Frames.Counts.{IsCounted, Writes, set_used-Writes}

is_full-bits : (w : List Bool) (k : ℕ) → is_full w ≡ true → get_or w k true ≡ true
is_full-bits [] k h = refl
is_full-bits (b ∷ w) zero h = ground (arith, h)
is_full-bits (b ∷ w) (suc k) h = is_full-bits w k (ground (arith, h))

-- The lowest clear bit of a word that is not full.
lowest_clear_lem :
    (i : ℕ) (w : List Bool)
    → is_full w ≡ false
    → (k : ℕ) × (lowest_clear i w ≡ i + k)
      × (k < length w)
      × (get_or w k true ≡ false)
      × ((m : ℕ) → m < k → get_or w m true ≡ true)
lowest_clear_lem i [] h = cc
lowest_clear_lem i (false ∷ w) h =
    (0, omega arith, omega arith, refl, λ m l. absurd (omega (arith, l)))
lowest_clear_lem i (true ∷ w) h =
    let (k, e, l, c, below) = lowest_clear_lem (suc i) w h in
    (suc k, omega (arith, e), omega (arith, l), c, go k below)
  where
    go :
        (k : ℕ)
        → ((m : ℕ) → m < k → get_or w m true ≡ true)
        → (m : ℕ) → m < suc k
        → get_or (true ∷ w) m true ≡ true
    go k below zero l = refl
    go k below (suc m) l = below m (omega (arith, l))

-- The frames below this number are in use.
abbrev pub UsedBelow : ℕ → FrameAllocator → Type 0
UsedBelow n a = (j : ℕ) → j < n → bit_at a.bitmap j ≡ true

-- What is handed out, the lowest free frame, and what is left.
pub record Takes (start : ℕ) (a after : FrameAllocator) : Type 0 where
  pub index : ℕ
  pub start_of : start ≡ index * frame_size
  pub in_range : index < a.max_frame
  pub in_bitmap : index < max_frames
  pub was_free : bit_at a.bitmap index ≡ false
  pub lowest : UsedBelow index a
  pub writes : Writes index true a after

abbrev pub Allocates : Option ℕ × FrameAllocator → FrameAllocator → ℕ → Type 0
Allocates r a n =
    ((r ≡ (none, a)) × UsedBelow n a) ⊎ ((start : ℕ) × (r.0 ≡ some start) × Takes start a r.1)

UsedBelow-word :
    (i : ℕ) (a : FrameAllocator)
    → UsedBelow (i * 64) a
    → is_full (get_or a.bitmap i []) ≡ true
    → UsedBelow (suc i * 64) a
UsedBelow-word i a u f j l = elim (Bool-cases (ltb j (i * 64))) [
  | inl e ↦ u j (ground (arith, e))
  | inr e ↦
      let q : j / 64 ≡ i = ground (arith, l, e) in
      rw q (is_full-bits (get_or a.bitmap i []) (j % 64) f)
]

-- `take_frame` at the lowest clear bit of the first word that is not full.
take_frame-Allocates :
    (i n : ℕ) (a : FrameAllocator)
    → IsCounted a
    → i < bitmap_words
    → n ≤ a.max_frame
    → UsedBelow (i * 64) a
    → is_full (get_or a.bitmap i []) ≡ false
    → Allocates (take_frame (i * 64 + lowest_clear 0 (get_or a.bitmap i [])) a) a n
take_frame-Allocates i n a v h m u f =
    let (k, e, l, c, below) = lowest_clear_lem 0 (get_or a.bitmap i []) f in
    let w : length (get_or a.bitmap i []) ≡ 64 =
      All-get_or (λ (w : List Bool). length w ≡ 64) a.bitmap i [] (omega (arith, h, v.shape.words))
        v.shape.bits in
    let q : (i * 64 + k) / 64 ≡ i = omega (arith, l, w) in
    let r : (i * 64 + k) % 64 ≡ k = omega (arith, l, w) in
    let used : UsedBelow (i * 64 + k) a = λ j b. elim (Bool-cases (ltb j (i * 64))) [
      | inl t ↦ u j (ground (arith, t))
      | inr t ↦
          let q' : j / 64 ≡ i = ground (arith, b, t, l, w) in
          rw q' (below (j % 64) (ground (arith, b, t, q')))
    ] in
    let e' : lowest_clear 0 (get_or a.bitmap i []) ≡ k = omega (arith, e) in
    rw e' (elim (Bool-cases (leb a.max_frame (i * 64 + k))) [
      | inl t ↦ rw t (inl (refl, λ j b. used j (ground (arith, t, b, m))))
      | inr t ↦ rw t (
          inr (
            (i * 64 + k) * frame_size,
            refl,
            record {
              index = i * 64 + k;
              start_of = refl;
              in_range = ground (arith, t);
              in_bitmap = omega (arith, l, w, h);
              was_free = rw (q, r) c;
              lowest = used;
              writes = set_used-Writes (i * 64 + k) a (omega (arith, l, w, h)) v;
            },
          ))
    ])

allocate_from-Allocates :
    (rounds i n : ℕ) (a : FrameAllocator)
    → IsCounted a
    → i + rounds ≤ bitmap_words
    → n ≤ a.max_frame
    → n ≤ (i + rounds) * 64
    → UsedBelow (i * 64) a
    → Allocates (allocate_from rounds i a) a n
unfolding allocate_from
allocate_from-Allocates zero i n a v h m r u = inl (refl, λ j b. u j (omega (arith, b, r)))
allocate_from-Allocates (suc rounds) i n a v h m r u =
    elim (Bool-cases (is_full (get_or a.bitmap i []))) [
      | inl f ↦
          rw (f, allocate_from)
            (allocate_from-Allocates rounds (suc i) n a v (omega (arith, h)) m (omega (arith, r))
              (UsedBelow-word i a u f))
      | inr f ↦ rw (f, allocate_from) (take_frame-Allocates i n a v (omega (arith, h)) m u f)
    ]

-- On an initialized allocator whose count is that of its clear bits, `allocate` either fails, changing
-- nothing, and then every frame below the highest is in use, or it hands out the start of the lowest
-- free frame below the highest, and then just that frame's bit is set and the count is again that of
-- the clear bits.
pub allocate-outcome :
    (a : FrameAllocator)
    → IsCounted a
    → a.initialized ≡ true
    → Allocates (allocate a) a (min a.max_frame max_frames)
unfolding allocate
allocate-outcome a v i = simp i (
    allocate_from-Allocates (min ((a.max_frame + 63) / 64) bitmap_words) 0
      (min a.max_frame max_frames) a v (omega arith) (omega arith) (omega arith)
      (λ j b. absurd (omega (arith, b))))
