-- ===== src/Frames/Bitmap.antt =====
-- The bitmap of kernel/src/memory/frame_allocator.rs read as one bit per frame, and its clear bits
-- counted.
use ristux.Common.{
  ℕ, zero, suc, ◌+◌, ◌/◌, ◌%◌, ◌<◌, ◌≡◌, ◌≢◌, ◌∙◌, refl, sym, ap, Bool, true, ◌==◌, if◌then◌else◌,
  Bool-cases, inl, inr, List, [], ◌∷◌, get_or, set, length, length-set, All, All-set, ==_iff, arith,
}
use ristux.Frames.{bitmap_words, bit_at, with_bit}
use ristux.Refcount.{repeat}

-- Words of 64 bits.
pub record IsBitmap (bitmap : List (List Bool)) : Type 0 where
  pub words : length bitmap ≡ bitmap_words
  pub bits : All (λ (w : List Bool). length w ≡ 64) bitmap

module _ {ℓ} {A : Type ℓ} where
  pub get_or-set_self :
      (xs : List A) (i : ℕ) (v d : A) → i < length xs → get_or (set xs i v) i d ≡ v
  get_or-set_self [] i v d h = absurd (omega (arith, h))
  get_or-set_self (x ∷ xs) zero v d h = refl
  get_or-set_self (x ∷ xs) (suc i) v d h = get_or-set_self xs i v d (omega (arith, h))

  pub get_or-set_ne :
      (xs : List A) (i j : ℕ) (v d : A) → i ≢ j → get_or (set xs i v) j d ≡ get_or xs j d
  get_or-set_ne [] i j v d h = refl
  get_or-set_ne (x ∷ xs) zero zero v d h = absurd (h refl)
  get_or-set_ne (x ∷ xs) zero (suc j) v d h = refl
  get_or-set_ne (x ∷ xs) (suc i) zero v d h = refl
  get_or-set_ne (x ∷ xs) (suc i) (suc j) v d h = get_or-set_ne xs i j v d (λ e. h (ap suc e))

  pub All-get_or {κ} :
      (P : A → Type κ) (xs : List A) (i : ℕ) (d : A) → i < length xs → All P xs → P (get_or xs i d)
  All-get_or P [] i d h a = absurd (omega (arith, h))
  All-get_or P (x ∷ xs) zero d h a = a.0
  All-get_or P (x ∷ xs) (suc i) d h a = All-get_or P xs i d (omega (arith, h)) a.1

  pub All-repeat {κ} : (P : A → Type κ) (n : ℕ) (x : A) → P x → All P (repeat n x)
  unfolding repeat
  All-repeat P zero x p = tt
  All-repeat P (suc n) x p = (p, All-repeat P n x p)

  pub length-repeat : (n : ℕ) (x : A) → length (repeat n x) ≡ n
  unfolding repeat
  length-repeat zero x = refl
  length-repeat (suc n) x = ap suc (length-repeat n x)

  pub get_or-repeat : (n i : ℕ) (x : A) → get_or (repeat n x) i x ≡ x
  unfolding repeat
  get_or-repeat zero i x = refl
  get_or-repeat (suc n) zero x = refl
  get_or-repeat (suc n) (suc i) x = get_or-repeat n i x

-- The clear bits of a word and of the bitmap.
abbrev pub clear_bits : List Bool → ℕ
clear_bits [] = 0
clear_bits (b ∷ bs) = (if b then 0 else 1) + clear_bits bs

abbrev pub clear_words : List (List Bool) → ℕ
clear_words [] = 0
clear_words (w ∷ ws) = clear_bits w + clear_words ws

abbrev one_if_clear : Bool → ℕ
one_if_clear b = if b then 0 else 1

clear_bits-set :
    (w : List Bool) (i : ℕ) (b : Bool)
    → i < length w
    → clear_bits (set w i b) + one_if_clear (get_or w i true) ≡ clear_bits w + one_if_clear b
clear_bits-set [] i b h = absurd (omega (arith, h))
clear_bits-set (c ∷ w) zero b h = omega arith
clear_bits-set (c ∷ w) (suc i) b h = omega (arith, clear_bits-set w i b (omega (arith, h)))

clear_words-set :
    (ws : List (List Bool)) (i : ℕ) (w : List Bool)
    → i < length ws
    → clear_words (set ws i w) + clear_bits (get_or ws i []) ≡ clear_words ws + clear_bits w
clear_words-set [] i w h = absurd (omega (arith, h))
clear_words-set (v ∷ ws) zero w h = omega arith
clear_words-set (v ∷ ws) (suc i) w h = omega (arith, clear_words-set ws i w (omega (arith, h)))

module _ (bitmap : List (List Bool)) (index : ℕ) (h : index / 64 < bitmap_words)
    (v : IsBitmap bitmap) where
  word_length : length (get_or bitmap (index / 64) []) ≡ 64
  word_length =
      All-get_or (λ (w : List Bool). length w ≡ 64) bitmap (index / 64) []
        (omega (arith, h, v.words)) v.bits

  pub with_bit_self : (b : Bool) → bit_at (with_bit bitmap index b) index ≡ b
  with_bit_self b =
      ap (λ w. get_or w (index % 64) true)
        (get_or-set_self bitmap (index / 64) (set (get_or bitmap (index / 64) []) (index % 64) b) []
          (omega (arith, h, v.words)))
      ∙ get_or-set_self (get_or bitmap (index / 64) []) (index % 64) b true
          (omega (arith, word_length))

  pub with_bit_other :
      (b : Bool) (j : ℕ) → index ≢ j → bit_at (with_bit bitmap index b) j ≡ bit_at bitmap j
  with_bit_other b j ne = elim (Bool-cases (index / 64 == j / 64)) [
    | inr f ↦
        ap (λ w. get_or w (j % 64) true)
          (get_or-set_ne bitmap (index / 64) (j / 64)
            (set (get_or bitmap (index / 64) []) (index % 64) b) [] (λ e. ground (arith, e, f)))
    | inl f ↦
        let e : index / 64 ≡ j / 64 = (==_iff (index / 64) (j / 64)).0 f in
        ap (λ i. get_or (get_or (with_bit bitmap index b) i []) (j % 64) true) (sym e)
        ∙ ap (λ w. get_or w (j % 64) true)
            (get_or-set_self bitmap (index / 64)
              (set (get_or bitmap (index / 64) []) (index % 64) b) [] (omega (arith, h, v.words)))
        ∙ get_or-set_ne (get_or bitmap (index / 64) []) (index % 64) (j % 64) b true
            (λ k. ne (omega (arith, e, k)))
        ∙ ap (λ i. get_or (get_or bitmap i []) (j % 64) true) e
  ]

  pub with_bit-IsBitmap : (b : Bool) → IsBitmap (with_bit bitmap index b)
  with_bit-IsBitmap b = record {
    words = length-set bitmap (index / 64) _ ∙ v.words;
    bits =
        All-set (λ (w : List Bool). length w ≡ 64) bitmap (index / 64) _ v.bits
          (length-set (get_or bitmap (index / 64) []) (index % 64) b ∙ word_length);
  }

  -- What the write of a bit changes in the count.
  pub clear_words-with_bit :
      (b : Bool)
      → clear_words (with_bit bitmap index b) + one_if_clear (bit_at bitmap index)
        ≡ clear_words bitmap + one_if_clear b
  clear_words-with_bit b = omega (
    arith,
    clear_words-set bitmap (index / 64) (set (get_or bitmap (index / 64) []) (index % 64) b)
        (omega (arith, h, v.words)),
    clear_bits-set (get_or bitmap (index / 64) []) (index % 64) b (omega (arith, word_length)),
  )
