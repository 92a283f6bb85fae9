-- ===== src/Refcount/Counts.antt =====
-- The sparse table stands for one count per frame, 1 where there is no chunk.
use ristux.Common.{
  ℕ, zero, suc, ◌/◌, ◌%◌, ◌<◌, ◌≡◌, ◌≢◌, ◌∙◌, refl, sym, ap, false, ◌==◌, ==_iff, Bool-cases, inl,
  inr, if◌then◌else◌, Option, none, some, List, [], ◌∷◌, length, get_elem?, set, get_or, All,
  get_elem?-set_ne, get_elem?-set_self, arith,
}
use ristux.Refcount.{
  RefcountTable, chunk_size, root_entries, get_chunk, store_chunk, count_in, with_count, repeat,
}

abbrev pub ChunkIsValid : Option (List ℕ) → Type 0
ChunkIsValid none = Unit
ChunkIsValid (some c) = length c ≡ chunk_size

-- As many entries as 16 GiB need, each with a whole chunk or none.
pub record TableIsValid (t : RefcountTable) : Type 0 where
  pub entries : length t.root ≡ root_entries
  pub chunks : All ChunkIsValid t.root

length-repeat {ℓ} : {A : Type ℓ} (n : ℕ) (x : A) → length (repeat n x) ≡ n
unfolding repeat
length-repeat zero x = refl
length-repeat (suc n) x = ap suc (length-repeat n x)

get_or-repeat : (n i x d : ℕ) → i < n → get_or (repeat n x) i d ≡ x
unfolding repeat
get_or-repeat zero i x d h = absurd (omega arith)
get_or-repeat (suc n) zero x d h = refl
get_or-repeat (suc n) (suc i) x d h = get_or-repeat n i x d (omega arith)

get_or-set_self : (c : List ℕ) (i v d : ℕ) → i < length c → get_or (set c i v) i d ≡ v
get_or-set_self [] i v d h = absurd (omega arith)
get_or-set_self (x ∷ c) zero v d h = refl
get_or-set_self (x ∷ c) (suc i) v d h = get_or-set_self c i v d (omega arith)

get_or-set_ne : (c : List ℕ) (i j v d : ℕ) → i ≢ j → get_or (set c i v) j d ≡ get_or c j d
get_or-set_ne [] i j v d h = refl
get_or-set_ne (x ∷ c) zero zero v d h = absurd (h refl)
get_or-set_ne (x ∷ c) zero (suc j) v d h = refl
get_or-set_ne (x ∷ c) (suc i) zero v d h = refl
get_or-set_ne (x ∷ c) (suc i) (suc j) v d h = get_or-set_ne c i j v d (λ e. h (ap suc e))

in_range {ℓ} :
    {A : Type ℓ} (xs : List A) (i : ℕ) → i < length xs → (x : A) × (get_elem? xs i ≡ some x)
in_range [] i h = absurd (omega arith)
in_range (x ∷ xs) zero h = (x, refl)
in_range (x ∷ xs) (suc i) h = in_range xs i (omega arith)

abbrev pub entry : Option (Option (List ℕ)) → Option (List ℕ)
entry o = elim o [ none ↦ none | some c ↦ c ]

-- The chunk of the frame that is written, and the chunk of a frame of another chunk.
pub get_chunk-store_self :
    (t : RefcountTable) (frame other : ℕ) (c : List ℕ)
    → TableIsValid t
    → frame / chunk_size < root_entries
    → frame / chunk_size ≡ other / chunk_size
    → get_chunk (store_chunk t frame c) other ≡ some c
unfolding get_chunk store_chunk
get_chunk-store_self t frame other c v h e =
    let (x, found) = in_range t.root (frame / chunk_size) (omega (arith, v.entries)) in
    ap (λ n. entry (get_elem? (set t.root (frame / chunk_size) (some c)) n)) (sym e)
    ∙ ap entry (get_elem?-set_self t.root (frame / chunk_size) (some c) x found)

get_chunk-store_ne :
    (t : RefcountTable) (frame other : ℕ) (c : List ℕ)
    → frame / chunk_size ≢ other / chunk_size
    → get_chunk (store_chunk t frame c) other ≡ get_chunk t other
unfolding get_chunk store_chunk
get_chunk-store_ne t frame other c h =
    ap entry (get_elem?-set_ne t.root (frame / chunk_size) (other / chunk_size) (some c) h)

-- The count of a frame, from its chunk.
abbrev pub from_chunk : Option (List ℕ) → ℕ → ℕ
from_chunk o frame = elim o [ none ↦ 1 | some c ↦ count_in c frame ]

-- The chunk that an operation on the frame works on: the table's own, or a new one.
pub data ChunkOf (t : RefcountTable) (frame : ℕ) (c : List ℕ) : Type 0 where
  present : get_chunk t frame ≡ some c → length c ≡ chunk_size → ChunkOf t frame c
  fresh : get_chunk t frame ≡ none → c ≡ repeat chunk_size 1 → ChunkOf t frame c

pub ChunkOf-length :
    {t : RefcountTable} {frame : ℕ} {c : List ℕ} → ChunkOf t frame c → length c ≡ chunk_size
ChunkOf-length (present e l) = l
ChunkOf-length (fresh e r) = ap length r ∙ length-repeat chunk_size 1

pub slot_lt : (frame : ℕ) → frame % chunk_size < chunk_size
slot_lt frame = omega arith

pub ChunkOf-count :
    {t : RefcountTable} {frame : ℕ} {c : List ℕ} (other : ℕ)
    → ChunkOf t frame c
    → frame / chunk_size ≡ other / chunk_size
    → from_chunk (get_chunk t other) other ≡ count_in c other
unfolding get_chunk
ChunkOf-count {t} other (present e l) s =
    ap (λ n. from_chunk (entry (get_elem? t.root n)) other) (sym s) ∙ ap (λ o. from_chunk o other) e
ChunkOf-count {t} other (fresh e r) s =
    ap (λ n. from_chunk (entry (get_elem? t.root n)) other) (sym s)
    ∙ ap (λ o. from_chunk o other) e
    ∙ sym (get_or-repeat chunk_size (other % chunk_size) 1 0 (slot_lt other))
    ∙ ap (λ d. count_in d other) (sym r)

abbrev pub updated : RefcountTable → ℕ → ℕ → ℕ → ℕ
updated t frame val other = if frame == other then val else from_chunk (get_chunk t other) other

same_frame :
    (frame other : ℕ)
    → frame / chunk_size ≡ other / chunk_size
    → frame % chunk_size ≡ other % chunk_size
    → frame ≡ other
same_frame frame other d m = omega arith

other_chunk :
    (frame other : ℕ)
    → (frame / chunk_size == other / chunk_size) ≡ false
    → (frame == other) ≡ false
other_chunk frame other d = ground (arith, d)

slot_ne :
    (frame other : ℕ)
    → frame / chunk_size ≡ other / chunk_size
    → (frame == other) ≡ false
    → frame % chunk_size ≢ other % chunk_size
slot_ne frame other d f m = ground (arith, same_frame frame other d m, f)

within_chunk :
    (t : RefcountTable) (frame val other : ℕ) (c : List ℕ)
    → ChunkOf t frame c
    → frame / chunk_size ≡ other / chunk_size
    → count_in (set c (frame % chunk_size) val) other ≡ updated t frame val other
within_chunk t frame val other c k d = elim (Bool-cases (frame == other)) [
  | inr f ↦ rw f (
      get_or-set_ne c (frame % chunk_size) (other % chunk_size) val 0 (slot_ne frame other d f)
      ∙ sym (ChunkOf-count other k d))
  | inl f ↦ rw f (
      ap (λ n. get_or (set c (frame % chunk_size) val) (n % chunk_size) 0)
        (sym ((==_iff frame other).0 f))
      ∙ get_or-set_self c (frame % chunk_size) val 0
          (omega (arith, ChunkOf-length k, slot_lt frame)))
]

pub with_count_lem :
    (t : RefcountTable) (frame val other : ℕ) (c : List ℕ)
    → TableIsValid t
    → frame / chunk_size < root_entries
    → ChunkOf t frame c
    → from_chunk (get_chunk (with_count t c frame val) other) other ≡ updated t frame val other
with_count_lem t frame val other c v h k =
    elim (Bool-cases (frame / chunk_size == other / chunk_size)) [
      | inr d ↦
          ap (λ o. from_chunk o other)
            (get_chunk-store_ne t frame other (set c (frame % chunk_size) val)
              (λ e. ground (arith, d, e)))
          ∙ ap (λ b. if b then val else from_chunk (get_chunk t other) other)
              (sym (other_chunk frame other d))
      | inl d ↦
          ap (λ o. from_chunk o other)
            (get_chunk-store_self t frame other (set c (frame % chunk_size) val) v h
              ((==_iff _ _).0 d))
          ∙ within_chunk t frame val other c k ((==_iff _ _).0 d)
    ]
