-- ===== src/Tty/Lines/Reads.antt =====
-- A read in canonical mode gives the editor's answer and takes the same bytes.
use mathlib.Core.Path.{subst}
use ristux.Common.{
  ℕ, zero, suc, ◌+◌, min, ◌≤◌, ◌≡◌, ◌∙◌, refl, sym, ap, Bool, true, false, ◌==◌, Bool-cases,
  if◌then◌else◌, ◌⊎◌, inl, inr, Option, none, some, List, [], ◌∷◌, ◌++◌, length, take, drop,
  position_from, All, arith,
}
use ristux.Tty.{Tty, newline, is_empty}
use ristux.Tty.Reader.{
  drain_prefix, trim_newline, read_line_buffer, read_ready, read_canonical, read_available_at,
}
use ristux.Tty.Lines.{concat, Editor, line_length, fetch, view, IsText, IsLine, IsCanonical, Kept}

-- The answer of a read is the editor's, and so is what it leaves.
pub record Answers (tty : Tty) (r : Option (List ℕ) × Tty) (f : Option (List ℕ) × Editor)
    : Type 0 where
  pub answer : r.0 ≡ f.0
  pub kept : Kept tty r.1 f.1

line_length-text :
    (text more : List ℕ) → All IsText text → line_length (text ++ (10 ∷ more)) ≡ length text + 1
line_length-text [] more h = refl
line_length-text (x ∷ xs) more h = rw h.0 (omega (arith, line_length-text xs more h.1))

length-text : (text : List ℕ) → length (text ++ (10 ∷ [])) ≡ length text + 1
length-text [] = refl
length-text (x ∷ xs) = omega (arith, length-text xs)

assoc_text : (text more : List ℕ) → (text ++ (10 ∷ [])) ++ more ≡ text ++ (10 ∷ more)
assoc_text [] more = refl
assoc_text (x ∷ xs) more = ap (λ t. x ∷ t) (assoc_text xs more)

line_length-IsLine : (l more : List ℕ) → IsLine l → line_length (l ++ more) ≡ length l
line_length-IsLine l more (text, h, e) =
    rw (e, assoc_text text more) (line_length-text text more h ∙ sym (length-text text))

take-within : (n : ℕ) (xs ys : List ℕ) → n ≤ length xs → take n (xs ++ ys) ≡ take n xs
take-within zero xs ys h = refl
take-within (suc n) [] ys h = absurd (omega (arith, h))
take-within (suc n) (x ∷ xs) ys h = ap (λ t. x ∷ t) (take-within n xs ys (omega (arith, h)))

drop-within : (n : ℕ) (xs ys : List ℕ) → n ≤ length xs → drop n (xs ++ ys) ≡ drop n xs ++ ys
drop-within zero xs ys h = refl
drop-within (suc n) [] ys h = absurd (omega (arith, h))
drop-within (suc n) (x ∷ xs) ys h = drop-within n xs ys (omega (arith, h))

drop-nil : (n : ℕ) → drop {A = ℕ} n [] ≡ []
drop-nil zero = refl
drop-nil (suc n) = refl

drop-IsLine :
    (n : ℕ) (text : List ℕ)
    → All IsText text
    → (drop n (text ++ (10 ∷ [])) ≡ []) ⊎ IsLine (drop n (text ++ (10 ∷ [])))
drop-IsLine zero text h = inr (text, h, refl)
drop-IsLine (suc n) [] h = inl (drop-nil n)
drop-IsLine (suc n) (x ∷ xs) h = drop-IsLine n xs h.1

abbrev put_back : List ℕ → List (List ℕ) → List (List ℕ)
put_back rest later = if is_empty rest then later else rest ∷ later

concat-put_back :
    (rest : List ℕ) (later : List (List ℕ)) → concat (put_back rest later) ≡ rest ++ concat later
concat-put_back [] later = refl
concat-put_back (x ∷ rest) later = refl

put_back-IsLine :
    (rest : List ℕ) (later : List (List ℕ))
    → (rest ≡ []) ⊎ IsLine rest
    → All IsLine later
    → All IsLine (put_back rest later)
put_back-IsLine [] later h k = k
put_back-IsLine (x ∷ rest) later (inl e) k = absurd (cc e)
put_back-IsLine (x ∷ rest) later (inr h) k = (h, k)

first_byte : (l : List ℕ) → IsLine l → (b : ℕ) × (bs : List ℕ) × (l ≡ b ∷ bs)
first_byte [] ([], h, e) = absurd (cc e)
first_byte [] (t ∷ ts, h, e) = absurd (cc e)
first_byte (x ∷ xs) h = (x, xs, refl)

position-none :
    (i : ℕ) (xs : List ℕ) → All IsText xs → position_from i (λ b. b == newline) xs ≡ none
position-none i [] h = refl
position-none i (x ∷ xs) h = rw h.0 (position-none (suc i) xs h.1)

read_line_buffer-none :
    (max_len : ℕ) (tty : Tty) → IsCanonical tty → read_line_buffer max_len tty ≡ (none, tty)
unfolding read_line_buffer
read_line_buffer-none max_len tty v =
    ap
      (λ o. elim o as (λ x. Option (List ℕ) × Tty) [
        | none ↦ (none, tty)
        | some at ↦ (
          some (trim_newline (take (min (at + 1) max_len) tty.line)),
          record tty { line = drop (min (at + 1) max_len) tty.line },
        )
      ])
      (position-none 0 tty.line v.whole)

-- A read of part of the first line.
part-Answers :
    (n : ℕ) (tty : Tty) (front : List ℕ) (later : List (List ℕ))
    → n ≤ length front
    → IsCanonical (record tty { ready = front ∷ later })
    → Answers
        (record tty { ready = front ∷ later })
        (some (take n front), record tty { ready = put_back (drop n front) later })
        (
          some (take n (front ++ concat later)),
          record (view tty) { unread = drop n (front ++ concat later) },
        )
part-Answers n tty front later h v =
    let (text, k, e) = v.lines.0 in
    record {
      answer = ap some (sym (take-within n front (concat later) h));
      kept = record {
        canonical = record {
          enabled = v.enabled;
          whole = v.whole;
          lines =
              put_back-IsLine (drop n front) later
                (subst (λ l. (drop n l ≡ []) ⊎ IsLine (drop n l)) (sym e) (drop-IsLine n text k))
                v.lines.1;
        };
        shown =
            ap (λ u. record (view tty) { unread = u })
              (concat-put_back (drop n front) later ∙ sym (drop-within n front (concat later) h));
        termios = refl;
      };
    }

-- A read with nothing ready.
empty-Answers :
    (max_len : ℕ) (tty : Tty) (ended : Bool)
    → (max_len == 0) ≡ false
    → IsCanonical (record tty { ready = []; eof = ended })
    → Answers
        (record tty { ready = []; eof = ended })
        (read_canonical max_len (record tty { ready = []; eof = ended }))
        (fetch max_len (view (record tty { ready = []; eof = ended })))
unfolding read_canonical fetch
empty-Answers max_len tty true z v = rw z (record {
  answer = refl;
  kept = record {
    canonical = record { enabled = v.enabled; whole = v.whole; lines = tt };
    shown = refl;
    termios = refl;
  };
})
empty-Answers max_len tty false z v =
    rw (z, read_line_buffer-none max_len (record tty { ready = []; eof = false }) v)
      (record { answer = refl; kept = record { canonical = v; shown = refl; termios = refl } })

read_canonical-Answers :
    (max_len : ℕ) (tty : Tty) (ls : List (List ℕ))
    → (max_len == 0) ≡ false
    → IsCanonical (record tty { ready = ls })
    → Answers
        (record tty { ready = ls })
        (read_canonical max_len (record tty { ready = ls }))
        (fetch max_len (view (record tty { ready = ls })))
unfolding read_canonical read_ready drain_prefix fetch
read_canonical-Answers max_len tty [] z v = empty-Answers max_len tty tty.eof z v
read_canonical-Answers max_len tty ([] ∷ later) z v =
    let (b, bs, e) = first_byte [] v.lines.0 in absurd (cc e)
read_canonical-Answers max_len tty ((x ∷ xs) ∷ later) z v =
    rw (z, line_length-IsLine (x ∷ xs) (concat later) v.lines.0)
      (part-Answers (min (length (x ∷ xs)) max_len) tty (x ∷ xs) later (omega arith) v)

pub read-Answers :
    (now_ms max_len : ℕ) (expired : Bool) (tty : Tty)
    → IsCanonical tty
    → Answers tty (read_available_at now_ms expired max_len tty) (fetch max_len (view tty))
unfolding read_available_at fetch
read-Answers now_ms max_len expired tty v = elim (Bool-cases (max_len == 0)) [
  | inl z ↦
      rw z (record { answer = refl; kept = record { canonical = v; shown = refl; termios = refl } })
  | inr z ↦ rw (z, v.enabled) (rw z at (read_canonical-Answers max_len tty tty.ready z v))
]
