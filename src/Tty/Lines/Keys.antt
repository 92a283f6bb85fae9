-- ===== src/Tty/Lines/Keys.antt =====
-- A key does to the terminal what it does to the line editor.
use ristux.Common.{
  ℕ, zero, suc, get_elem?, ◌-◌, ◌≡◌, ◌∙◌, refl, sym, ap, true, false, ◌==◌, Bool-cases,
  if◌then◌else◌, inl, inr, Option, none, some, List, [], ◌∷◌, ◌++◌, length, take, get_or, has_flag,
  All, All-append, arith,
}
use ristux.Signal.{Signal, int, tstp}
use ristux.Tty.{
  Tty, Termios, veof, verase, vintr, vsusp, is_control_char, is_erase_byte, pop, canonical_input,
  signal_for, input,
}
use ristux.Tty.Lines.{
  concat, Editor, is_key, is_signal_key, is_erase_key, is_end_key, press, view, IsText, IsLine,
  IsCanonical, Kept,
}

append_assoc : (xs ys zs : List ℕ) → (xs ++ ys) ++ zs ≡ xs ++ (ys ++ zs)
append_assoc [] ys zs = refl
append_assoc (x ∷ xs) ys zs = ap (λ t. x ∷ t) (append_assoc xs ys zs)

append_nil : (xs : List ℕ) → xs ++ [] ≡ xs
append_nil [] = refl
append_nil (x ∷ xs) = ap (λ t. x ∷ t) (append_nil xs)

concat-snoc : (ls : List (List ℕ)) (l : List ℕ) → concat (ls ++ (l ∷ [])) ≡ concat ls ++ l
concat-snoc [] l = append_nil l
concat-snoc (m ∷ ls) l = ap (λ t. m ++ t) (concat-snoc ls l) ∙ sym (append_assoc m (concat ls) l)

All-pop : (xs : List ℕ) → All IsText xs → All IsText (pop xs)
All-pop [] h = h
All-pop (x ∷ []) h = tt
All-pop (x ∷ y ∷ ys) h = (h.0, All-pop (y ∷ ys) h.1)

pop_lem : (xs : List ℕ) → pop xs ≡ take (length xs - 1) xs
pop_lem [] = refl
pop_lem (x ∷ []) = refl
pop_lem (x ∷ y ∷ ys) =
    let e : suc (suc (length ys)) - 1 ≡ suc (suc (length ys) - 1) = omega arith in
    rw e (ap (λ t. x ∷ t) (pop_lem (y ∷ ys)))

character :
    (cc : List ℕ) (i : ℕ) → (elim (get_elem? cc i) [ none ↦ 0 | some b ↦ b ]) ≡ get_or cc i 0
character [] i = refl
character (x ∷ xs) zero = refl
character (x ∷ xs) (suc i) = character xs i

is_control_char_lem : (tty : Tty) (i b : ℕ) → is_control_char tty i b ≡ is_key tty.termios i b
is_control_char_lem tty i b = ground (arith, character tty.termios.cc i)

is_erase_byte_lem : (tty : Tty) (b : ℕ) → is_erase_byte tty b ≡ is_erase_key tty.termios b
is_erase_byte_lem tty b = ground (arith, is_control_char_lem tty verase b)

canonical_input-Kept :
    (tty : Tty) (b : ℕ)
    → IsCanonical tty
    → is_signal_key tty.termios b ≡ false
    → Kept tty (canonical_input tty b) (press tty.termios (view tty) b)
unfolding canonical_input press
canonical_input-Kept tty b v quiet =
    rw (quiet, is_control_char_lem tty veof b, is_erase_byte_lem tty b)
      (elim (Bool-cases (is_end_key tty.termios b)) [
        | inl c ↦ rw c (record {
          canonical = record { enabled = v.enabled; whole = v.whole; lines = v.lines };
          shown = refl;
          termios = refl;
        })
        | inr c ↦ elim (Bool-cases (is_erase_key tty.termios b)) [
          | inl d ↦
              rw (c, d)
                (record {
                  canonical = record {
                    enabled = v.enabled;
                    whole = All-pop tty.line v.whole;
                    lines = v.lines;
                  };
                  shown = ap (λ l. record (view tty) { typing = l }) (pop_lem tty.line);
                  termios = refl;
                })
          | inr d ↦ elim (Bool-cases (b == 10)) [
            | inl n ↦
                rw (c, d, n)
                  (record {
                    canonical = record {
                      enabled = v.enabled;
                      whole = tt;
                      lines =
                          All-append IsLine tty.ready ((tty.line ++ (10 ∷ [])) ∷ []) v.lines
                            ((tty.line, v.whole, refl), tt);
                    };
                    shown =
                        ap (λ u. record (view tty) { unread = u; typing = [] })
                          (concat-snoc tty.ready (tty.line ++ (10 ∷ [])));
                    termios = refl;
                  })
            | inr n ↦
                rw (c, d, n)
                  (record {
                    canonical = record {
                      enabled = v.enabled;
                      whole = All-append IsText tty.line (b ∷ []) v.whole (n, tt);
                      lines = v.lines;
                    };
                    shown = refl;
                    termios = refl;
                  })
          ]
        ]
      ])

signal_for_lem :
    (tty : Tty) (b : ℕ)
    → signal_for tty b ≡ (
        if is_signal_key tty.termios b
        then some (if is_key tty.termios 0 b then int else tstp)
        else none)
unfolding signal_for
signal_for_lem tty b =
    rw (is_control_char_lem tty vintr b, is_control_char_lem tty vsusp b)
      (elim (Bool-cases (is_key tty.termios 0 b)) [
        | inl c ↦ elim (Bool-cases (has_flag tty.termios.lflag 1)) [
          | inl d ↦ rw (c, d) refl
          | inr d ↦ rw (c, d) refl
        ]
        | inr c ↦ elim (Bool-cases (has_flag tty.termios.lflag 1)) [
          | inl d ↦
              rw (c, d)
                (elim (Bool-cases (is_key tty.termios 10 b)) [
                  | inl e ↦ rw e refl
                  | inr e ↦ rw e refl
                ])
          | inr d ↦ rw (c, d) refl
        ]
      ])

input_state :
    (now_ms b : ℕ) (tty : Tty) (o : Option Signal)
    → signal_for tty b ≡ o
    → IsCanonical tty
    → (input now_ms tty b).0 ≡ (elim o [ none ↦ canonical_input tty b | some s ↦ tty ])
unfolding input
input_state now_ms b tty none e v = rw (e, input, v.enabled) refl
input_state now_ms b tty (some s) e v = rw (e, input) refl

press-signal : (t : Termios) (e : Editor) (b : ℕ) → is_signal_key t b ≡ true → press t e b ≡ e
unfolding press
press-signal t e b h = rw h refl

pub input-Kept :
    (now_ms b : ℕ) (tty : Tty)
    → IsCanonical tty
    → Kept tty (input now_ms tty b).0 (press tty.termios (view tty) b)
input-Kept now_ms b tty v = elim (Bool-cases (is_signal_key tty.termios b)) [
  | inl h ↦
      rw
        (
          input_state now_ms b tty (some (if is_key tty.termios 0 b then int else tstp))
              (rw h at (signal_for_lem tty b)) v,
          press-signal tty.termios (view tty) b h,
        )
        (record { canonical = v; shown = refl; termios = refl })
  | inr h ↦
      rw (input_state now_ms b tty none (rw h at (signal_for_lem tty b)) v)
        (canonical_input-Kept tty b v h)
]
