-- ===== src/Tty/Lines/Run.antt =====
-- Keys and reads in any order.
use mathlib.Core.Path.{subst}
use ristux.Common.{◌≡◌, ◌∙◌, refl, ap, false, List, [], ◌∷◌}
use ristux.Tty.{Tty, Termios, input}
use ristux.Tty.Reader.{read_available_at}
use ristux.Tty.Lines.{Editor, press, fetch, Event, edits, run, view, IsCanonical, Kept, key, read}
use ristux.Tty.Lines.Keys.{input-Kept}
use ristux.Tty.Lines.Reads.{read-Answers}

-- The runs of the terminal and of the editor agree.
abbrev Agrees : List Event → Tty → Termios → Editor → Type 0
Agrees es tty t e = ((run es tty).0 ≡ (edits es t e).0) × (view (run es tty).1 ≡ (edits es t e).1)

Kept-Agrees :
    (es : List Event) (old after : Tty) (e : Editor)
    → Kept old after e
    → Agrees es after after.termios (view after)
    → Agrees es after old.termios e
Kept-Agrees es old after e k h =
    subst (λ t. Agrees es after t e) k.termios
      (subst (λ x. Agrees es after after.termios x) k.shown h)

-- From a terminal in canonical mode with no newline in its line buffer and whole lines ready, over any
-- keys and reads of any lengths: each read has the answer of a line editor that holds the same unread
-- text, unfinished line and end-of-file flag, and at the end the terminal holds what the editor
-- holds. In the editor BS, DEL and the VERASE character take the last byte off the unfinished line, a
-- newline commits it, the VEOF character sets the flag, and the VINTR and VSUSP characters change
-- nothing if ISIG is set; a read gets bytes up to the end of the first unread line, or with nothing
-- unread reports the end of the file and clears the flag, or has no answer.
pub run-lines :
    (es : List Event) (tty : Tty)
    → IsCanonical tty
    → ((run es tty).0 ≡ (edits es tty.termios (view tty)).0)
      × (view (run es tty).1 ≡ (edits es tty.termios (view tty)).1)
unfolding edits run
run-lines [] tty v = (refl, refl)
run-lines (key now_ms b ∷ es) tty v =
    let k = input-Kept now_ms b tty v in
    Kept-Agrees es tty (input now_ms tty b).0 (press tty.termios (view tty) b) k
      (run-lines es (input now_ms tty b).0 k.canonical)
run-lines (read max_len ∷ es) tty v =
    let a = read-Answers 0 max_len false tty v in
    let after = (read_available_at 0 false max_len tty).1 in
    let (answers, shown) =
      Kept-Agrees es tty after (fetch max_len (view tty)).1 a.kept
        (run-lines es after a.kept.canonical) in
    (
      ap (λ x. x ∷ (run es after).0) a.answer
          ∙ ap (λ xs. (fetch max_len (view tty)).0 ∷ xs) answers,
      shown,
    )
