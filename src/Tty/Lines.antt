-- ===== src/Tty/Lines.antt =====
-- Canonical input against a line editor that is described by itself: keys, and reads of what is unread.
mod Keys
mod Reads
pub mod Run
use ristux.Common.{
  ℕ, suc, ◌+◌, ◌-◌, min, ◌≡◌, Bool, true, false, ◌&&◌, ◌||◌, not, ◌==◌, if◌then◌else◌, Option, none,
  some, List, [], ◌∷◌, ◌++◌, length, take, drop, get_or, has_flag, All,
}
use ristux.Tty.{Tty, Termios, canonical_enabled, input}
use ristux.Tty.Reader.{read_available_at}

-- A line editor: the text that is committed and unread, the line that is being typed, and whether the
-- end of the file is to be reported.
pub record Editor : Type 0 where
  pub unread : List ℕ
  pub typing : List ℕ
  pub ended : Bool

-- The byte is the control character of this number; no character is set to zero.
abbrev pub is_key : Termios → ℕ → ℕ → Bool
is_key t number b = not (b == 0) && get_or t.cc number 0 == b

-- VINTR or VSUSP, with ISIG.
abbrev pub is_signal_key : Termios → ℕ → Bool
is_signal_key t b = has_flag t.lflag 1 && (is_key t 0 b || is_key t 10 b)

-- BS, DEL and VERASE.
abbrev pub is_erase_key : Termios → ℕ → Bool
is_erase_key t b = b == 8 || b == 127 || is_key t 2 b

-- VEOF.
abbrev pub is_end_key : Termios → ℕ → Bool
is_end_key t b = is_key t 4 b

-- What a key does to the editor.
unfoldable pub press : Termios → Editor → ℕ → Editor
press t e b =
    if is_signal_key t b
    then e
    else if is_end_key t b
    then record e { ended = true }
    else if is_erase_key t b
    then record e { typing = take (length e.typing - 1) e.typing }
    else if b == 10
    then record e { unread = e.unread ++ (e.typing ++ (10 ∷ [])); typing = [] }
    else record e { typing = e.typing ++ (b ∷ []) }

-- The length of the first line, its newline included.
abbrev pub line_length : List ℕ → ℕ
line_length [] = 0
line_length (b ∷ bs) = if b == 10 then 1 else suc (line_length bs)

-- What a read gets: unread bytes up to the end of the first line; with nothing unread the end of the
-- file, once, or else no answer yet.
unfoldable pub fetch : ℕ → Editor → Option (List ℕ) × Editor
fetch max_len e = if max_len == 0 then (some [], e) else elim e.unread [
  | [] ↦ if e.ended then (some [], record e { ended = false }) else (none, e)
  | b ∷ bs ↦ (
    some (take (min (line_length (b ∷ bs)) max_len) (b ∷ bs)),
    record e { unread = drop (min (line_length (b ∷ bs)) max_len) (b ∷ bs) },
  )
]

pub data Event : Type 0 where
  key : ℕ → ℕ → Event
  read : ℕ → Event

-- The answers of the reads, and the editor after the events.
unfoldable pub edits : List Event → Termios → Editor → List (Option (List ℕ)) × Editor
edits [] t e = ([], e)
edits (key now_ms b ∷ es) t e = edits es t (press t e b)
edits (read max_len ∷ es) t e =
    let (answer, after) = fetch max_len e in
    let (later, final) = edits es t after in (answer ∷ later, final)

-- The same of the terminal.
unfoldable pub run : List Event → Tty → List (Option (List ℕ)) × Tty
run [] tty = ([], tty)
run (key now_ms b ∷ es) tty = run es (input now_ms tty b).0
run (read max_len ∷ es) tty =
    let (answer, after) = read_available_at 0 false max_len tty in
    let (later, final) = run es after in (answer ∷ later, final)

abbrev pub concat : List (List ℕ) → List ℕ
concat [] = []
concat (l ∷ ls) = l ++ concat ls

-- The terminal as an editor.
abbrev pub view : Tty → Editor
view tty = record { unread = concat tty.ready; typing = tty.line; ended = tty.eof }

abbrev pub IsText : ℕ → Type 0
IsText b = (b == 10) ≡ false

-- A line ends in its only newline.
abbrev pub IsLine : List ℕ → Type 0
IsLine l = (text : List ℕ) × All IsText text × (l ≡ text ++ (10 ∷ []))

-- Canonical mode, with no newline inside the line buffer, and with whole lines, or ends of lines, ready.
pub record IsCanonical (tty : Tty) : Type 0 where
  pub enabled : canonical_enabled tty ≡ true
  pub whole : All IsText tty.line
  pub lines : All IsLine tty.ready

-- What a step of the terminal keeps, with the editor that it leaves.
pub record Kept (old after : Tty) (e : Editor) : Type 0 where
  pub canonical : IsCanonical after
  pub shown : view after ≡ e
  pub termios : after.termios ≡ old.termios
