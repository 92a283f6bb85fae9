-- ===== src/Tty.antt =====
-- kernel/src/tty/mod.rs: the terminal's line discipline, its readers and the processes that wait for
-- input. `crate::time::uptime_millis()` is the argument `now_ms`.
pub mod Reader
pub mod Dispatch
pub mod Lines
mod Waiters
mod Tests
use Prim.Native.Nat.{bit_or}
use ristux.Common.{
  ℕ, zero, suc, ◌+◌, ◌-◌, ◌*◌, min, bit_and, Bool, true, false, ◌&&◌, ◌||◌, not, ◌==◌, ltb, leb,
  if◌then◌else◌, Option, none, some, List, [], ◌∷◌, ◌++◌, length, get_elem?, set, take, drop, any,
  position, map, has_flag, saturating_add, u32_mod, u64_max,
}
use ristux.Signal.{Signal, int, tstp}

abbrev pub vintr : ℕ
vintr = 0

abbrev pub verase : ℕ
verase = 2

abbrev pub veof : ℕ
veof = 4

abbrev pub vtime : ℕ
vtime = 5

abbrev pub vmin : ℕ
vmin = 6

abbrev pub vsusp : ℕ
vsusp = 10

abbrev pub ascii_bs : ℕ
ascii_bs = 8

abbrev pub ascii_del : ℕ
ascii_del = 127

abbrev pub newline : ℕ
newline = 10

abbrev pub iflag_icrnl : ℕ
iflag_icrnl = 256

abbrev pub oflag_opost : ℕ
oflag_opost = 1

abbrev pub oflag_onlcr : ℕ
oflag_onlcr = 4

abbrev pub cflag_cread : ℕ
cflag_cread = 128

abbrev pub cflag_cs8 : ℕ
cflag_cs8 = 48

abbrev pub lflag_isig : ℕ
lflag_isig = 1

abbrev pub lflag_icanon : ℕ
lflag_icanon = 2

abbrev pub lflag_echo : ℕ
lflag_echo = 8

abbrev pub lflag_echoe : ℕ
lflag_echoe = 16

abbrev pub lflag_echok : ℕ
lflag_echok = 32

abbrev pub lflag_iexten : ℕ
lflag_iexten = 32768

pub data TtyMode : Type 0 where
  canonical raw : TtyMode

pub record Termios : Type 0 where
  pub iflag : ℕ
  pub oflag : ℕ
  pub cflag : ℕ
  pub lflag : ℕ
  pub line : ℕ
  pub cc : List ℕ
  pub ispeed : ℕ
  pub ospeed : ℕ

pub record TtyWaiter : Type 0 where
  pub pid : ℕ
  pub deadline_ms : Option ℕ

pub record Tty : Type 0 where
  pub termios : Termios
  pub line : List ℕ
  pub ready : List (List ℕ)
  pub eof : Bool
  pub waiters : List TtyWaiter
  pub raw_first_byte_ms : Option ℕ
  pub foreground_pgrp : ℕ

pub data ReadOutcome : Type 0 where
  ready_with : List ℕ → ReadOutcome
  would_block : ReadOutcome
  wait_until : ℕ → ReadOutcome

pub data TtyEcho : Type 0 where
  text : List ℕ → TtyEcho
  byte : ℕ → TtyEcho

abbrev pub zeros : ℕ → List ℕ
zeros zero = []
zeros (suc n) = 0 ∷ zeros n

abbrev pub default_cc : List ℕ
default_cc =
    set (set (set (set (set (set (zeros 32) vintr 3) verase ascii_bs) veof 4) vmin 1) vtime 0) vsusp
      26

abbrev pub default : Termios
default = record {
  iflag = iflag_icrnl;
  oflag = bit_or oflag_opost oflag_onlcr;
  cflag = bit_or cflag_cread cflag_cs8;
  lflag =
      bit_or
        (bit_or (bit_or (bit_or (bit_or lflag_isig lflag_icanon) lflag_echo) lflag_echoe)
          lflag_echok)
        lflag_iexten;
  line = 0;
  cc = default_cc;
  ispeed = 38400;
  ospeed = 38400;
}

abbrev pub new : Tty
new = record {
  termios = default;
  line = [];
  ready = [];
  eof = false;
  waiters = [];
  raw_first_byte_ms = none;
  foreground_pgrp = 1;
}

-- `flags &= !mask` on a u32.
abbrev pub clear_flags : ℕ → ℕ → ℕ
clear_flags flags mask = bit_and flags (u32_mod - 1 - mask)

abbrev pub one_byte_reads : Termios → Termios
one_byte_reads t = record t { cc = set (set t.cc vmin 1) vtime 0 }

unfoldable pub set_mode : TtyMode → Tty → Tty
set_mode canonical tty = record tty {
  termios = one_byte_reads (record tty.termios {
    lflag = bit_or tty.termios.lflag (bit_or (bit_or lflag_isig lflag_icanon) lflag_echo);
  });
}
set_mode raw tty = record tty {
  termios = one_byte_reads (record tty.termios {
    lflag =
        clear_flags tty.termios.lflag
          (bit_or (bit_or (bit_or lflag_isig lflag_icanon) lflag_echo) lflag_iexten);
    iflag = clear_flags tty.termios.iflag iflag_icrnl;
    oflag = clear_flags tty.termios.oflag oflag_opost;
  });
}

abbrev pub canonical_enabled : Tty → Bool
canonical_enabled tty = has_flag tty.termios.lflag lflag_icanon

abbrev pub signal_chars_enabled : Tty → Bool
signal_chars_enabled tty = has_flag tty.termios.lflag lflag_isig

abbrev pub echo_enabled : Tty → Bool
echo_enabled tty = has_flag tty.termios.lflag lflag_echo

abbrev pub erase_echo_enabled : Tty → Bool
erase_echo_enabled tty = has_flag tty.termios.lflag lflag_echoe

abbrev pub control_byte : Tty → ℕ → ℕ
control_byte tty index = elim (get_elem? tty.termios.cc index) [ none ↦ 0 | some b ↦ b ]

-- `self.control_char(index) == Some(byte)`: a zero entry is no control character.
abbrev pub is_control_char : Tty → ℕ → ℕ → Bool
is_control_char tty index b = not (control_byte tty index == 0) && control_byte tty index == b

abbrev pub is_erase_byte : Tty → ℕ → Bool
is_erase_byte tty b = is_control_char tty verase b || b == ascii_bs || b == ascii_del

abbrev pub is_empty {ℓ} : {A : Type ℓ} → List A → Bool
is_empty [] = true
is_empty (x ∷ xs) = false

-- `Vec::pop`, whose result is not used.
abbrev pub pop : List ℕ → List ℕ
pop [] = []
pop (x ∷ []) = []
pop (x ∷ y ∷ ys) = x ∷ pop (y ∷ ys)

abbrev pub commit_line : Tty → Tty
commit_line tty = record tty { line = []; ready = tty.ready ++ ((tty.line ++ (newline ∷ [])) ∷ []) }

unfoldable pub raw_input : ℕ → Tty → ℕ → Tty
raw_input now_ms tty b = record tty {
  raw_first_byte_ms = if is_empty tty.line then some now_ms else tty.raw_first_byte_ms;
  line = tty.line ++ (b ∷ []);
}

unfoldable pub canonical_input : Tty → ℕ → Tty
canonical_input tty b =
    if is_control_char tty veof b
    then record tty { eof = true }
    else if is_erase_byte tty b
    then record tty { line = pop tty.line }
    else if b == newline
    then commit_line tty
    else record tty { line = tty.line ++ (b ∷ []) }

unfoldable pub signal_for : Tty → ℕ → Option Signal
signal_for tty b =
    if signal_chars_enabled tty
    then (if is_control_char tty vintr b
        then some int
        else if is_control_char tty vsusp b
        then some tstp
        else none)
    else none

unfoldable pub input : ℕ → Tty → ℕ → Tty × Option Signal
input now_ms tty b = elim (signal_for tty b) [
  | some signal ↦ (tty, some signal)
  | none ↦ (if canonical_enabled tty then canonical_input tty b else raw_input now_ms tty b, none)
]
