-- ===== src/Tty/Dispatch.antt =====
-- `input_byte` and `try_read_for_current` of kernel/src/tty/mod.rs: a byte from the keyboard, and a
-- read of the current process. Echo, signal and wake-ups are results.
use ristux.Common.{
  ℕ, Bool, false, ◌&&◌, ◌||◌, not, ◌==◌, leb, if◌then◌else◌, Option, none, some, List, [], ◌∷◌,
}
use ristux.Signal.{Signal}
use ristux.Tty.{
  Tty, ReadOutcome, ready_with, would_block, wait_until, TtyEcho, text, byte, newline, veof, vintr,
  vsusp, canonical_enabled, signal_chars_enabled, echo_enabled, erase_echo_enabled, is_control_char,
  is_erase_byte, is_empty, input,
}
use ristux.Tty.Reader.{
  has_data, drain_waiters, read_available_at, read_deadline_ms, expired_waiter, clear_waiter,
}

abbrev pub echo_text : ℕ → Option TtyEcho
echo_text b =
    if b == newline
    then some (text (newline ∷ []))
    else if b == 9
    then some (text (9 ∷ []))
    else if leb 32 b && leb b 126
    then some (byte b)
    else none

unfoldable pub tty_echo_for_input : Tty → ℕ → Option TtyEcho
tty_echo_for_input tty b =
    if not (echo_enabled tty)
    then none
    else if signal_chars_enabled tty && (is_control_char tty vintr b || is_control_char tty vsusp b)
    then none
    else if canonical_enabled tty && is_control_char tty veof b
    then none
    else if canonical_enabled tty && is_erase_byte tty b
    then (if erase_echo_enabled tty && not (is_empty tty.line)
        then some (text (8 ∷ 32 ∷ 8 ∷ []))
        else none)
    else echo_text b

-- What `input_byte` does outside the terminal: the processes to wake, the signal for the process group
-- in the foreground, and the echo.
pub record Effects : Type 0 where
  pub woken : List ℕ
  pub signal_target : Option (ℕ × Signal)
  pub echo : Option TtyEcho

unfoldable pub input_byte : ℕ → Tty → ℕ → Effects × Tty
input_byte now_ms tty b =
    let (answer, after) = input now_ms tty b in
    let (pids, drained) = drain_waiters answer in
    elim after [
      | some signal ↦ (
        record { woken = []; signal_target = some (answer.foreground_pgrp, signal); echo = none },
        answer,
      )
      | none ↦ (
        record {
          woken = if has_data answer then pids else [];
          signal_target = none;
          echo = tty_echo_for_input tty b;
        },
        if has_data answer then drained else answer,
      )
    ]

abbrev pub expire : Option ℕ → ℕ → Tty → Bool × Tty
expire none now_ms tty = (false, tty)
expire (some p) now_ms tty = expired_waiter p now_ms tty

abbrev pub clear_reader : Option ℕ → Tty → Tty
clear_reader none tty = tty
clear_reader (some p) tty = clear_waiter p tty

unfoldable pub try_read_for_current : ℕ → Option ℕ → ℕ → Tty → ReadOutcome × Tty
try_read_for_current now_ms current max_len tty =
    let (timeout_expired, checked) = expire current now_ms tty in
    let (got, after) = read_available_at now_ms timeout_expired max_len checked in
    elim got [
      | some line ↦ (ready_with line, clear_reader current after)
      | none ↦ (
        elim (read_deadline_ms now_ms after) [
          | some deadline_ms ↦ wait_until deadline_ms
          | none ↦ would_block
        ],
        after,
      )
    ]
