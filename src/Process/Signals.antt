-- ===== src/Process/Signals.antt =====
-- The signal helpers of kernel/src/process/mod.rs, on one process.
use Prim.Native.Nat.{bit_or}
use ristux.Common.{
  ℕ, zero, suc, ◌+◌, ◌-◌, ◌/◌, ◌%◌, ◌^◌, bit_and, Bool, false, ◌&&◌, ◌||◌, not, ◌==◌, ltb, leb,
  if◌then◌else◌, Option, none, some, get_or, has_flag, u64_max,
}
use ristux.Signal.{
  Signal, kill, stop, tstp, ttin, ttou, cont, number, from_number, has_stop_default,
  has_ignore_default,
}
use ristux.Process.{Process}

abbrev pub default_handler : ℕ
default_handler = 0

abbrev pub ignore_handler : ℕ
ignore_handler = 1

-- `1 << signal` on a u64, for a signal below 64.
abbrev pub bit_of : ℕ → ℕ
bit_of signal = 2 ^ signal

-- `word & !mask` on a u64.
abbrev pub without : ℕ → ℕ → ℕ
without word mask = bit_and word (u64_max - mask)

-- A status of 2 ^ 31 or more is negative.
unfoldable pub signal_from_legacy_status : ℕ → Option ℕ
signal_from_legacy_status status =
    if ltb status 128 || leb 2147483648 status
    then none
    else if leb 1 (status - 128) && ltb (status - 128) 64
    then some (status - 128)
    else none

unfoldable pub is_uncatchable_signal : ℕ → Bool
unfolding number
is_uncatchable_signal signal = signal == number kill || signal == number stop

unfoldable pub sanitized_signal_mask : ℕ → ℕ
unfolding number
sanitized_signal_mask mask = without mask (bit_or (bit_of (number kill)) (bit_of (number stop)))

-- `signal_from_legacy_status(status).and_then(Signal::from_number)`.
unfoldable pub named_signal : ℕ → Option Signal
named_signal status = elim (signal_from_legacy_status status) [
  | none ↦ none
  | some n ↦ from_number n
]

unfoldable pub stop_signal_from_status : ℕ → Option ℕ
stop_signal_from_status status = elim (named_signal status) [
  | none ↦ none
  | some s ↦ if has_stop_default s then some (number s) else none
]

abbrev pub handler_of : Process → ℕ → ℕ
handler_of p signal = get_or p.signal_handlers signal default_handler

unfoldable pub has_ignored_default : ℕ → Bool
has_ignored_default signal = elim (from_number signal) [
  | none ↦ false
  | some s ↦ has_ignore_default s
]

unfoldable pub is_ignored_signal : Process → ℕ → Bool
is_ignored_signal p status = elim (signal_from_legacy_status status) [
  | none ↦ false
  | some signal ↦
      if is_uncatchable_signal signal
      then false
      else handler_of p signal == default_handler && has_ignored_default signal
        || handler_of p signal == ignore_handler
]

abbrev pub is_some_status : Option ℕ → ℕ → Bool
is_some_status none s = false
is_some_status (some t) s = t == s

unfoldable pub clear_pending_signal : Process → ℕ → Process
clear_pending_signal p signal = record p {
  pending_signals =
      if ltb signal 64 then without p.pending_signals (bit_of signal) else p.pending_signals;
  pending_signal_status =
      if ltb signal 32 && is_some_status p.pending_signal_status (128 + signal)
      then none
      else p.pending_signal_status;
}

abbrev pub is_cont : Signal → Bool
is_cont s = number s == number cont

unfoldable pub discard_pending_signal_interactions : Process → ℕ → Process
unfolding number
discard_pending_signal_interactions p status = elim (named_signal status) [
  | none ↦ p
  | some s ↦
      if is_cont s
      then clear_pending_signal
          (clear_pending_signal
            (clear_pending_signal (clear_pending_signal p (number stop)) (number tstp))
            (number ttin))
          (number ttou)
      else if has_stop_default s
      then clear_pending_signal p (number cont)
      else p
]

-- `trailing_zeros` of a word that is not 0, on fuel for its bits.
unfoldable pub trailing_zeros : ℕ → ℕ → ℕ
trailing_zeros zero word = 0
trailing_zeros (suc fuel) word =
    let rest = trailing_zeros fuel (word / 2) in if word % 2 == 1 then 0 else suc rest

-- The `while` loop: 64 rounds clear all bits.
unfoldable pub deliverable_loop : ℕ → ℕ → ℕ → Option ℕ
deliverable_loop zero mask pending = none
deliverable_loop (suc rounds) mask pending =
    let signal = trailing_zeros 64 pending in
    let rest = deliverable_loop rounds mask (without pending (bit_of signal)) in
    if pending == 0
    then none
    else if signal == 0 || not (is_uncatchable_signal signal) && has_flag mask (bit_of signal)
    then rest
    else some signal

unfoldable pub next_deliverable_pending_signal : Process → Option ℕ
next_deliverable_pending_signal p = deliverable_loop 64 p.signal_mask p.pending_signals

unfoldable pub should_queue_signal : Process → ℕ → Option ℕ → Bool
should_queue_signal p status current =
    is_some_status current p.pid || elim (signal_from_legacy_status status) [
      | none ↦ false
      | some signal ↦
          if is_uncatchable_signal signal
          then false
          else ltb signal 64 && has_flag p.signal_mask (bit_of signal)
            || not (handler_of p signal == default_handler)
    ]

unfoldable pub queue_signal : Process → ℕ → Process
queue_signal p status = record p {
  pending_signal_status = some status;
  pending_signals =
      if leb 128 status && ltb status 192
      then bit_or p.pending_signals (bit_of (status - 128))
      else p.pending_signals;
}
