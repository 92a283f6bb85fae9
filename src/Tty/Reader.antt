-- ===== src/Tty/Reader.antt =====
-- The readers of kernel/src/tty/mod.rs: the bytes that a read takes, the processes parked in a read,
-- and `input_byte`, which wakes them. The text that is printed and the calls of the process table are
-- results.
use ristux.Common.{
  ℕ, ◌+◌, ◌*◌, min, Bool, true, false, ◌&&◌, ◌||◌, not, ◌==◌, ltb, leb, if◌then◌else◌, Option, none,
  some, List, [], ◌∷◌, length, take, drop, position, map, saturating_add, u64_max,
}
use ristux.Tty.{Tty, TtyWaiter, newline, vmin, vtime, canonical_enabled, is_empty, control_byte}

-- `drain_prefix(&mut bytes, max_len)`: what is drained and what stays.
unfoldable pub drain_prefix : List ℕ → ℕ → List ℕ × List ℕ
drain_prefix bytes max_len =
    let count = min (length bytes) max_len in (take count bytes, drop count bytes)

-- `time_ds.saturating_mul(100)`.
abbrev pub timeout_ms : Tty → ℕ
timeout_ms tty = min (control_byte tty vtime * 100) u64_max

unfoldable pub interbyte_expired : ℕ → Tty → Bool
interbyte_expired now_ms tty = not (control_byte tty vtime == 0) && elim tty.raw_first_byte_ms [
  | none ↦ false
  | some first ↦ leb (saturating_add first (timeout_ms tty)) now_ms
]

unfoldable pub read_raw : ℕ → Bool → ℕ → Tty → Option (List ℕ) × Tty
read_raw now_ms timeout_expired max_len tty =
    let least = control_byte tty vmin in
    let (out, rest) = drain_prefix tty.line max_len in
    if is_empty tty.line
    then (
      if least == 0 && (control_byte tty vtime == 0 || timeout_expired) then some [] else none,
      tty,
    )
    else if not (least == 0) && ltb (length tty.line) least && not (interbyte_expired now_ms tty)
    then (none, tty)
    else (
      some out,
      record tty {
        line = rest;
        raw_first_byte_ms = if is_empty rest then none else tty.raw_first_byte_ms;
      },
    )

-- `if line.last() == Some(&b'\n') { line.pop(); }`.
unfoldable pub trim_newline : List ℕ → List ℕ
trim_newline [] = []
trim_newline (x ∷ []) = if x == newline then [] else x ∷ []
trim_newline (x ∷ y ∷ ys) = x ∷ trim_newline (y ∷ ys)

-- The fallback on a newline inside the line buffer.
unfoldable pub read_line_buffer : ℕ → Tty → Option (List ℕ) × Tty
read_line_buffer max_len tty = elim (position (λ b. b == newline) tty.line) [
  | none ↦ (none, tty)
  | some at ↦ (
    some (trim_newline (take (min (at + 1) max_len) tty.line)),
    record tty { line = drop (min (at + 1) max_len) tty.line },
  )
]

unfoldable pub read_ready : ℕ → Tty → List ℕ → List (List ℕ) → Option (List ℕ) × Tty
read_ready max_len tty front later =
    let (out, rest) = drain_prefix front max_len in
    (some out, record tty { ready = if is_empty rest then later else rest ∷ later })

unfoldable pub read_canonical : ℕ → Tty → Option (List ℕ) × Tty
read_canonical max_len tty = elim tty.ready [
  | [] ↦ if tty.eof then (some [], record tty { eof = false }) else read_line_buffer max_len tty
  | front ∷ later ↦ read_ready max_len tty front later
]

unfoldable pub read_available_at : ℕ → Bool → ℕ → Tty → Option (List ℕ) × Tty
read_available_at now_ms timeout_expired max_len tty =
    if max_len == 0
    then (some [], tty)
    else if canonical_enabled tty
    then read_canonical max_len tty
    else read_raw now_ms timeout_expired max_len tty

unfoldable pub has_data : Tty → Bool
has_data tty =
    if canonical_enabled tty
    then not (is_empty tty.ready) || tty.eof
    else not (is_empty tty.line)
      && (control_byte tty vmin == 0 || leb (control_byte tty vmin) (length tty.line))

unfoldable pub read_deadline_ms : ℕ → Tty → Option ℕ
read_deadline_ms now_ms tty =
    let least = control_byte tty vmin in
    if canonical_enabled tty
    then none
    else if control_byte tty vtime == 0
    then none
    else if is_empty tty.line
    then (if least == 0 then some (saturating_add now_ms (timeout_ms tty)) else none)
    else if not (least == 0) && ltb (length tty.line) least
    then elim tty.raw_first_byte_ms [
      | none ↦ none
      | some first ↦ some (saturating_add first (timeout_ms tty))
    ]
    else none

unfoldable pub park_waiter : ℕ → Option ℕ → List TtyWaiter → List TtyWaiter
park_waiter p deadline [] = record { pid = p; deadline_ms = deadline } ∷ []
park_waiter p deadline (w ∷ ws) =
    if w.pid == p then record w { deadline_ms = deadline } ∷ ws else w ∷ park_waiter p deadline ws

unfoldable pub park : ℕ → Option ℕ → Tty → Tty
park p deadline tty = record tty { waiters = park_waiter p deadline tty.waiters }

unfoldable pub drain_waiters : Tty → List ℕ × Tty
drain_waiters tty = (map (λ w. w.pid) tty.waiters, record tty { waiters = [] })

-- `Vec::swap_remove`, of the first element that passes: the last element takes its place.
abbrev pub last_first : List TtyWaiter → List TtyWaiter
last_first [] = []
last_first (x ∷ []) = x ∷ []
last_first (x ∷ y ∷ ys) = elim (last_first (y ∷ ys)) [ [] ↦ x ∷ [] | z ∷ zs ↦ z ∷ x ∷ zs ]

unfoldable pub swap_remove_first : (TtyWaiter → Bool) → List TtyWaiter → Bool × List TtyWaiter
swap_remove_first p [] = (false, [])
swap_remove_first p (w ∷ ws) =
    let (found, rest) = swap_remove_first p ws in
    if p w then (true, last_first ws) else (found, w ∷ rest)

abbrev pub is_expired : ℕ → Option ℕ → Bool
is_expired now_ms none = false
is_expired now_ms (some deadline) = leb deadline now_ms

unfoldable pub expired_waiter : ℕ → ℕ → Tty → Bool × Tty
expired_waiter p now_ms tty =
    let (found, ws) =
      swap_remove_first (λ w. w.pid == p && is_expired now_ms w.deadline_ms) tty.waiters in
    (found, record tty { waiters = ws })

unfoldable pub clear_waiter : ℕ → Tty → Tty
clear_waiter p tty = record tty { waiters = (swap_remove_first (λ w. w.pid == p) tty.waiters).1 }
