-- ===== src/Tty/Waiters.antt =====
-- The processes parked on the terminal: each at most once, and all woken by a committed line.
use ristux.Common.{
  ℕ, ◌+◌, ◌≤◌, ◌≡◌, ◌∙◌, refl, ap, Bool, true, false, ◌==◌, Bool-cases, ◌⊎◌, inl, inr,
  if◌then◌else◌, Option, none, some, List, [], ◌∷◌, ◌++◌, map, arith, ==_iff,
}
use mathlib.Core.Path.{subst}
use ristux.Tty.{
  newline, is_empty, commit_line, veof, canonical_enabled, signal_for, is_control_char,
  is_erase_byte, Tty, TtyWaiter, new, input, raw_input, canonical_input,
}
use ristux.Tty.Reader.{
  park, park_waiter, last_first, swap_remove_first, expired_waiter, clear_waiter, drain_waiters,
  read_available_at, read_canonical, read_raw, read_ready, read_line_buffer, has_data,
}
use ristux.Tty.Dispatch.{input_byte, try_read_for_current, expire, clear_reader}

abbrev one : ℕ → TtyWaiter → ℕ
one p w = if w.pid == p then 1 else 0

-- How often a process is parked.
unfoldable pub parked : ℕ → List TtyWaiter → ℕ
parked p [] = 0
parked p (w ∷ ws) = one p w + parked p ws

pub data Step : Tty → Tty → Type 0 where
  types : (now_ms b : ℕ) (tty : Tty) → Step tty (input_byte now_ms tty b).1
  parks : (p : ℕ) (deadline : Option ℕ) (tty : Tty) → Step tty (park p deadline tty)
  reads :
      (now_ms : ℕ) (current : Option ℕ) (max_len : ℕ) (tty : Tty)
      → Step tty (try_read_for_current now_ms current max_len tty).1

pub data Reach : Tty → Type 0 where
  start : Reach new
  step : {tty after : Tty} → Reach tty → Step tty after → Reach after

park_waiter_other :
    (p q : ℕ) (deadline : Option ℕ) (ws : List TtyWaiter)
    → (p == q) ≡ false
    → parked q (park_waiter p deadline ws) ≡ parked q ws
unfolding parked park_waiter
park_waiter_other p q deadline [] h = ground arith
park_waiter_other p q deadline (w ∷ ws) h = ground (arith, park_waiter_other p q deadline ws h)

park_waiter_self :
    (p : ℕ) (deadline : Option ℕ) (ws : List TtyWaiter)
    → parked p ws ≤ 1
    → parked p (park_waiter p deadline ws) ≡ 1
unfolding parked park_waiter
park_waiter_self p deadline [] h = ground arith
park_waiter_self p deadline (w ∷ ws) h = elim (Bool-cases (w.pid == p)) [
  | inl e ↦ rw e (ground (arith, e))
  | inr e ↦ rw e (ground (arith, e, park_waiter_self p deadline ws))
]

cons_last-parked :
    (q : ℕ) (x : TtyWaiter) (ls : List TtyWaiter)
    → parked q (elim ls as (λ l. List TtyWaiter) [ [] ↦ x ∷ [] | z ∷ zs ↦ z ∷ x ∷ zs ])
      ≡ one q x + parked q ls
unfolding parked
cons_last-parked q x [] = refl
cons_last-parked q x (z ∷ zs) = omega arith

last_first-parked : (q : ℕ) (ws : List TtyWaiter) → parked q (last_first ws) ≡ parked q ws
unfolding parked
last_first-parked q [] = refl
last_first-parked q (x ∷ []) = refl
last_first-parked q (x ∷ y ∷ ys) =
    cons_last-parked q x (last_first (y ∷ ys))
    ∙ ap (λ n. one q x + n) (last_first-parked q (y ∷ ys))

swap_remove_first-parked :
    (f : TtyWaiter → Bool) (q : ℕ) (ws : List TtyWaiter)
    → parked q (swap_remove_first f ws).1 ≤ parked q ws
unfolding parked swap_remove_first
swap_remove_first-parked f q [] = omega arith
swap_remove_first-parked f q (w ∷ ws) =
    ground (arith, last_first-parked q ws, swap_remove_first-parked f q ws)

canonical_input-waiters : (tty : Tty) (b : ℕ) → (canonical_input tty b).waiters ≡ tty.waiters
unfolding canonical_input
canonical_input-waiters tty b = ground arith

input-waiters : (now_ms b : ℕ) (tty : Tty) → (input now_ms tty b).0.waiters ≡ tty.waiters
unfolding input raw_input
input-waiters now_ms b tty = ground (arith, canonical_input-waiters tty b)

read_available_at-waiters :
    (now_ms max_len : ℕ) (expired : Bool) (tty : Tty)
    → (read_available_at now_ms expired max_len tty).1.waiters ≡ tty.waiters
unfolding read_available_at read_canonical read_raw read_ready read_line_buffer
read_available_at-waiters now_ms max_len expired tty = ground arith

input_byte-waiters :
    (now_ms b : ℕ) (tty : Tty)
    → ((input_byte now_ms tty b).1.waiters ≡ tty.waiters)
      ⊎ ((input_byte now_ms tty b).1.waiters ≡ [])
unfolding input_byte drain_waiters
input_byte-waiters now_ms b tty = ground (arith, input-waiters now_ms b tty)

expire-parked :
    (now_ms q : ℕ) (current : Option ℕ) (tty : Tty)
    → parked q (expire current now_ms tty).1.waiters ≤ parked q tty.waiters
unfolding expired_waiter
expire-parked now_ms q none tty = omega arith
expire-parked now_ms q (some p) tty = swap_remove_first-parked _ q tty.waiters

clear_reader-parked :
    (q : ℕ) (current : Option ℕ) (tty : Tty)
    → parked q (clear_reader current tty).waiters ≤ parked q tty.waiters
unfolding clear_waiter
clear_reader-parked q none tty = omega arith
clear_reader-parked q (some p) tty = swap_remove_first-parked _ q tty.waiters

try_read-parked :
    (now_ms max_len q : ℕ) (current : Option ℕ) (tty : Tty)
    → parked q (try_read_for_current now_ms current max_len tty).1.waiters ≤ parked q tty.waiters
unfolding try_read_for_current
try_read-parked now_ms max_len q current tty =
    let checked = expire current now_ms tty in
    let got = read_available_at now_ms checked.0 max_len checked.1 in
    ground (
      arith,
      expire-parked now_ms q current tty,
      ap (parked q) (read_available_at-waiters now_ms max_len checked.0 checked.1),
      clear_reader-parked q current got.1,
    )

Step-parked :
    {tty after : Tty} (q : ℕ)
    → Step tty after
    → parked q tty.waiters ≤ 1
    → parked q after.waiters ≤ 1
unfolding parked park
Step-parked q (types now_ms b tty) h = elim (input_byte-waiters now_ms b tty) [
  | inl e ↦ rw e h
  | inr e ↦ rw e (omega arith)
]
Step-parked q (parks p deadline tty) h = elim (Bool-cases (p == q)) [
  | inl e ↦
      subst (λ r. parked r tty.waiters ≤ 1 → parked r (park_waiter p deadline tty.waiters) ≤ 1)
        ((==_iff p q).0 e) (λ k. omega (arith, park_waiter_self p deadline tty.waiters k)) h
  | inr e ↦ omega (arith, park_waiter_other p q deadline tty.waiters e)
]
Step-parked q (reads now_ms current max_len tty) h =
    omega (arith, try_read-parked now_ms max_len q current tty)

-- However keys, parked processes and reads alternate, no process is parked twice.
pub Reach-parked : {tty : Tty} (q : ℕ) → Reach tty → parked q tty.waiters ≤ 1
unfolding parked
Reach-parked q start = omega arith
Reach-parked q (step r s) = Step-parked q s (Reach-parked q r)

snoc_some {ℓ} : {A : Type ℓ} (xs : List A) (x : A) → is_empty (xs ++ (x ∷ [])) ≡ false
snoc_some [] x = refl
snoc_some (y ∷ xs) x = refl

input-newline :
    (now_ms : ℕ) (tty : Tty)
    → canonical_enabled tty ≡ true
    → signal_for tty newline ≡ none
    → is_control_char tty veof newline ≡ false
    → is_erase_byte tty newline ≡ false
    → input now_ms tty newline ≡ (commit_line tty, none)
unfolding input canonical_input
input-newline now_ms tty c s f e = rw (s, c, f, e, input, canonical_input) refl

has_data-commit_line :
    (tty : Tty) → canonical_enabled tty ≡ true → has_data (commit_line tty) ≡ true
unfolding has_data
has_data-commit_line tty c = rw (c, snoc_some tty.ready (tty.line ++ (newline ∷ []))) refl

input_byte-data :
    (now_ms b : ℕ) (tty after : Tty)
    → input now_ms tty b ≡ (after, none)
    → has_data after ≡ true
    → ((input_byte now_ms tty b).0.woken ≡ map (λ w. w.pid) after.waiters)
      × ((input_byte now_ms tty b).1 ≡ record after { waiters = [] })
unfolding input_byte drain_waiters
input_byte-data now_ms b tty after h d = rw (h, h, d, input_byte) (refl, refl)

-- A newline typed in canonical mode, if it is neither a signal character nor the end-of-file or an erase
-- character, makes a line ready, wakes every process that is parked, and leaves none parked.
pub newline-wakes :
    (now_ms : ℕ) (tty : Tty)
    → canonical_enabled tty ≡ true
    → signal_for tty newline ≡ none
    → is_control_char tty veof newline ≡ false
    → is_erase_byte tty newline ≡ false
    → ((input_byte now_ms tty newline).0.woken ≡ map (λ w. w.pid) tty.waiters)
      × ((input_byte now_ms tty newline).1.waiters ≡ [])
      × ((input_byte now_ms tty newline).1.ready ≡ tty.ready ++ ((tty.line ++ (newline ∷ [])) ∷ []))
newline-wakes now_ms tty c s f e =
    let (woken, after) =
      input_byte-data now_ms newline tty (commit_line tty) (input-newline now_ms tty c s f e)
        (has_data-commit_line tty c) in
    (woken, ap (λ t. t.waiters) after, ap (λ t. t.ready) after)
