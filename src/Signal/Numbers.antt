-- ===== src/Signal/Numbers.antt =====
-- Signal numbers decode to the signal that has them.
use ristux.Common.{ℕ, ◌≡◌, ◌↔◌, refl, some, arith}
use ristux.Signal.{Signal, hup, from_number, number, from_high_number}

from_number-number : (s : Signal) → from_number (number s) ≡ some s
unfolding from_number number
from_number-number hup = refl
from_number-number _ = refl

from_high_number-eq_some : (n : ℕ) (s : Signal) → from_high_number n ≡ some s → number s ≡ n
unfolding from_high_number number
from_high_number-eq_some n s h = ground arith

from_number-eq_some : (n : ℕ) (s : Signal) → from_number n ≡ some s → number s ≡ n
unfolding from_number number
from_number-eq_some n s h = ground (arith, from_high_number-eq_some n s)

-- A number decodes to a signal exactly if it is that signal's number.
pub from_number_iff : (n : ℕ) (s : Signal) → (from_number n ≡ some s) ↔ (number s ≡ n)
from_number_iff n s = (from_number-eq_some n s, λ h. rw h at (from_number-number s))
