-- ===== src/Signal/Tests.antt =====
-- The number that stands for no signal.
use ristux.Common.{◌≡◌, refl, none}
use ristux.Signal.{from_number, from_high_number}

sixteen : from_number 16 ≡ none
unfolding from_number from_high_number
sixteen = refl
