-- ===== src/Tty/Tests.antt =====
-- A line typed with an erase and an end-of-file character, read in two parts, and two readers parked
-- before a newline.
use ristux.Common.{◌≡◌, refl, none, some, List, [], ◌∷◌, map}
use ristux.Signal.{tstp}
use ristux.Tty.{Tty, raw, newline, new, input, canonical_input, raw_input, signal_for, set_mode}
use ristux.Tty.Reader.{
  read_available_at, read_canonical, read_ready, drain_prefix, park, read_raw, read_line_buffer,
  interbyte_expired,
}
use ristux.Tty.Dispatch.{input_byte}
use ristux.Tty.Lines.{run, edits, key, read, Event, IsCanonical, view}
use ristux.Tty.Lines.Run.{run-lines}
use ristux.Tty.Waiters.{Reach, start, step, parks, newline-wakes}

abbrev keys : List Event
keys =
    key 0 97
    ∷ key 0 98
    ∷ key 0 8
    ∷ key 0 99
    ∷ key 0 4
    ∷ key 0 10
    ∷ read 2
    ∷ read 9
    ∷ read 9
    ∷ read 9
    ∷ key 0 100
    ∷ []

typed : (run keys new).0 ≡ some (97 ∷ 99 ∷ []) ∷ some (10 ∷ []) ∷ some [] ∷ none ∷ []
unfolding run input canonical_input signal_for read_available_at read_canonical read_ready
    drain_prefix read_line_buffer
typed = refl

suspended : (input 0 new 26).1 ≡ some tstp
unfolding input signal_for
suspended = refl

raw_bytes : (run (key 0 3 ∷ key 0 8 ∷ read 1 ∷ []) (set_mode raw new)).0 ≡ some (3 ∷ []) ∷ []
unfolding run input signal_for raw_input set_mode read_available_at read_raw interbyte_expired
    drain_prefix
raw_bytes = refl

new-IsCanonical : IsCanonical new
new-IsCanonical = record { enabled = refl; whole = tt; lines = tt }

run-lines_example :
    ((run keys new).0 ≡ (edits keys new.termios (view new)).0)
    × (view (run keys new).1 ≡ (edits keys new.termios (view new)).1)
run-lines_example = run-lines keys new new-IsCanonical

abbrev two_parked : Tty
two_parked = park 7 none (park 9 (some 50) (park 7 (some 20) new))

two_parked-Reach : Reach two_parked
two_parked-Reach =
    step (step (step start (parks 7 (some 20) new)) (parks 9 (some 50) (park 7 (some 20) new)))
      (parks 7 none (park 9 (some 50) (park 7 (some 20) new)))

newline-wakes_example :
    ((input_byte 0 two_parked newline).0.woken ≡ map (λ w. w.pid) two_parked.waiters)
    × ((input_byte 0 two_parked newline).1.waiters ≡ [])
    × ((input_byte 0 two_parked newline).1.ready ≡ (newline ∷ []) ∷ [])
unfolding park signal_for
newline-wakes_example = newline-wakes 0 two_parked refl refl refl refl
