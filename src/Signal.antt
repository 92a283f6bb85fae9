-- ===== src/Signal.antt =====
-- kernel/src/signal/mod.rs: signal numbers, their default statuses and default actions.
mod Numbers
mod Tests
use ristux.Common.{ℕ, ◌+◌, Bool, true, false, ◌==◌, Option, none, some, if◌then◌else◌}

pub data Signal : Type 0 where
  hup term kill stop int ill trap abrt bus fpe segv usr1 usr2 pipe alarm tstp ttin ttou : Signal
  cont urg xcpu xfsz vtalrm prof winch io pwr sys quit child : Signal

-- The numbers from 16, which is not assigned, and the numbers below.
unfoldable pub from_high_number : ℕ → Option Signal
from_high_number number =
    if number == 17
    then some child
    else if number == 18
    then some cont
    else if number == 19
    then some stop
    else if number == 20
    then some tstp
    else if number == 21
    then some ttin
    else if number == 22
    then some ttou
    else if number == 23
    then some urg
    else if number == 24
    then some xcpu
    else if number == 25
    then some xfsz
    else if number == 26
    then some vtalrm
    else if number == 27
    then some prof
    else if number == 28
    then some winch
    else if number == 29
    then some io
    else if number == 30
    then some pwr
    else if number == 31
    then some sys
    else none

unfoldable pub from_number : ℕ → Option Signal
unfolding from_high_number
from_number number =
    if number == 1
    then some hup
    else if number == 2
    then some int
    else if number == 3
    then some quit
    else if number == 4
    then some ill
    else if number == 5
    then some trap
    else if number == 6
    then some abrt
    else if number == 7
    then some bus
    else if number == 8
    then some fpe
    else if number == 9
    then some kill
    else if number == 10
    then some usr1
    else if number == 11
    then some segv
    else if number == 12
    then some usr2
    else if number == 13
    then some pipe
    else if number == 14
    then some alarm
    else if number == 15
    then some term
    else from_high_number number

unfoldable pub number : Signal → ℕ
number hup = 1
number int = 2
number quit = 3
number ill = 4
number trap = 5
number abrt = 6
number bus = 7
number fpe = 8
number kill = 9
number usr1 = 10
number segv = 11
number usr2 = 12
number pipe = 13
number alarm = 14
number term = 15
number child = 17
number cont = 18
number stop = 19
number tstp = 20
number ttin = 21
number ttou = 22
number urg = 23
number xcpu = 24
number xfsz = 25
number vtalrm = 26
number prof = 27
number winch = 28
number io = 29
number pwr = 30
number sys = 31

-- `128 + self.number() as i32`, which no number of a signal overflows.
unfoldable pub default_status : Signal → ℕ
unfolding number
default_status s = 128 + number s

unfoldable pub has_stop_default : Signal → Bool
has_stop_default stop = true
has_stop_default tstp = true
has_stop_default ttin = true
has_stop_default ttou = true
has_stop_default _ = false

unfoldable pub has_ignore_default : Signal → Bool
has_ignore_default child = true
has_ignore_default cont = true
has_ignore_default urg = true
has_ignore_default winch = true
has_ignore_default _ = false
