-- ===== src/Time.antt =====
-- kernel/src/time/mod.rs: timers, the wall clock and the timestamps of files. The hardware tick
-- counter `interrupts::timer_ticks()` is an argument, and so is a byte read from the CMOS.
mod Timers
mod Stamps
mod Calendar
mod Tests
use ristux.Common.{
  ℕ, zero, suc, ◌+◌, ◌-◌, ◌*◌, ◌/◌, ◌%◌, min, Bool, true, false, ◌&&◌, ◌||◌, not, ◌==◌, ltb, leb,
  if◌then◌else◌, Option, none, some, List, [], ◌∷◌, ◌++◌, get_elem?, saturating_add, u8_mod,
  u64_max,
}

-- `config::PIT_TARGET_HZ`.
abbrev pub pit_target_hz : ℕ
pit_target_hz = 100

pub record RtcTime : Type 0 where
  year : ℕ
  month : ℕ
  day : ℕ
  hour : ℕ
  minute : ℕ
  second : ℕ

pub record SleepTimer : Type 0 where
  wake_tick : ℕ
  fired : Bool

pub record TimerQueue : Type 0 where
  timers : List SleepTimer

pub record Timekeeper : Type 0 where
  boot_rtc : RtcTime
  boot_unix_time : ℕ
  boot_tick : ℕ
  file_timestamp_counter : ℕ

abbrev pub new : TimerQueue
new = record { timers = [] }

unfoldable pub sleep_until : TimerQueue → ℕ → TimerQueue
sleep_until q wake_tick = record {
  timers = q.timers ++ (record { wake_tick = wake_tick; fired = false } ∷ []);
}

-- `u64::saturating_mul`.
abbrev pub saturating_mul : ℕ → ℕ → ℕ
saturating_mul a b = min (a * b) u64_max

-- The wake tick that `sleep_for_millis` hands to `sleep_until`: one tick ahead at least.
unfoldable pub millis_deadline : ℕ → ℕ → ℕ
millis_deadline now_tick millis =
    let ticks = saturating_mul millis pit_target_hz / 1000 in
    saturating_add now_tick (if ticks == 0 then 1 else ticks)

unfoldable pub sleep_for_millis : TimerQueue → ℕ → ℕ → TimerQueue
sleep_for_millis q now_tick millis = sleep_until q (millis_deadline now_tick millis)

unfoldable pub poll_timer : ℕ → SleepTimer → ℕ × SleepTimer
poll_timer now t =
    if not t.fired && leb t.wake_tick now then (1, record t { fired = true }) else (0, t)

unfoldable pub poll_timers : ℕ → List SleepTimer → ℕ × List SleepTimer
poll_timers now [] = (0, [])
poll_timers now (t ∷ ts) =
    let (one, u) = poll_timer now t in let (fired, us) = poll_timers now ts in (one + fired, u ∷ us)

unfoldable pub poll : TimerQueue → ℕ → ℕ × TimerQueue
poll q now = let (fired, ts) = poll_timers now q.timers in (fired, record { timers = ts })

-- `saturating_sub` is the subtraction of the natural numbers.
abbrev pub ticks_since_boot : ℕ → Timekeeper → ℕ
ticks_since_boot now state = now - state.boot_tick

unfoldable pub unix_time : ℕ → Timekeeper → ℕ
unix_time now state =
    saturating_add state.boot_unix_time (ticks_since_boot now state / pit_target_hz)

unfoldable pub uptime_millis : ℕ → Timekeeper → ℕ
uptime_millis now state = saturating_mul (ticks_since_boot now state) 1000 / pit_target_hz

-- The timestamp is the new counter.
unfoldable pub filesystem_timestamp : ℕ → Timekeeper → Timekeeper
unfolding unix_time
filesystem_timestamp now state =
    if ltb state.file_timestamp_counter (unix_time now state)
    then record state { file_timestamp_counter = unix_time now state }
    else record state { file_timestamp_counter = saturating_add state.file_timestamp_counter 1 }

-- The value that `read_cmos_bcd` makes of the byte it reads: `(value >> 4) * 10 + (value & 0x0f)`.
unfoldable pub bcd_value : ℕ → ℕ
bcd_value value = value / 16 * 10 + value % 16

unfoldable pub is_leap_year : ℕ → Bool
is_leap_year year = year % 4 == 0 && not (year % 100 == 0) || year % 400 == 0

-- `while year < time.year`: the rounds that are left, the year and the days.
unfoldable pub year_loop : ℕ → ℕ → ℕ → ℕ
year_loop zero year days = days
year_loop (suc rounds) year days =
    year_loop rounds (suc year) (days + (if is_leap_year year then 366 else 365))

abbrev pub month_lengths : List ℕ
month_lengths = 31 ∷ 28 ∷ 31 ∷ 30 ∷ 31 ∷ 30 ∷ 31 ∷ 31 ∷ 30 ∷ 31 ∷ 30 ∷ 31 ∷ []

-- `while month < time.month`; none is the panic of `month_lengths[month - 1]` out of range.
unfoldable pub month_loop : Bool → ℕ → ℕ → ℕ → Option ℕ
month_loop leap zero month days = some days
month_loop leap (suc rounds) month days = elim (get_elem? month_lengths (month - 1)) [
  | none ↦ none
  | some n ↦ month_loop leap rounds (suc month) (days + n + (if month == 2 && leap then 1 else 0))
]

unfoldable pub unix_seconds_from_rtc : RtcTime → Option ℕ
unix_seconds_from_rtc t =
    elim (month_loop (is_leap_year t.year) (t.month - 1) 1 (year_loop (t.year - 1970) 1970 0)) [
      | none ↦ none
      | some days ↦ some ((days + (t.day - 1)) * 86400 + t.hour * 3600 + t.minute * 60 + t.second)
    ]
