-- ===== src/Time/Tests.antt =====
-- The clock at the end of February 2024, two timers over three polls, and three timestamps.
use ristux.Common.{ℕ, suc, ◌≤◌, ◌≡◌, refl, false, some, [], ◌∷◌, arith}
use ristux.Time.{
  RtcTime, TimerQueue, Timekeeper, unix_seconds_from_rtc, year_loop, month_loop, is_leap_year,
  bcd_value, sleep_for_millis, sleep_until, millis_deadline, new, filesystem_timestamp, unix_time,
}
use ristux.Time.Stamps.{stamps, IsIncreasing, stamps-IsIncreasing}
use ristux.Time.Calendar.{IsDate, month_length, next_second, next_second_lem}

abbrev epoch : RtcTime
epoch = record { year = 1970; month = 1; day = 1; hour = 0; minute = 0; second = 0 }

abbrev leap_day_eve : RtcTime
leap_day_eve = record { year = 2024; month = 2; day = 28; hour = 23; minute = 59; second = 59 }

epoch_zero : unix_seconds_from_rtc epoch ≡ some 0
unfolding unix_seconds_from_rtc year_loop month_loop is_leap_year
epoch_zero = refl

leap_day_eve_seconds : unix_seconds_from_rtc leap_day_eve ≡ some 1709164799
unfolding unix_seconds_from_rtc year_loop month_loop is_leap_year
leap_day_eve_seconds = refl

leap_day_second :
    next_second leap_day_eve
    ≡ record { year = 2024; month = 2; day = 29; hour = 0; minute = 0; second = 0 }
unfolding next_second month_length is_leap_year
leap_day_second = refl

bcd_59 : bcd_value 89 ≡ 59
unfolding bcd_value
bcd_59 = refl

leap_day_eve-IsDate : IsDate leap_day_eve
unfolding month_length is_leap_year
leap_day_eve-IsDate = record {
  year_from = omega arith;
  month_from = omega arith;
  month_to = omega arith;
  day_from = omega arith;
  day_to = omega arith;
  hour_to = omega arith;
  minute_to = omega arith;
  second_to = omega arith;
}

next_second_lem_example :
    (n : ℕ) × (unix_seconds_from_rtc leap_day_eve ≡ some n)
    × (unix_seconds_from_rtc (next_second leap_day_eve) ≡ some (suc n))
next_second_lem_example = next_second_lem leap_day_eve leap_day_eve-IsDate

abbrev two_timers : TimerQueue
two_timers = record {
  timers = record { wake_tick = 7; fired = false } ∷ record { wake_tick = 40; fired = false } ∷ [];
}

asleep : sleep_until (sleep_for_millis new 5 20) 40 ≡ two_timers
unfolding sleep_for_millis sleep_until millis_deadline
asleep = refl

abbrev clock : Timekeeper
clock = record {
  boot_rtc = epoch;
  boot_unix_time = 100;
  boot_tick = 50;
  file_timestamp_counter = 100;
}

clock_time : (unix_time 60 clock ≤ 200) × (unix_time 60 clock ≤ 200) × (unix_time 2050 clock ≤ 200)
unfolding unix_time
clock_time = (omega arith, omega arith, omega arith)

clock-stamps : stamps (60 ∷ 60 ∷ 2050 ∷ []) clock ≡ 101 ∷ 102 ∷ 120 ∷ []
unfolding stamps filesystem_timestamp unix_time
clock-stamps = refl

stamps-IsIncreasing_example : IsIncreasing 100 (stamps (60 ∷ 60 ∷ 2050 ∷ []) clock)
stamps-IsIncreasing_example =
    stamps-IsIncreasing (60 ∷ 60 ∷ 2050 ∷ []) 200 clock
      (clock_time.0, (clock_time.1, (clock_time.2, tt))) (omega arith) (omega arith)
