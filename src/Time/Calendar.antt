-- ===== src/Time/Calendar.antt =====
-- kernel/src/time/mod.rs: `unix_seconds_from_rtc` counts the seconds of the calendar.
use ristux.Common.{
  ℕ, zero, suc, ◌+◌, ◌-◌, ◌*◌, ◌/◌, ◌%◌, ◌≤◌, ◌<◌, ◌≡◌, ◌∙◌, refl, sym, ap, Bool-cases, inl, inr,
  Bool, true, false, ◌&&◌, ◌||◌, ◌==◌, ltb, if◌then◌else◌, none, some, get_elem?, arith,
}
use ristux.Time.{RtcTime, is_leap_year, year_loop, month_loop, month_lengths, unix_seconds_from_rtc}

-- The Gregorian calendar: the days of a month and of a year.
unfoldable pub month_length : Bool → ℕ → ℕ
month_length leap month =
    if month == 2
    then (if leap then 29 else 28)
    else if month == 4 || month == 6 || month == 9 || month == 11
    then 30
    else 31

-- Every fourth year is a leap year, but of the centuries only every fourth.
abbrev pub gregorian_leap : ℕ → Bool
gregorian_leap year = if year % 100 == 0 then year / 100 % 4 == 0 else year % 4 == 0

is_leap_year_lem : (year : ℕ) → gregorian_leap year ≡ is_leap_year year
unfolding is_leap_year
is_leap_year_lem year = ground arith

abbrev year_length : ℕ → ℕ
year_length year = if is_leap_year year then 366 else 365

pub record IsDate (t : RtcTime) : Type 0 where
  pub year_from : 1970 ≤ t.year
  pub month_from : 1 ≤ t.month
  pub month_to : t.month ≤ 12
  pub day_from : 1 ≤ t.day
  pub day_to : t.day ≤ month_length (gregorian_leap t.year) t.month
  pub hour_to : t.hour < 24
  pub minute_to : t.minute < 60
  pub second_to : t.second < 60

abbrev next_day : RtcTime → RtcTime
next_day t =
    if ltb t.day (month_length (gregorian_leap t.year) t.month)
    then record t { day = suc t.day }
    else if ltb t.month 12
    then record t { month = suc t.month; day = 1 }
    else record t { year = suc t.year; month = 1; day = 1 }

-- A clock's next second, with its carries.
unfoldable pub next_second : RtcTime → RtcTime
next_second t =
    if ltb t.second 59
    then record t { second = suc t.second }
    else if ltb t.minute 59
    then record t { minute = suc t.minute; second = 0 }
    else if ltb t.hour 23
    then record t { hour = suc t.hour; minute = 0; second = 0 }
    else record (next_day t) { hour = 0; minute = 0; second = 0 }

-- The days of `rounds` months, from the month after `month` on.
days_between : Bool → ℕ → ℕ → ℕ
days_between leap month zero = 0
days_between leap month (suc rounds) =
    month_length leap (suc month) + days_between leap (suc month) rounds

month_step :
    (leap : Bool) (m : ℕ)
    → m < 12
    → (n : ℕ) × (get_elem? month_lengths m ≡ some n)
      × (n + (if suc m == 2 && leap then 1 else 0) ≡ month_length leap (suc m))
unfolding month_length
month_step leap zero h = (31, refl, refl)
month_step true (suc zero) h = (28, refl, refl)
month_step false (suc zero) h = (28, refl, refl)
month_step leap (suc (suc zero)) h = (31, refl, refl)
month_step leap (suc (suc (suc zero))) h = (30, refl, refl)
month_step leap (suc (suc (suc (suc zero)))) h = (31, refl, refl)
month_step leap (suc (suc (suc (suc (suc zero))))) h = (30, refl, refl)
month_step leap (suc (suc (suc (suc (suc (suc zero)))))) h = (31, refl, refl)
month_step leap (suc (suc (suc (suc (suc (suc (suc zero))))))) h = (31, refl, refl)
month_step leap (suc (suc (suc (suc (suc (suc (suc (suc zero)))))))) h = (30, refl, refl)
month_step leap (suc (suc (suc (suc (suc (suc (suc (suc (suc zero))))))))) h = (31, refl, refl)
month_step leap (suc (suc (suc (suc (suc (suc (suc (suc (suc (suc zero)))))))))) h =
    (30, refl, refl)
month_step leap (suc (suc (suc (suc (suc (suc (suc (suc (suc (suc (suc zero))))))))))) h =
    (31, refl, refl)
month_step leap (suc (suc (suc (suc (suc (suc (suc (suc (suc (suc (suc (suc m)))))))))))) h =
    absurd (omega arith)

add_none : (m : ℕ) → m ≡ m + 0
add_none m = omega arith

suc_out : (m n : ℕ) → suc m + n ≡ m + suc n
suc_out m n = omega arith

from_one : (m : ℕ) → 1 ≤ m → m ≡ suc (m - 1)
from_one m h = omega arith

suc_diff : (y : ℕ) → 1970 ≤ y → suc y - 1970 ≡ suc (y - 1970)
suc_diff y h = omega arith

add_diff : (y : ℕ) → 1970 ≤ y → 1970 + (y - 1970) ≡ y
add_diff y h = omega arith

twelve : (m : ℕ) → 12 ≤ m → m ≤ 12 → m ≡ 12
twelve m h g = omega arith

pred_suc : (m : ℕ) → suc m - 1 ≡ m
pred_suc m = omega arith

from_zero : (m : ℕ) → 1 ≤ m → m ≡ suc (0 + (m - 1))
from_zero m h = omega arith

next_round :
    (leap : Bool) (rounds month days n : ℕ)
    → get_elem? month_lengths (month - 1) ≡ some n
    → month_loop leap (suc rounds) month days
      ≡ month_loop leap rounds (suc month) (days + n + (if month == 2 && leap then 1 else 0))
unfolding month_loop
next_round leap rounds month days n e =
    ap
      (λ o. elim o [
        | none ↦ none
        | some n ↦
            month_loop leap rounds (suc month) (days + n + (if month == 2 && leap then 1 else 0))
      ])
      e

month_loop_lem :
    (leap : Bool) (rounds month days : ℕ)
    → month + rounds ≤ 12
    → month_loop leap rounds (suc month) days ≡ some (days + days_between leap month rounds)
unfolding month_loop days_between
month_loop_lem leap zero month days h = ap some (omega arith)
month_loop_lem leap (suc rounds) month days h =
    let (n, e, s) = month_step leap month (omega arith) in
    next_round leap rounds (suc month) days n (ap (get_elem? month_lengths) (pred_suc month) ∙ e)
    ∙ month_loop_lem leap rounds (suc month) (days + n + (if suc month == 2 && leap then 1 else 0))
        (omega arith)
    ∙ ap some (omega (arith, s))

days_between-snoc :
    (leap : Bool) (rounds month : ℕ)
    → days_between leap month (suc rounds)
      ≡ days_between leap month rounds + month_length leap (suc (month + rounds))
unfolding days_between
days_between-snoc leap zero month =
    omega (arith, ap (λ m. month_length leap (suc m)) (add_none month))
days_between-snoc leap (suc rounds) month = omega (
  arith,
  days_between-snoc leap rounds (suc month),
  ap (λ m. month_length leap (suc m)) (suc_out month rounds),
)

year_loop-snoc :
    (rounds year days : ℕ)
    → year_loop (suc rounds) year days ≡ year_loop rounds year days + year_length (year + rounds)
unfolding year_loop
year_loop-snoc zero year days = ap (λ y. days + year_length y) (add_none year)
year_loop-snoc (suc rounds) year days =
    year_loop-snoc rounds (suc year) (days + year_length year)
    ∙ ap (λ y. year_loop rounds (suc year) (days + year_length year) + year_length y)
        (suc_out year rounds)

months_of_year : (leap : Bool) → days_between leap 0 12 ≡ (if leap then 366 else 365)
unfolding days_between month_length
months_of_year true = refl
months_of_year false = refl

-- The days before the date.
abbrev day_number : RtcTime → ℕ
day_number t =
    year_loop (t.year - 1970) 1970 0
    + days_between (is_leap_year t.year) 0 (t.month - 1)
    + (t.day - 1)

unix_seconds_from_rtc_lem :
    (t : RtcTime)
    → t.month ≤ 12
    → unix_seconds_from_rtc t
      ≡ some (day_number t * 86400 + t.hour * 3600 + t.minute * 60 + t.second)
unfolding unix_seconds_from_rtc
unix_seconds_from_rtc_lem t h =
    ap
      (λ o. elim o [
        | none ↦ none
        | some days ↦ some ((days + (t.day - 1)) * 86400 + t.hour * 3600 + t.minute * 60 + t.second)
      ])
      (month_loop_lem (is_leap_year t.year) (t.month - 1) 0 (year_loop (t.year - 1970) 1970 0)
        (omega arith))

next_month :
    (t : RtcTime)
    → IsDate t
    → days_between (is_leap_year t.year) 0 t.month
      ≡ days_between (is_leap_year t.year) 0 (t.month - 1)
        + month_length (is_leap_year t.year) t.month
next_month t v =
    ap (days_between (is_leap_year t.year) 0) (from_one t.month v.month_from)
    ∙ days_between-snoc (is_leap_year t.year) (t.month - 1) 0
    ∙ ap
        (λ m.
          days_between (is_leap_year t.year) 0 (t.month - 1) + month_length (is_leap_year t.year) m)
        (sym (from_zero t.month v.month_from))

next_year :
    (t : RtcTime)
    → IsDate t
    → year_loop (suc t.year - 1970) 1970 0 ≡ year_loop (t.year - 1970) 1970 0 + year_length t.year
next_year t v =
    ap (λ n. year_loop n 1970 0) (suc_diff t.year v.year_from)
    ∙ year_loop-snoc (t.year - 1970) 1970 0
    ∙ ap (λ y. year_loop (t.year - 1970) 1970 0 + year_length y) (add_diff t.year v.year_from)

next_day-IsDate : (t : RtcTime) → IsDate t → (next_day t).month ≤ 12
next_day-IsDate t v = ground (arith, v.month_to)

-- December, whose next month is January of the next year.
whole_year :
    (t : RtcTime)
    → IsDate t
    → 12 ≤ t.month
    → days_between (is_leap_year t.year) 0 t.month ≡ year_length t.year
whole_year t v h =
    ap (days_between (is_leap_year t.year) 0) (twelve t.month h v.month_to)
    ∙ months_of_year (is_leap_year t.year)

next_day_lem : (t : RtcTime) → IsDate t → day_number (next_day t) ≡ suc (day_number t)
unfolding days_between
next_day_lem t v =
    let to : t.day ≤ month_length (is_leap_year t.year) t.month =
      rw (is_leap_year_lem t.year) at v.day_to in
    rw (is_leap_year_lem t.year)
      (elim (Bool-cases (ltb t.day (month_length (is_leap_year t.year) t.month))) [
        | inl e ↦ rw e (omega (arith, v.day_from))
        | inr e ↦ elim (Bool-cases (ltb t.month 12)) [
          | inl f ↦
              rw (e, f)
                (ground (
                  arith,
                  e,
                  to,
                  next_month t v,
                  ap (days_between (is_leap_year t.year) 0) (pred_suc t.month),
                ))
          | inr f ↦
              rw (e, f)
                (ground
                  (arith, e, to, next_month t v, next_year t v, whole_year t v (ground (arith, f))))
        ]
      ])

-- For a date of the Gregorian calendar from 1970 on the conversion succeeds, and for the clock's next
-- second, with its carries into minutes, hours, days, months and leap years, it gives one more.
pub next_second_lem :
    (t : RtcTime)
    → IsDate t
    → (n : ℕ) × (unix_seconds_from_rtc t ≡ some n)
      × (unix_seconds_from_rtc (next_second t) ≡ some (suc n))
unfolding next_second
next_second_lem t v = (
  _,
  unix_seconds_from_rtc_lem t v.month_to,
  elim (Bool-cases (ltb t.second 59)) [
    | inl e ↦ rw e (unix_seconds_from_rtc_lem _ v.month_to ∙ ap some (ground (arith, e)))
    | inr e ↦ elim (Bool-cases (ltb t.minute 59)) [
      | inl f ↦ rw (e, f) (unix_seconds_from_rtc_lem _ v.month_to ∙ ap some (ground (arith, e, f)))
      | inr f ↦ elim (Bool-cases (ltb t.hour 23)) [
        | inl g ↦
            rw (e, f, g)
              (unix_seconds_from_rtc_lem _ v.month_to ∙ ap some (ground (arith, e, f, g)))
        | inr g ↦
            rw (e, f, g)
              (unix_seconds_from_rtc_lem _ (next_day-IsDate t v)
                ∙ ap some (ground (arith, e, f, g, next_day_lem t v)))
      ]
    ]
  ],
)
