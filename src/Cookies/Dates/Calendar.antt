-- ===== src/Cookies/Dates/Calendar.antt =====
-- The dates of src/cdp/cookies.rs against the Gregorian calendar.
use plasmate.Common.{
  ℕ, ◌+◌, ◌-◌, ◌*◌, ◌/◌, ◌%◌, ◌≤◌, ◌<◌, ◌≡◌, ◌⊎◌, Bool, true, false, not, ◌&&◌, ◌||◌, arith, leb,
  ◌==◌, if◌then◌else◌, Bool-cases, inl, inr,
}
use plasmate.Cookies.Dates.{year_of_era, day_of_year}

unfoldable pub is_leap : ℕ → Bool
is_leap y = y % 4 == 0 && (not (y % 100 == 0) || y % 400 == 0)

unfoldable pub leap_day : ℕ → ℕ
leap_day y = if is_leap y then 1 else 0

-- The days of a year that lie before a month; month 13 is the end of the year.
unfoldable pub from_march : ℕ → ℕ
from_march m =
    if m == 3
    then 59
    else if m == 4
    then 90
    else if m == 5
    then 120
    else if m == 6
    then 151
    else if m == 7
    then 181
    else if m == 8
    then 212
    else if m == 9
    then 243
    else if m == 10
    then 273
    else if m == 11
    then 304
    else if m == 12
    then 334
    else 365

unfoldable pub days_before : ℕ → ℕ → ℕ
unfolding from_march leap_day
days_before y m = if leb m 1 then 0 else if m == 2 then 31 else from_march m + leap_day y

-- The days from the first of January of the year 1, counted from 0.
unfoldable pub day_number : ℕ → ℕ → ℕ → ℕ
unfolding days_before
day_number y m d =
    365 * (y - 1) + (y - 1) / 4 - (y - 1) / 100 + (y - 1) / 400 + days_before y m + (d - 1)

-- A date of the calendar from the year 1 on.
pub record IsDate (y m d : ℕ) : Type 0 where
  pub year_from : 1 ≤ y
  pub month_from : 1 ≤ m
  pub month_to : m ≤ 12
  pub day_from : 1 ≤ d
  pub day_to : days_before y m + d ≤ days_before y (m + 1)

pub leap_day-years :
    (y : ℕ)
    → 1 ≤ y
    → y / 4 + y / 400 + (y - 1) / 100 ≡ (y - 1) / 4 + (y - 1) / 400 + y / 100 + leap_day y
unfolding leap_day is_leap
leap_day-years y h = ground arith

pub era_facts :
    (doe : ℕ)
    → doe < 146097
    → (year_of_era doe < 400)
      × (doe
          ≡ 365 * year_of_era doe + year_of_era doe / 4 - year_of_era doe / 100 + day_of_year doe)
      × (day_of_year doe ≤ 365)
unfolding year_of_era day_of_year
era_facts doe h = (omega arith, omega arith, omega arith)

-- The last day of the year that begins in March is there in a leap year alone.
pub last_day : (doe : ℕ) → doe < 146097 → day_of_year doe ≡ 365 → leap_day (year_of_era doe + 1) ≡ 1
unfolding year_of_era day_of_year leap_day is_leap
last_day doe h e = ground arith

pub leap_day-era : (y e : ℕ) → leap_day (y + e * 400) ≡ leap_day y
unfolding leap_day is_leap
leap_day-era y e = ground arith

-- A day of the year `y` that begins in March, as month and day of the calendar.
pub march_day-IsDate :
    (y doy mp m : ℕ)
    → 1 ≤ y
    → doy ≤ 365
    → (doy ≡ 365 → leap_day (y + 1) ≡ 1)
    → mp ≡ (5 * doy + 2) / 153
    → m ≡ (if leb 10 mp then mp - 9 else mp + 3)
    → IsDate (if leb m 2 then y + 1 else y) m (doy - (153 * mp + 2) / 5 + 1)
unfolding days_before from_march
march_day-IsDate y doy mp m from to last e f = record {
  year_from = ground arith;
  month_from = ground arith;
  month_to = ground arith;
  day_from = ground arith;
  day_to = ground arith;
}

march_day-before :
    (y doy mp : ℕ)
    → doy ≤ 365
    → mp ≡ (5 * doy + 2) / 153
    → ((10 ≤ mp) × (days_before (y + 1) (mp - 9) + (doy - (153 * mp + 2) / 5) + 306 ≡ doy))
      ⊎ ((mp ≤ 9) × (days_before y (mp + 3) + (doy - (153 * mp + 2) / 5) ≡ 59 + leap_day y + doy))
unfolding days_before from_march
march_day-before y doy mp to e = elim (Bool-cases (leb 10 mp)) [
  | inl late ↦ inl (ground arith, ground arith)
  | inr early ↦ inr (ground arith, ground arith)
]

pub march_day-number :
    (y doy mp m : ℕ)
    → 1 ≤ y
    → doy ≤ 365
    → mp ≡ (5 * doy + 2) / 153
    → m ≡ (if leb 10 mp then mp - 9 else mp + 3)
    → day_number (if leb m 2 then y + 1 else y) m (doy - (153 * mp + 2) / 5 + 1) + 306
      ≡ 365 * y + y / 4 - y / 100 + y / 400 + doy
unfolding day_number
march_day-number y doy mp m from to e f = elim (march_day-before y doy mp to e) [
  | inl (late, same) ↦
      let month : m ≡ mp - 9 = ground arith in
      let early : leb m 2 ≡ true = ground arith in rw early (rw month (omega (arith, same)))
  | inr (early, same) ↦
      let month : m ≡ mp + 3 = ground arith in
      let late : leb m 2 ≡ false = ground arith in
      rw late (rw month (omega (arith, same, leap_day-years y from)))
]
