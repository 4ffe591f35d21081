-- ===== src/Cookies/Dates/Laws.antt =====
-- What the date functions of src/cdp/cookies.rs compute.
use plasmate.Common.{
  ℕ, ◌+◌, ◌-◌, ◌*◌, ◌/◌, ◌^◌, ◌≤◌, ◌<◌, ◌≡◌, refl, ap, ◌∙◌, arith, leb, if◌then◌else◌, Bool-cases,
  inl, inr,
}
use plasmate.Cookies.Dates.{year_of_era, day_of_year, days_to_ymd}
use plasmate.Cookies.Dates.Calendar.{
  leap_day, day_number, IsDate, era_facts, last_day, leap_day-era, march_day-IsDate,
  march_day-number,
}

-- The parts of `days_to_ymd` by name.
abbrev era_of : ℕ → ℕ
era_of n = (n + 719468) / 146097

abbrev doe_of : ℕ → ℕ
doe_of n = n + 719468 - era_of n * 146097

abbrev march_year : ℕ → ℕ
march_year n = year_of_era (doe_of n) + era_of n * 400

abbrev march_month : ℕ → ℕ
march_month n = (5 * day_of_year (doe_of n) + 2) / 153

abbrev month_of : ℕ → ℕ
month_of n = if leb 10 (march_month n) then march_month n - 9 else march_month n + 3

abbrev year_of : ℕ → ℕ
year_of n = if leb (month_of n) 2 then march_year n + 1 else march_year n

abbrev day_of : ℕ → ℕ
day_of n = day_of_year (doe_of n) - (153 * march_month n + 2) / 5 + 1

-- The years of whole eras, and what is left.
by_days :
    (n e y doy doe k : ℕ)
    → y < 400
    → e ≡ (n + 719468) / 146097
    → doe ≡ n + 719468 - e * 146097
    → doe ≡ 365 * y + y / 4 - y / 100 + doy
    → k + 306
      ≡ 365 * (y + e * 400) + (y + e * 400) / 4 - (y + e * 400) / 100 + (y + e * 400) / 400 + doy
    → k ≡ n + 719162
by_days n e y doy doe k small era left split years = omega arith

doe_of-lt : (n : ℕ) → doe_of n < 146097
doe_of-lt n = omega arith

march_year-le : (n : ℕ) → n < 2 ^ 39 → (1 ≤ march_year n) × (march_year n + 1 < 2 ^ 32)
march_year-le n h =
    let facts = era_facts (doe_of n) (doe_of-lt n) in
    (omega (arith, facts.0), omega (arith, facts.0))

days_to_ymd-year : (n : ℕ) → n < 2 ^ 39 → (days_to_ymd n).year ≡ year_of n
unfolding days_to_ymd
days_to_ymd-year n h =
    let (from, to) = march_year-le n h in
    elim (Bool-cases (leb (month_of n) 2)) [
      | inl e ↦ rw e (omega (arith, to))
      | inr e ↦ rw e (omega (arith, to))
    ]

days_to_ymd-parts :
    (n : ℕ)
    → n < 2 ^ 39
    → days_to_ymd n ≡ record { year = year_of n; month = month_of n; day = day_of n }
unfolding days_to_ymd
days_to_ymd-parts n h =
    ap (λ y. record { year = y; month = month_of n; day = day_of n }) (days_to_ymd-year n h)

parts-IsDate : (n : ℕ) → n < 2 ^ 39 → IsDate (year_of n) (month_of n) (day_of n)
parts-IsDate n h =
    let doe = doe_of n in
    let (small, split, to) = era_facts doe (doe_of-lt n) in
    march_day-IsDate (march_year n) (day_of_year doe) (march_month n) (month_of n)
      (march_year-le n h).0 to
      (λ e.
        ap leap_day (next doe)
        ∙ leap_day-era (year_of_era doe + 1) (era_of n)
        ∙ last_day doe (doe_of-lt n) e)
      refl refl
  where
    next : (doe : ℕ) → year_of_era doe + era_of n * 400 + 1 ≡ year_of_era doe + 1 + era_of n * 400
    next doe = omega arith

parts-number : (n : ℕ) → n < 2 ^ 39 → day_number (year_of n) (month_of n) (day_of n) ≡ n + 719162
parts-number n h =
    let doe = doe_of n in
    let (small, split, to) = era_facts doe (doe_of-lt n) in
    let years =
      march_day-number (march_year n) (day_of_year doe) (march_month n) (month_of n)
        (march_year-le n h).0 to refl refl in
    by_days n (era_of n) (year_of_era doe) (day_of_year doe) doe _ small refl refl split years

-- `days_to_ymd` gives the date of the Gregorian calendar: a date that exists, and the one that lies
-- the given number of days behind the first of January 1970, for 2^39 days from the epoch on.
pub days_to_ymd-IsDate :
    (n : ℕ)
    → n < 2 ^ 39
    → IsDate (days_to_ymd n).year (days_to_ymd n).month (days_to_ymd n).day
      × (day_number (days_to_ymd n).year (days_to_ymd n).month (days_to_ymd n).day
          ≡ n + day_number 1970 1 1)
unfolding day_number
days_to_ymd-IsDate n h = rw (days_to_ymd-parts n h) (parts-IsDate n h, parts-number n h)
