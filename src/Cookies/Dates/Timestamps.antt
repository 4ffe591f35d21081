-- ===== src/Cookies/Dates/Timestamps.antt =====
-- Timestamps of dates, and dates of timestamps: src/cdp/cookies.rs.
use plasmate.Common.{
  ℕ, ◌+◌, ◌-◌, ◌*◌, ◌/◌, ◌^◌, ◌≤◌, ◌<◌, ◌≡◌, ◌⊎◌, ap, true, false, none, some, arith, leb, ◌==◌,
  if◌then◌else◌, Bool-cases, inl, inr,
}
use plasmate.Text.{Text, codes}
use plasmate.Cookies.Dates.{
  days_to_ymd, unix_to_http_date, index, months, shifted_year, shifted_month, julian_sum,
  julian_debt, ymd_hms_to_timestamp,
}
use plasmate.Cookies.Dates.Calendar.{from_march, days_before, day_number, IsDate, leap_day-years}
use plasmate.Cookies.Dates.Laws.{days_to_ymd-IsDate}

julian-early_month :
    (m : ℕ)
    → 1 ≤ m
    → m ≤ 2
    → ((m + 12 - 14) / 12 ≡ 0)
      × (367 * (m + 12 - 2 - 12 * ((m + 12 - 14) / 12)) / 12
          ≡ 336 + (if leb m 1 then 0 else if m == 2 then 31 else from_march m))
julian-early_month m from to = (omega arith, ground arith)

julian-late_month :
    (m : ℕ)
    → 3 ≤ m
    → m ≤ 12
    → ((m - 14) / 12 ≡ 0) × (367 * (m - 2 - 12 * ((m - 14) / 12)) / 12 + 29 ≡ from_march m)
unfolding from_march
julian-late_month m from to = (omega arith, ground arith)

julian-early :
    (y m d : ℕ)
    → IsDate y m d
    → m ≤ 2
    → julian_sum y m d + 719162 ≡ julian_debt y m + day_number y m d + 30
unfolding julian_sum julian_debt shifted_year shifted_month day_number days_before
julian-early y m d date to =
    let small : leb m 2 ≡ true = ground arith in
    let month = julian-early_month m date.month_from to in
    rw small (rw month.1 (rw month.0 (ground (arith, date.year_from, date.day_from))))

julian-after :
    (y m d : ℕ)
    → IsDate y m d
    → 3 ≤ m
    → julian_sum y m d + 719162 ≡ julian_debt y m + day_number y m d + 30
unfolding julian_sum julian_debt shifted_year shifted_month day_number days_before
julian-after y m d date from =
    let big : leb m 2 ≡ false = ground arith in
    let not_first : leb m 1 ≡ false = ground arith in
    let not_second : (m == 2) ≡ false = ground arith in
    let month = julian-late_month m from date.month_to in
    let years = leap_day-years y date.year_from in
    rw (big, not_first, not_second)
      (rw month.0 (omega (arith, month.1, month.0, years, date.year_from, date.day_from)))

julian-days :
    (y m d : ℕ) → IsDate y m d → julian_sum y m d + 719162 ≡ julian_debt y m + day_number y m d + 30
julian-days y m d date = elim (Bool-cases (leb m 2)) [
  | inl early ↦ julian-early y m d date (ground arith)
  | inr late ↦ julian-after y m d date (ground arith)
]

epoch-le : (y m d : ℕ) → 1970 ≤ y → 719162 ≤ day_number y m d
unfolding day_number
epoch-le y m d from = omega arith

-- The timestamp that is read from a date is 30 days late: for every date of the calendar from the
-- year 1970 on, it is the number of seconds since the first of January 1970, and 30 days more.
pub ymd_hms_to_timestamp-late :
    (y m d hour min sec : ℕ)
    → IsDate y m d
    → 1970 ≤ y
    → ymd_hms_to_timestamp y m d hour min sec
      ≡ some ((day_number y m d - day_number 1970 1 1 + 30) * 86400 + hour * 3600 + min * 60 + sec)
unfolding ymd_hms_to_timestamp day_number
ymd_hms_to_timestamp-late y m d hour min sec date from =
    let late = julian-days y m d date in
    let epoch = epoch-le y m d from in
    by_debt (julian_sum y m d) (julian_debt y m) (day_number y m d) late epoch
  where
    by_debt :
        (sum debt days : ℕ)
        → sum + 719162 ≡ debt + days + 30
        → 719162 ≤ days
        → (if leb (debt * 86400) (sum * 86400 + hour * 3600 + min * 60 + sec)
            then some (sum * 86400 + hour * 3600 + min * 60 + sec - debt * 86400)
            else none)
          ≡ some ((days - 719162 + 30) * 86400 + hour * 3600 + min * 60 + sec)
    by_debt sum debt days late epoch =
        let fits : leb (debt * 86400) (sum * 86400 + hour * 3600 + min * 60 + sec) ≡ true =
          ground arith in
        rw fits (ap some (omega arith))

-- The name of a month of the calendar, January being the first.
unfoldable pub month_name : ℕ → Text
month_name m =
    if m == 1
    then codes "Jan"
    else if m == 2
    then codes "Feb"
    else if m == 3
    then codes "Mar"
    else if m == 4
    then codes "Apr"
    else if m == 5
    then codes "May"
    else if m == 6
    then codes "Jun"
    else if m == 7
    then codes "Jul"
    else if m == 8
    then codes "Aug"
    else if m == 9
    then codes "Sep"
    else if m == 10
    then codes "Oct"
    else if m == 11
    then codes "Nov"
    else codes "Dec"

months-late : (m : ℕ) → 1 ≤ m → m ≤ 11 → index months m ≡ some (month_name (m + 1))
unfolding month_name
months-late m from to = ground arith

-- The date that is printed for a time names the month after the calendar's month of that time; in
-- December there is no such name, and printing panics.
pub unix_to_http_date-month_late :
    (secs : ℕ)
    → secs / 86400 < 2 ^ 39
    → (y : ℕ) × (m : ℕ) × (d : ℕ) × IsDate y m d
      × (day_number y m d ≡ secs / 86400 + day_number 1970 1 1)
      × (((m ≤ 11) × ((unix_to_http_date secs).month ≡ some (month_name (m + 1))))
          ⊎ ((m ≡ 12) × ((unix_to_http_date secs).month ≡ none)))
unfolding unix_to_http_date
unix_to_http_date-month_late secs h =
    let c = days_to_ymd (secs / 86400) in
    let (date, number) = days_to_ymd-IsDate (secs / 86400) h in
    (c.year, c.month, c.day, date, number, names c.month date.month_from date.month_to)
  where
    names :
        (m : ℕ)
        → 1 ≤ m
        → m ≤ 12
        → ((m ≤ 11) × (index months m ≡ some (month_name (m + 1))))
          ⊎ ((m ≡ 12) × (index months m ≡ none))
    names m from to = elim (Bool-cases (leb m 11)) [
      | inl e ↦ inl (ground arith, months-late m from (ground arith))
      | inr e ↦ let last : m ≡ 12 = ground arith in inr (last, ap (index months) last)
    ]
