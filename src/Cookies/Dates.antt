-- ===== src/Cookies/Dates.antt =====
-- Dates of cookies: `days_to_ymd`, `unix_to_http_date` and `ymd_hms_to_timestamp` of
-- src/cdp/cookies.rs. A time is a whole number of seconds; its conversion from and to a floating-point
-- number is left out.
pub mod Calendar
pub mod Laws
pub mod Timestamps
use plasmate.Common.{
  ℕ, zero, suc, ◌+◌, ◌-◌, ◌*◌, ◌/◌, ◌%◌, ◌^◌, Option, none, some, List, [], ◌∷◌, leb, if◌then◌else◌,
}
use plasmate.Text.{Text, codes}

pub record Ymd : Type 0 where
  pub year : ℕ
  pub month : ℕ
  pub day : ℕ

unfoldable pub year_of_era : ℕ → ℕ
year_of_era doe = (doe - doe / 1460 + doe / 36524 - doe / 146096) / 365

unfoldable pub day_of_year : ℕ → ℕ
unfolding year_of_era
day_of_year doe = let yoe = year_of_era doe in doe - (365 * yoe + yoe / 4 - yoe / 100)

-- `z` is not negative, since `days` is not. The year is cast to 32 bits.
unfoldable pub days_to_ymd : ℕ → Ymd
unfolding year_of_era day_of_year
days_to_ymd days =
    let z = days + 719468 in
    let era = z / 146097 in
    let doe = z - era * 146097 in
    let y = year_of_era doe + era * 400 in
    let mp = (5 * day_of_year doe + 2) / 153 in
    let m = if leb 10 mp then mp - 9 else mp + 3 in
    record {
      year = (if leb m 2 then y + 1 else y) % 2 ^ 32;
      month = m;
      day = day_of_year doe - (153 * mp + 2) / 5 + 1;
    }

-- A slice that is read at an index: `none` is the panic out of range.
abbrev pub index : List Text → ℕ → Option Text
index [] i = none
index (x ∷ xs) zero = some x
index (x ∷ xs) (suc i) = index xs i

abbrev pub months : List Text
months =
    codes "Jan"
    ∷ codes "Feb"
    ∷ codes "Mar"
    ∷ codes "Apr"
    ∷ codes "May"
    ∷ codes "Jun"
    ∷ codes "Jul"
    ∷ codes "Aug"
    ∷ codes "Sep"
    ∷ codes "Oct"
    ∷ codes "Nov"
    ∷ codes "Dec"
    ∷ []

abbrev pub weekdays : List Text
weekdays =
    codes "Sun"
    ∷ codes "Mon"
    ∷ codes "Tue"
    ∷ codes "Wed"
    ∷ codes "Thu"
    ∷ codes "Fri"
    ∷ codes "Sat"
    ∷ []

-- What `unix_to_http_date` prints, in order.
pub record HttpDate : Type 0 where
  pub weekday : Option Text
  pub day : ℕ
  pub month : Option Text
  pub year : ℕ
  pub hours : ℕ
  pub minutes : ℕ
  pub seconds : ℕ

unfoldable pub unix_to_http_date : ℕ → HttpDate
unfolding days_to_ymd
unix_to_http_date secs =
    let days = secs / 86400 in
    let date = days_to_ymd days in
    let time_of_day = secs % 86400 in
    record {
      weekday = index weekdays ((days + 4) % 7);
      day = date.day;
      month = index months date.month;
      year = date.year;
      hours = time_of_day / 3600;
      minutes = time_of_day % 3600 / 60;
      seconds = time_of_day % 60;
    }

-- The `y` and `m` of `ymd_hms_to_timestamp`, with the 4800 years added that the formula adds. As `m` is
-- 3 at least, `(m - 14) / 12`, rounded towards 0, is the same with a difference that stops at 0.
unfoldable pub shifted_year : ℕ → ℕ → ℕ
shifted_year year month = if leb month 2 then year + 4799 else year + 4800

unfoldable pub shifted_month : ℕ → ℕ
shifted_month month = if leb month 2 then month + 12 else month

-- The days since the epoch are the difference of two sums.
unfoldable pub julian_sum : ℕ → ℕ → ℕ → ℕ
unfolding shifted_year shifted_month
julian_sum year month day =
    let y = shifted_year year month in
    let m = shifted_month month in
    let k = (m - 14) / 12 in day + 1461 * (y + k) / 4 + 367 * (m - 2 - 12 * k) / 12

unfoldable pub julian_debt : ℕ → ℕ → ℕ
unfolding shifted_year shifted_month
julian_debt year month =
    let y = shifted_year year month in
    let m = shifted_month month in 32045 + 3 * ((y + 100 + (m - 14) / 12) / 100) / 4 + 2440588

-- The timestamp of a date that is not before the epoch; `none` stands for a negative one.
unfoldable pub ymd_hms_to_timestamp : ℕ → ℕ → ℕ → ℕ → ℕ → ℕ → Option ℕ
unfolding julian_sum julian_debt
ymd_hms_to_timestamp year month day hour min sec =
    let sum = julian_sum year month day * 86400 + hour * 3600 + min * 60 + sec in
    let debt = julian_debt year month * 86400 in if leb debt sum then some (sum - debt) else none
