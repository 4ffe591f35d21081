-- ===== src/Cookies/Tests.antt =====
-- Dates, domains and paths of cookies on concrete inputs: src/cdp/cookies.rs.
use plasmate.Common.{
  Bool, List, all, All, ltb, subst, eq_of_some, Option, if◌then◌else◌, refl, In, leb, false, ℕ, ◌+◌,
  ◌-◌, ◌*◌, ◌/◌, ◌≤◌, ◌≡◌, ◌⊎◌, ◌↔◌, true, none, some, [], ◌∷◌, arith,
}
use plasmate.Text.{Text, codes, eq_ignore_case, text_eq, trim_start_of}
use plasmate.Cookies.Matching.{domain_matches}
use plasmate.Cookies.Matching.Laws.{IsAscii, DomainMatches, domain_matches_iff}
use plasmate.Cookies.SameSite.{SameSite}
use plasmate.Cookies.Jar.{Cookie, CookieJar, ParsedUrl, or_else, get_cookies}
use plasmate.Cookies.Header.{parse_set_cookie_header}
use plasmate.Cookies.Header.Hosts.{AlikeOption, parse_set_cookie_header-AlikeOption}
use plasmate.Cookies.Jar.Laws.{GoesTo, get_cookies_iff}
use plasmate.Cookies.Dates.{days_to_ymd, unix_to_http_date, ymd_hms_to_timestamp}
use plasmate.Cookies.Dates.Calendar.{IsDate, day_number, days_before, leap_day, is_leap}
use plasmate.Cookies.Dates.Laws.{days_to_ymd-IsDate}
use plasmate.Cookies.Dates.Timestamps.{
  month_name, ymd_hms_to_timestamp-late, unix_to_http_date-month_late,
}

days_to_ymd-IsDate_example :
    IsDate (days_to_ymd 19782).year (days_to_ymd 19782).month (days_to_ymd 19782).day
    × (day_number (days_to_ymd 19782).year (days_to_ymd 19782).month (days_to_ymd 19782).day
        ≡ 19782 + day_number 1970 1 1)
days_to_ymd-IsDate_example = days_to_ymd-IsDate 19782 (omega arith)

new_year-IsDate : IsDate 2024 1 1
unfolding days_before leap_day is_leap
new_year-IsDate = record {
  year_from = omega arith;
  month_from = omega arith;
  month_to = omega arith;
  day_from = omega arith;
  day_to = omega arith;
}

ymd_hms_to_timestamp-late_example :
    ymd_hms_to_timestamp 2024 1 1 10 30 0
    ≡ some ((day_number 2024 1 1 - day_number 1970 1 1 + 30) * 86400 + 10 * 3600 + 30 * 60 + 0)
ymd_hms_to_timestamp-late_example =
    ymd_hms_to_timestamp-late 2024 1 1 10 30 0 new_year-IsDate (omega arith)

unix_to_http_date-month_late_example :
    (y : ℕ) × (m : ℕ) × (d : ℕ) × IsDate y m d
    × (day_number y m d ≡ 1703462400 / 86400 + day_number 1970 1 1)
    × (((m ≤ 11) × ((unix_to_http_date 1703462400).month ≡ some (month_name (m + 1))))
        ⊎ ((m ≡ 12) × ((unix_to_http_date 1703462400).month ≡ none)))
unix_to_http_date-month_late_example = unix_to_http_date-month_late 1703462400 (omega arith)

domain_matches_iff_example :
    (b : Bool) × (domain_matches (codes "a.B") (codes ".b") ≡ some b)
    × ((b ≡ true) ↔ DomainMatches (codes "a.B") (trim_start_of (codes "." ∷ []) (codes ".b")))
domain_matches_iff_example =
    domain_matches_iff (codes "a.B") (codes ".b") (omega arith, (omega arith, (omega arith, tt)))

-- The character of two bytes in front moves the dot: the subdomain is not found.
domain_matches-two_bytes :
    domain_matches (195 ∷ 169 ∷ codes ".example.com") (codes "example.com") ≡ some false
unfolding domain_matches eq_ignore_case trim_start_of
domain_matches-two_bytes = refl

-- A slice from the second byte of a character.
domain_matches-panic : domain_matches (195 ∷ 169 ∷ []) (codes "a") ≡ none
unfolding domain_matches eq_ignore_case trim_start_of
domain_matches-panic = refl

abbrev session : Cookie ℕ
session = record {
  name = codes "session";
  value = codes "abc";
  domain = codes ".example.com";
  path = codes "/";
  expires = some 500;
  http_only = true;
  secure = false;
  same_site = SameSite.lax;
  size = 10;
}

abbrev jar : CookieJar ℕ
jar = record { cookies = session ∷ [] }

abbrev page : ParsedUrl
page = record { host_str = some (codes "a.example.com"); path = codes "/d"; scheme = codes "http" }

abbrev parse : Text → Option ParsedUrl
parse url = some page

IsAscii-text : (s : Text) → all (λ b. ltb b 128) s ≡ true → All IsAscii s
IsAscii-text [] h = tt
IsAscii-text (b ∷ s) h = (ground arith, IsAscii-text s (ground arith))

page-IsAscii :
    (u : ParsedUrl)
    → parse (codes "http://a.example.com/d") ≡ some u
    → All IsAscii (or_else [] u.host_str) × All IsAscii u.path
page-IsAscii u e =
    subst (λ v. All IsAscii (or_else [] v.host_str) × All IsAscii v.path) (eq_of_some e)
      (IsAscii-text (codes "a.example.com") refl, IsAscii-text (codes "/d") refl)

get_cookies_iff_example :
    (out : List (Cookie ℕ)) × (get_cookies leb parse 400 (codes "http://a.example.com/d") jar
      ≡ some out)
    × (In session out ↔ (
        (u : ParsedUrl) × (parse (codes "http://a.example.com/d") ≡ some u)
        × In session jar.cookies
        × GoesTo leb 400 u session))
get_cookies_iff_example =
    get_cookies_iff leb parse 400 (codes "http://a.example.com/d") jar page-IsAscii session

abbrev request : Text → ParsedUrl
request host = record { host_str = some host; path = codes "/"; scheme = codes "https" }

unfoldable parse_two : Text → Option ParsedUrl
unfolding text_eq
parse_two url =
    if text_eq url (codes "evil")
    then some (request (codes "evil.example"))
    else some (request (codes "bank.example"))

-- A host sets a cookie with the domain of another.
parse_set_cookie_header-AlikeOption_example :
    AlikeOption
      (codes "evil.example")
      (codes "bank.example")
      (parse_set_cookie_header {Time = ℕ}
        (λ v. none)
        (λ v. none)
        parse_two
        (codes "sid=1; Domain=bank.example")
        (codes "evil"))
      (parse_set_cookie_header {Time = ℕ}
        (λ v. none)
        (λ v. none)
        parse_two
        (codes "sid=1; Domain=bank.example")
        (codes "bank"))
unfolding text_eq parse_two
parse_set_cookie_header-AlikeOption_example =
    parse_set_cookie_header-AlikeOption {Time = ℕ} (λ v. none) (λ v. none) parse_two
      (codes "sid=1; Domain=bank.example") (codes "evil") (codes "bank") (codes "/")
      (codes "evil.example") (codes "bank.example") (codes "https") (codes "https") refl refl
