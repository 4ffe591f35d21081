-- ===== src/Cookies/Matching.antt =====
-- Which requests a cookie goes to: `domain_matches`, `path_matches` and `get_default_path` of
-- src/cdp/cookies.rs. The source takes the offset of a byte for the number of a character, which differ
-- where the text is not ASCII; a slice that starts within a character panics, and the result is `none`.
pub mod Laws
use plasmate.Common.{
  ℕ, zero, suc, ◌+◌, ◌-◌, Bool, true, false, not, ◌&&◌, ◌||◌, Option, none, some, List, [], ◌∷◌,
  ltb, leb, ◌==◌, if◌then◌else◌, length, drop, take,
}
use plasmate.Text.{
  Text, codes, text_eq, eq_ignore_case, starts_with, ends_with, trim_start_of, split_on,
}

-- A byte of UTF-8 that does not start a character.
abbrev pub is_continuation : ℕ → Bool
is_continuation b = leb 128 b && ltb b 192

-- `text.chars().nth(i)`, by the first byte of the character.
unfoldable pub nth : ℕ → Text → Option ℕ
nth i [] = none
nth zero (b ∷ s) = let rest = nth zero s in if is_continuation b then rest else some b
nth (suc i) (b ∷ s) = nth (if is_continuation b then suc i else i) s

abbrev pub is_char : Option ℕ → ℕ → Bool
is_char none c = false
is_char (some b) c = b == c

-- `text.chars().nth(i) == Some(c)`, for an ASCII character.
abbrev pub at : Text → ℕ → ℕ → Bool
at text i c = is_char (nth i text) c

abbrev pub splits_char : Text → Bool
splits_char [] = false
splits_char (b ∷ s) = is_continuation b

-- `&text[i..]`, for `i` up to the length.
unfoldable pub slice_from : ℕ → Text → Option Text
slice_from i text = if splits_char (drop i text) then none else some (drop i text)

unfoldable pub subdomain_matches : Text → Text → Option Bool
unfolding nth slice_from
subdomain_matches host domain =
    let start = length host - length domain in
    if not (ltb (length domain) (length host)) then some false else elim (slice_from start host) [
      | none ↦ none
      | some suffix ↦ some (eq_ignore_case suffix domain && at host (start - 1) b'.')
    ]

unfoldable pub domain_matches : Text → Text → Option Bool
unfolding subdomain_matches
domain_matches host cookie_domain =
    let domain = trim_start_of (codes "." ∷ []) cookie_domain in
    if eq_ignore_case host domain then some true else subdomain_matches host domain

unfoldable pub path_matches : Text → Text → Bool
unfolding nth
path_matches request_path cookie_path =
    if text_eq request_path cookie_path
    then true
    else if starts_with request_path cookie_path
    then ends_with cookie_path (codes "/") || at request_path (length cookie_path) b'/'
    else false

-- `path.rfind('/')`
unfoldable pub rfind_slash : Text → Option ℕ
rfind_slash [] = none
rfind_slash (c ∷ s) = elim (rfind_slash s) [
  | some i ↦ some (i + 1)
  | none ↦ if c == b'/' then some 0 else none
]

abbrev cut_at : Text → Option ℕ → Text
cut_at path none = codes "/"
cut_at path (some last_slash) = if last_slash == 0 then codes "/" else take last_slash path

unfoldable pub get_default_path : Text → Text
unfolding rfind_slash
get_default_path request_path =
    let path = (split_on b'?' request_path).0 in
    if not (starts_with request_path (codes "/")) then codes "/" else cut_at path (rfind_slash path)
