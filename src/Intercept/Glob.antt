-- ===== src/Intercept/Glob.antt =====
-- Glob matching of URLs: `url_glob_match` of src/network/intercept.rs.
pub mod Laws
use plasmate.Common.{
  ℕ, ◌+◌, Bool, true, false, ◌||◌, none, some, List, [], ◌∷◌, if◌then◌else◌, length, drop, is_empty,
}
use plasmate.Text.{Text, codes, text_eq, starts_with, ends_with, find, split_on}

-- The loop over the middle parts and the test of the last part. What is left of the URL stands
-- for `url[pos..]`.
unfoldable pub glob_rest : List Text → Text → Bool
glob_rest [] rest = true
glob_rest (last ∷ []) rest = is_empty last || ends_with rest last
glob_rest (part ∷ next ∷ more) rest = elim (is_empty part) [
  | true ↦ glob_rest (next ∷ more) rest
  | false ↦ elim (find rest part) [
    | none ↦ false
    | some idx ↦ glob_rest (next ∷ more) (drop (idx + length part) rest)
  ]
]

unfoldable pub glob_parts : Text → Text → Text → List Text → Bool
unfolding glob_rest
glob_parts pattern url first [] = text_eq url pattern
glob_parts pattern url first (next ∷ more) =
    if is_empty first
    then glob_rest (next ∷ more) url
    else if starts_with url first
    then glob_rest (next ∷ more) (drop (length first) url)
    else false

unfoldable pub url_glob_match : Text → Text → Bool
unfolding glob_parts
url_glob_match pattern url =
    if text_eq pattern (codes "*")
    then true
    else let (first, more) = split_on b'*' pattern in glob_parts pattern url first more
