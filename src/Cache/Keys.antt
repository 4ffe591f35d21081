-- ===== src/Cache/Keys.antt =====
-- The keys of the cache: `normalize_url`, `normalized_selector` and `cache_key` of src/cache/store.rs.
use plasmate.Common.{
  ℕ, ◌≡◌, ◌≢◌, refl, ap, sym, ◌↔◌, length, length-append, append-cancel_left, not, Option, none,
  some, List, [], ◌∷◌, ◌++◌, arith, is_empty, if◌then◌else◌,
}
use plasmate.Text.{Text, codes, text_eq, trim, trim_end_of, split_on, starts_with, lowercase}

-- The parser of URLs.
pub record UrlApi : Type 1 where
  pub Url : Type 0
  pub parse : Text → Option Url
  pub print : Url → Text
  pub path : Url → Text
  pub set_path : Url → Text → Url
  pub without_fragment : Url → Url

abbrev slashes : List Text
slashes = codes "/" ∷ []

module _ (U : UrlApi) where
  open U use {Url, parse, print, path, set_path, without_fragment}

  abbrev trim_path : Url → Url
  trim_path u =
      if not (text_eq (path u) (codes "/")) then set_path u (trim_end_of slashes (path u)) else u

  unfoldable pub normalize_url : Text → Text
  normalize_url url = elim (parse (trim url)) [
    | some parsed ↦ print (trim_path (without_fragment parsed))
    | none ↦ trim_end_of slashes (split_on b'#' (trim url)).0
  ]

unfoldable pub normalize_text : Text → Option Text
normalize_text s =
    if is_empty s then none else if starts_with s (codes "#") then some s else some (lowercase s)

unfoldable pub normalized_selector : Option Text → Option Text
unfolding normalize_text
normalized_selector none = none
normalized_selector (some selector) = normalize_text (trim selector)

abbrev join_key : Text → Option Text → Text
join_key url_key none = url_key
join_key url_key (some selector) = url_key ++ (codes "::selector=" ++ selector)

module _ (U : UrlApi) where
  unfoldable pub cache_key : Text → Option Text → Text
  unfolding normalized_selector
  cache_key url selector = join_key (normalize_url U url) (normalized_selector selector)

longer : (x y : Text) (c : ℕ) → x ≢ x ++ c ∷ y
longer x y c e = absurd (omega (arith, ap length e, length-append x (c ∷ y)))

join_key-cancel : (k : Text) (a b : Option Text) → join_key k a ≡ join_key k b → a ≡ b
join_key-cancel k none none h = refl
join_key-cancel k none (some b) h = absurd (longer k _ _ h)
join_key-cancel k (some a) none h = absurd (longer k _ _ (sym h))
join_key-cancel k (some a) (some b) h =
    let tails = append-cancel_left k (codes "::selector=" ++ a) (codes "::selector=" ++ b) h in
    ap some (append-cancel_left (codes "::selector=") a b tails)

-- For one URL, two selectors share a cache entry exactly if they are the same once trimmed and, unless
-- they begin with `#`, put in lower case; a blank selector is none.
pub cache_key-selector_iff :
    (U : UrlApi) (url : Text) (a b : Option Text)
    → (cache_key U url a ≡ cache_key U url b) ↔ (normalized_selector a ≡ normalized_selector b)
unfolding cache_key
cache_key-selector_iff U url a b = (
  λ h. join_key-cancel (normalize_url U url) (normalized_selector a) (normalized_selector b) h,
  λ h. ap (join_key (normalize_url U url)) h,
)

-- The text that joins URL and selector is not kept apart from URLs: a URL whose normal form ends in
-- `::selector=` and a selector shares the entry of the shorter URL with that selector.
pub cache_key-collision :
    (U : UrlApi) (url long : Text) (selector : Option Text) (s : Text)
    → normalized_selector selector ≡ some s
    → normalize_url U long ≡ normalize_url U url ++ (codes "::selector=" ++ s)
    → cache_key U long none ≡ cache_key U url selector
unfolding cache_key
cache_key-collision U url long selector s e h = rw e h
