-- ===== src/Cookies/Jar.antt =====
-- `CookieJar` of src/cdp/cookies.rs. A key of the map is the domain, the path and the name of the cookie
-- that it holds, so the map is the list of its cookies. The jar of the HTTP client, to which each
-- cookie that is set is copied, is left out. A test of a cookie that panics makes the call `none`.
pub mod Laws
use plasmate.Common.{
  ℕ, Bool, true, false, not, ◌&&◌, ◌||◌, Option, none, some, List, [], ◌∷◌, if◌then◌else◌, length,
  keep, any,
}
use plasmate.Text.{Text, codes, text_eq}
use plasmate.Cookies.SameSite.{SameSite}
use plasmate.Cookies.Matching.{domain_matches, path_matches}

pub record Cookie (Time : Type 0) : Type 0 where
  pub name : Text
  pub value : Text
  pub domain : Text
  pub path : Text
  pub expires : Option Time
  pub http_only : Bool
  pub secure : Bool
  pub same_site : SameSite
  pub size : ℕ

pub record CookieJar (Time : Type 0) : Type 0 where
  pub cookies : List (Cookie Time)

-- What is read of a parsed URL.
pub record ParsedUrl : Type 0 where
  pub host_str : Option Text
  pub path : Text
  pub scheme : Text

abbrev pub or_else : Text → Option Text → Text
or_else t none = t
or_else t (some s) = s

abbrev or_url : Option Text → Option Text → Option Text
or_url (some t) u = some t
or_url none u = u

-- The domain and the path of a URL that is given and can be parsed.
abbrev url_defaults : Option ParsedUrl → Option Text × Option Text
url_defaults none = (none, none)
url_defaults (some u) = (u.host_str, some u.path)

abbrev parse_some : (Text → Option ParsedUrl) → Option Text → Option ParsedUrl
parse_some parse none = none
parse_some parse (some url) = parse url

infixl 5 ◌>>=◌
abbrev ◌>>=◌ : {A B : Type 0} → Option A → (A → Option B) → Option B
o >>= f = elim o [ none ↦ none | some a ↦ f a ]

-- A filter whose test may panic.
unfoldable pub keep_checked : {A : Type 0} → (A → Option Bool) → List A → Option (List A)
keep_checked p [] = some []
keep_checked p (a ∷ more) = do
  passed ← p a
  rest ← keep_checked p more
  some (if passed then a ∷ rest else rest)

-- Times are floating-point numbers, of which only the order is used.
module _ {Time : Type 0} where
  unfoldable pub init : CookieJar Time
  init = record { cookies = [] }

  unfoldable pub has_key : Text → Text → Text → Cookie Time → Bool
  has_key domain path name c =
      text_eq c.domain domain && (text_eq c.path path && text_eq c.name name)

  unfoldable pub put : Cookie Time → List (Cookie Time) → List (Cookie Time)
  unfolding has_key
  put c [] = c ∷ []
  put c (d ∷ ds) = if has_key c.domain c.path c.name d then c ∷ ds else d ∷ put c ds

  unfoldable pub take_out : Text → Text → Text → List (Cookie Time) → List (Cookie Time)
  unfolding has_key
  take_out domain path name cs = keep (λ c. not (has_key domain path name c)) cs

  unfoldable pub set_cookie : Cookie Time → CookieJar Time → CookieJar Time
  set_cookie c jar = record jar { cookies = put c jar.cookies }

  unfoldable pub set_cookies : List (Cookie Time) → CookieJar Time → CookieJar Time
  set_cookies [] jar = jar
  set_cookies (c ∷ cs) jar = set_cookies cs (set_cookie c jar)

  -- With whether a cookie was there.
  unfoldable pub remove_cookie : Text → Text → Option Text → CookieJar Time → CookieJar Time × Bool
  remove_cookie name domain path jar =
      let key_path = or_else (codes "/") path in
      (
        record jar { cookies = take_out domain key_path name jar.cookies },
        any (has_key domain key_path name) jar.cookies,
      )

  unfoldable pub clear : CookieJar Time → CookieJar Time
  clear jar = record jar { cookies = [] }

  -- The tests of the loop of `delete_cookies`, in their order.
  unfoldable pub domain_selected : Option Text → Cookie Time → Option Bool
  domain_selected none c = some true
  domain_selected (some d) c = do
    matched ← domain_matches d c.domain
    some (matched || text_eq c.domain d)

  abbrev path_selected : Option Text → Cookie Time → Bool
  path_selected none c = true
  path_selected (some p) c = text_eq c.path p || path_matches p c.path

  unfoldable pub is_selected : Text → Option Text → Option Text → Cookie Time → Option Bool
  unfolding domain_selected
  is_selected name domain path c =
      if not (text_eq c.name name) then some false else elim (domain_selected domain c) [
        | none ↦ none
        | some selected ↦ some (selected && path_selected path c)
      ]

  unfoldable pub take_out_all : List (Cookie Time) → List (Cookie Time) → List (Cookie Time)
  take_out_all [] cs = cs
  take_out_all (d ∷ ds) cs = take_out_all ds (take_out d.domain d.path d.name cs)

  -- With the number of cookies that were removed.
  unfoldable pub delete_cookies :
      (Text → Option ParsedUrl)
      → Text
      → Option Text
      → Option Text
      → Option Text
      → CookieJar Time
      → Option (CookieJar Time × ℕ)
  unfolding keep_checked is_selected take_out_all
  delete_cookies parse name url domain path jar =
      let (url_domain, url_path) = url_defaults (parse_some parse url) in
      elim (keep_checked (is_selected name (or_url domain url_domain) (or_url path url_path))
        jar.cookies) [
          | none ↦ none
          | some to_remove ↦
              some (record jar { cookies = take_out_all to_remove jar.cookies }, length to_remove)
        ]

  module _ (le : Time → Time → Bool) where
    unfoldable pub is_expired : Time → Cookie Time → Bool
    is_expired now c = elim c.expires [ none ↦ false | some expires ↦ le expires now ]

    unfoldable pub get_all_cookies : Time → CookieJar Time → List (Cookie Time)
    get_all_cookies now jar = keep (λ c. not (is_expired now c)) jar.cookies

    -- The tests of the filter of `get_cookies`, in their order.
    unfoldable pub is_sent : Time → ParsedUrl → Cookie Time → Option Bool
    unfolding is_expired
    is_sent now url c =
        if is_expired now c
        then some false
        else if c.secure && not (text_eq url.scheme (codes "https"))
        then some false
        else elim (domain_matches (or_else [] url.host_str) c.domain) [
          | none ↦ none
          | some matched ↦ some (matched && path_matches url.path c.path)
        ]

    unfoldable pub get_cookies :
        (Text → Option ParsedUrl) → Time → Text → CookieJar Time → Option (List (Cookie Time))
    unfolding is_sent keep_checked
    get_cookies parse now url jar = elim (parse url) [
      | none ↦ some []
      | some u ↦ keep_checked (is_sent now u) jar.cookies
    ]
