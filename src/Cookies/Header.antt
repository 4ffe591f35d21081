-- ===== src/Cookies/Header.antt =====
-- The parser of `Set-Cookie`: `parse_set_cookie_header` and `parse_set_cookie` of src/cdp/cookies.rs.
--
-- The deadlines of `Expires` and `Max-Age`, which are floating-point numbers, are arguments. The names
-- of attributes are compared with ASCII names, so that the lowercase of ASCII is enough.
pub mod Hosts
use plasmate.Common.{
  ℕ, ◌+◌, Bool, true, false, Option, none, some, List, [], ◌∷◌, ◌++◌, is_empty, length,
  if◌then◌else◌,
}
use plasmate.Text.{Text, codes, text_eq, trim, lowercase, starts_with, split_on, split_once}
use plasmate.Cookies.SameSite.{SameSite, lax, from_str}
use plasmate.Cookies.Matching.{get_default_path}
use plasmate.Cookies.Jar.{Cookie, CookieJar, ParsedUrl, set_cookie}

-- The name of an attribute, and its value if it has one.
unfoldable pub parse_attribute : Text → Text × Option Text
unfolding trim lowercase split_once
parse_attribute part = elim (split_once b'=' part) [
  | none ↦ (lowercase part, none)
  | some (name, value) ↦ (lowercase (trim name), some (trim value))
]

abbrev pub dotted : Text → Text
unfolding starts_with
dotted v = if starts_with v (codes ".") then v else codes "." ++ v

module _ {Time : Type 0} (parse_cookie_date : Text → Option Time)
    (max_age : Text → Option Time) where
  -- Where there is no time, the cookie keeps the one that it has.
  unfoldable pub set_expires : Option Time → Cookie Time → Cookie Time
  set_expires none c = c
  set_expires (some time) c = record c { expires = some time }

  -- The arms of attributes with a value.
  unfoldable pub set_value : Text → Text → Cookie Time → Cookie Time
  unfolding text_eq set_expires dotted from_str
  set_value name v c =
      if text_eq name (codes "domain")
      then record c { domain = dotted v }
      else if text_eq name (codes "path")
      then record c { path = v }
      else if text_eq name (codes "expires")
      then set_expires (parse_cookie_date v) c
      else if text_eq name (codes "max-age")
      then set_expires (max_age v) c
      else if text_eq name (codes "samesite")
      then record c { same_site = from_str v }
      else c

  abbrev pub set_given : Text → Option Text → Cookie Time → Cookie Time
  set_given name none c = c
  set_given name (some v) c = set_value name v c

  -- `match attr_name.as_str() { … }`
  unfoldable pub set_attribute : Text × Option Text → Cookie Time → Cookie Time
  unfolding text_eq set_value
  set_attribute (name, value) c =
      if text_eq name (codes "secure")
      then record c { secure = true }
      else if text_eq name (codes "httponly")
      then record c { http_only = true }
      else set_given name value c

  unfoldable pub set_attributes : List Text → Cookie Time → Cookie Time
  unfolding set_attribute parse_attribute trim
  set_attributes [] c = c
  set_attributes (part ∷ parts) c =
      if is_empty (trim part)
      then set_attributes parts c
      else set_attributes parts (set_attribute (parse_attribute (trim part)) c)

  unfoldable pub first_cookie : Text → Text → Text → Text → Cookie Time
  first_cookie name value default_domain default_path = record {
    name = name;
    value = value;
    domain = default_domain;
    path = default_path;
    expires = none;
    http_only = false;
    secure = false;
    same_site = lax;
    size = length name + length value;
  }

  -- The pieces of the header between its semicolons: the pair, and the attributes.
  unfoldable pub parse_parts : Text × List Text → Text → Text → Option (Cookie Time)
  unfolding split_once trim first_cookie set_attributes
  parse_parts (pair, attributes) default_domain default_path = elim (split_once b'=' (trim pair)) [
    | none ↦ none
    | some (name, value) ↦
        if is_empty (trim name)
        then none
        else some (
            set_attributes attributes
              (first_cookie (trim name) (trim value) default_domain default_path))
  ]

  unfoldable pub parse_for_host : Text → Text → Option Text → Option (Cookie Time)
  unfolding parse_parts split_on get_default_path
  parse_for_host header_value path none = none
  parse_for_host header_value path (some host) =
      parse_parts (split_on b';' header_value) host (get_default_path path)

  module _ (parse : Text → Option ParsedUrl) where
    unfoldable pub parse_set_cookie_header : Text → Text → Option (Cookie Time)
    unfolding parse_for_host
    parse_set_cookie_header header_value request_url = elim (parse request_url) [
      | none ↦ none
      | some u ↦ parse_for_host header_value u.path u.host_str
    ]

    unfoldable pub parse_set_cookie : Text → Text → CookieJar Time → CookieJar Time
    unfolding parse_set_cookie_header set_cookie
    parse_set_cookie header_value request_url jar =
        elim (parse_set_cookie_header header_value request_url) [
          | none ↦ jar
          | some c ↦ set_cookie c jar
        ]
