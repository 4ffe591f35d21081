-- ===== src/Cookies/Header/Hosts.antt =====
-- The host of a request and the domain of the cookie that it sets: `parse_set_cookie_header` of
-- src/cdp/cookies.rs.
use plasmate.Common.{
  ◌≡◌, refl, ap, ◌∙◌, Bool, true, false, Option, none, some, List, [], ◌∷◌, is_empty, Bool-cases,
  Option-cases, inl, inr, if◌then◌else◌,
}
use plasmate.Text.{Text, codes, text_eq, trim, split_on, split_once}
use plasmate.Cookies.Matching.{get_default_path}
use plasmate.Cookies.SameSite.{from_str}
use plasmate.Cookies.Jar.{Cookie, ParsedUrl}
use plasmate.Cookies.Header.{
  dotted, parse_attribute, set_expires, set_value, set_given, set_attribute, set_attributes,
  first_cookie, parse_parts, parse_for_host, parse_set_cookie_header,
}

module _ {Time : Type 0} where
  -- One cookie, but that each may have the domain of its own request.
  pub data Alike (h k : Text) (c d : Cookie Time) : Type 0 where
    same : c ≡ d → Alike h k c d
    own_host : d.domain ≡ k → c ≡ record d { domain = h } → Alike h k c d

  pub data AlikeOption (h k : Text) : Option (Cookie Time) → Option (Cookie Time) → Type 0 where
    neither : AlikeOption h k none none
    both : (c d : Cookie Time) → Alike h k c d → AlikeOption h k (some c) (some d)

  -- What an attribute does with the domain: it sets it, or leaves it and does not read it.
  data Treats (f : Cookie Time → Cookie Time) : Type 0 where
    sets_domain : ((c : Cookie Time) (h : Text) → f (record c { domain = h }) ≡ f c) → Treats f
    leaves_domain :
        ((c : Cookie Time) → (f c).domain ≡ c.domain)
        → ((c : Cookie Time) (h : Text) → f (record c { domain = h }) ≡ record (f c) { domain = h })
        → Treats f

  Treats-Alike :
      (f : Cookie Time → Cookie Time) (h k : Text) (c d : Cookie Time)
      → Treats f
      → Alike h k c d
      → Alike h k (f c) (f d)
  Treats-Alike f h k c d t (same e) = same (ap f e)
  Treats-Alike f h k c d (sets_domain s) (own_host own e) = same (ap f e ∙ s d h)
  Treats-Alike f h k c d (leaves_domain l s) (own_host own e) =
      own_host (l d ∙ own) (ap f e ∙ s d h)

  unread : Treats (λ c. c)
  unread = leaves_domain (λ c. refl) (λ c h. refl)

  if-Treats :
      (b : Bool) (f g : Cookie Time → Cookie Time)
      → Treats f
      → Treats g
      → Treats (λ c. if b then f c else g c)
  if-Treats true f g s t = s
  if-Treats false f g s t = t

  module _ (parse_cookie_date : Text → Option Time) (max_age : Text → Option Time) where
    set_expires-Treats : (o : Option Time) → Treats (λ c. set_expires parse_cookie_date max_age o c)
    unfolding set_expires
    set_expires-Treats none = leaves_domain (λ c. refl) (λ c h. refl)
    set_expires-Treats (some time) = leaves_domain (λ c. refl) (λ c h. refl)

    -- The arms behind those of the domain and the path.
    of_same_site : Text → Text → Cookie Time → Cookie Time
    of_same_site name v c =
        if text_eq name (codes "samesite") then record c { same_site = from_str v } else c

    of_max_age : Text → Text → Cookie Time → Cookie Time
    unfolding of_same_site
    of_max_age name v c =
        if text_eq name (codes "max-age")
        then set_expires parse_cookie_date max_age (max_age v) c
        else of_same_site name v c

    of_others : Text → Text → Cookie Time → Cookie Time
    unfolding of_max_age
    of_others name v c =
        if text_eq name (codes "expires")
        then set_expires parse_cookie_date max_age (parse_cookie_date v) c
        else of_max_age name v c

    of_others-Treats : (name v : Text) → Treats (λ c. of_others name v c)
    unfolding of_others of_max_age of_same_site
    of_others-Treats name v =
        if-Treats (text_eq name (codes "expires"))
          (λ c. set_expires parse_cookie_date max_age (parse_cookie_date v) c) (of_max_age name v)
          (set_expires-Treats (parse_cookie_date v))
          (if-Treats (text_eq name (codes "max-age"))
            (λ c. set_expires parse_cookie_date max_age (max_age v) c) (of_same_site name v)
            (set_expires-Treats (max_age v))
            (if-Treats (text_eq name (codes "samesite")) (λ c. record c { same_site = from_str v })
              (λ c. c) (leaves_domain (λ c. refl) (λ c h. refl)) unread))

    set_value-Treats : (name v : Text) → Treats (λ c. set_value parse_cookie_date max_age name v c)
    unfolding set_value of_others of_max_age of_same_site
    set_value-Treats name v =
        if-Treats (text_eq name (codes "domain")) (λ c. record c { domain = dotted v })
          (λ c. if text_eq name (codes "path") then record c { path = v } else of_others name v c)
          (sets_domain (λ c h. refl))
          (if-Treats (text_eq name (codes "path")) (λ c. record c { path = v }) (of_others name v)
            (leaves_domain (λ c. refl) (λ c h. refl)) (of_others-Treats name v))

    set_given-Treats :
        (name : Text) (o : Option Text) → Treats (λ c. set_given parse_cookie_date max_age name o c)
    set_given-Treats name none = unread
    set_given-Treats name (some v) = set_value-Treats name v

    set_attribute-Treats :
        (a : Text × Option Text) → Treats (λ c. set_attribute parse_cookie_date max_age a c)
    unfolding set_attribute
    set_attribute-Treats (name, o) =
        if-Treats (text_eq name (codes "secure")) (λ c. record c { secure = true })
          (λ c.
            if text_eq name (codes "httponly")
            then record c { http_only = true }
            else set_given parse_cookie_date max_age name o c)
          (leaves_domain (λ c. refl) (λ c h. refl))
          (if-Treats (text_eq name (codes "httponly")) (λ c. record c { http_only = true })
            (λ c. set_given parse_cookie_date max_age name o c)
            (leaves_domain (λ c. refl) (λ c h. refl)) (set_given-Treats name o))

    set_attributes-Alike :
        (parts : List Text) (h k : Text) (c d : Cookie Time)
        → Alike h k c d
        → Alike h k
            (set_attributes parse_cookie_date max_age parts c)
            (set_attributes parse_cookie_date max_age parts d)
    unfolding set_attributes
    set_attributes-Alike [] h k c d a = a
    set_attributes-Alike (part ∷ parts) h k c d a = elim (Bool-cases (is_empty (trim part))) [
      | inl e ↦ rw (set_attributes, e) (set_attributes-Alike parts h k c d a)
      | inr e ↦
          rw (set_attributes, e)
            (set_attributes-Alike parts h k _ _ (
              Treats-Alike
                (λ b. set_attribute parse_cookie_date max_age (parse_attribute (trim part)) b) h k c
                d (set_attribute-Treats (parse_attribute (trim part))) a))
    ]

    parse_parts-Alike :
        (parts : Text × List Text) (h k path : Text)
        → AlikeOption h k
            (parse_parts parse_cookie_date max_age parts h path)
            (parse_parts parse_cookie_date max_age parts k path)
    unfolding parse_parts first_cookie
    parse_parts-Alike (pair, attributes) h k path =
        elim (Option-cases (split_once b'=' (trim pair))) [
          | inl e ↦ rw (parse_parts, e) neither
          | inr ((name, value), e) ↦ elim (Bool-cases (is_empty (trim name))) [
            | inl f ↦ rw (parse_parts, e, f) neither
            | inr f ↦
                rw (parse_parts, e, f)
                  (both _ _ (set_attributes-Alike attributes h k _ _ (own_host refl refl)))
          ]
        ]

    -- The domain of a cookie is not checked against the host that sets it: of two requests with one path,
    -- a header makes no cookie for either, or one cookie for both, or two that differ in that each has
    -- the host of its request as its domain. So whatever domain a header gives a cookie at one host, it
    -- can give it at any other.
    pub parse_set_cookie_header-AlikeOption :
        (parse : Text → Option ParsedUrl) (header_value first second path h k : Text)
        (scheme1 scheme2 : Text)
        → parse first ≡ some (record { host_str = some h; path = path; scheme = scheme1 })
        → parse second ≡ some (record { host_str = some k; path = path; scheme = scheme2 })
        → AlikeOption h k
            (parse_set_cookie_header parse_cookie_date max_age parse header_value first)
            (parse_set_cookie_header parse_cookie_date max_age parse header_value second)
    unfolding parse_set_cookie_header parse_for_host
    parse_set_cookie_header-AlikeOption parse header_value first second path h k scheme1 scheme2 e
          f =
        rw (parse_set_cookie_header, e, f)
          (parse_parts-Alike (split_on b';' header_value) h k (get_default_path path))
