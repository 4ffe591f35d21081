-- ===== src/Security/Laws.antt =====
-- What the policy of src/network/security.rs lets through.
use plasmate.Common.{
  ◌≡◌, ◌≢◌, ◌⊎◌, refl, ap, ◌∙◌, true, false, not, ◌||◌, Option, none, some, List, [], ◌∷◌, arith,
  All, is_empty, Bool-cases, Option-cases, inl, inr, ok, Result-cases, eq_of_ok, err-ne-ok,
}
use plasmate.Text.{Text, codes, text_eq_iff}
use plasmate.Security.{
  IpAddr, is_global_ip, OutboundUrlPolicy, Url, no_host, invalid_url, scheme_not_allowed,
  has_credentials, metadata_target, dns_failed, no_addresses, resolved_to_blocked, is_some_text,
  or_empty, is_metadata_hostname, literal_ip, is_web_scheme, validate_ip, check_literal, check_host,
  validate_parsed, validate_all, validate_resolved, validate_url_syntax, resolve, check_resolved,
  check_addresses, validate_url,
}

-- Every address that a connection to the URL may take is global: the literal one, or each that the name
-- resolves to, of which there is at least one.
pub data Connects (lookup_host : Text → Option (List IpAddr)) (url : Url) : Type 0 where
  literal :
      (ip : IpAddr)
      → literal_ip url.host ≡ some ip
      → is_global_ip ip ≡ true
      → Connects lookup_host url
  resolved :
      (addresses : List IpAddr)
      → lookup_host (or_empty url.host_str) ≡ some addresses
      → addresses ≢ []
      → All (λ ip. is_global_ip ip ≡ true) addresses
      → Connects lookup_host url

pub record Allowed (lookup_host : Text → Option (List IpAddr)) (url : Url) : Type 0 where
  pub web : (url.scheme ≡ codes "http") ⊎ (url.scheme ≡ codes "https")
  pub no_username : url.username ≡ []
  pub no_password : url.password ≡ none
  pub has_host : url.host_str ≢ none
  pub no_metadata : is_metadata_hostname (or_empty url.host_str) ≡ false
  pub connects : Connects lookup_host url

module _ (policy : OutboundUrlPolicy) (strict : policy.allow_private_network ≡ false) where
  validate_ip-ok :
      (ip : IpAddr) (u : Unit {0}) → validate_ip policy ip ≡ ok u → is_global_ip ip ≡ true
  unfolding validate_ip
  validate_ip-ok ip u h = ground arith

  validate_all-ok :
      (ips : List IpAddr) (u : Unit {0})
      → validate_all policy ips ≡ ok u
      → All (λ ip. is_global_ip ip ≡ true) ips
  unfolding validate_all
  validate_all-ok [] u h = tt
  validate_all-ok (ip ∷ ips) u h = elim (Result-cases (validate_ip policy ip)) [
    | inl (w, e) ↦ (validate_ip-ok ip w e, validate_all-ok ips u (rw (e, validate_all) at h))
    | inr (x, e) ↦ err-ne-ok (resolved_to_blocked ip) u (rw (e, validate_all) at h)
  ]

  validate_resolved-ok :
      (ips : List IpAddr) (u : Unit {0})
      → validate_resolved policy ips ≡ ok u
      → (ips ≢ []) × All (λ ip. is_global_ip ip ≡ true) ips
  unfolding validate_resolved
  validate_resolved-ok [] u h = err-ne-ok no_addresses u h
  validate_resolved-ok (ip ∷ ips) u h = (λ e. (cc), validate_all-ok (ip ∷ ips) u h)

  check_literal-ok :
      (url url' : Url) (ip : Option IpAddr)
      → check_literal policy url ip ≡ ok url'
      → (url ≡ url') × ((ip ≡ none) ⊎ ((a : IpAddr) × (ip ≡ some a) × (is_global_ip a ≡ true)))
  unfolding check_literal
  check_literal-ok url url' none h = (eq_of_ok url url' h, inl refl)
  check_literal-ok url url' (some ip) h = elim (Result-cases (validate_ip policy ip)) [
    | inl (w, e) ↦
        (eq_of_ok url url' (rw (e, check_literal) at h), inr (ip, refl, validate_ip-ok ip w e))
    | inr (x, e) ↦ err-ne-ok x url' (rw (e, check_literal) at h)
  ]

  -- What is known of a URL before its name is looked up.
  record Checked (url : Url) : Type 0 where
    web : (url.scheme ≡ codes "http") ⊎ (url.scheme ≡ codes "https")
    no_username : url.username ≡ []
    no_password : url.password ≡ none
    has_host : url.host_str ≢ none
    no_metadata : is_metadata_hostname (or_empty url.host_str) ≡ false
    literal_global :
        (literal_ip url.host ≡ none)
        ⊎ ((a : IpAddr) × (literal_ip url.host ≡ some a) × (is_global_ip a ≡ true))

  check_host-ok :
      (url url' : Url) (host : Option Text)
      → check_host policy url host ≡ ok url'
      → (url ≡ url')
        × (host ≢ none)
        × (is_metadata_hostname (or_empty host) ≡ false)
        × ((literal_ip url.host ≡ none)
            ⊎ ((a : IpAddr) × (literal_ip url.host ≡ some a) × (is_global_ip a ≡ true)))
  unfolding check_host
  check_host-ok url url' none h = err-ne-ok no_host url' h
  check_host-ok url url' (some host) h = elim (Bool-cases (is_metadata_hostname host)) [
    | inl m ↦ err-ne-ok metadata_target url' (rw (m, strict, check_host) at h)
    | inr m ↦
        let (same, known) =
          check_literal-ok url url' (literal_ip url.host) (rw (m, check_host) at h) in
        (same, λ e. (cc), m, known)
  ]

  validate_parsed-ok :
      (url url' : Url) → validate_parsed policy url ≡ ok url' → (url ≡ url') × Checked url
  unfolding validate_parsed
  validate_parsed-ok url url' h = elim (Bool-cases (is_web_scheme url.scheme)) [
    | inr n ↦ err-ne-ok scheme_not_allowed url' (rw (n, validate_parsed) at h)
    | inl w ↦ elim (Bool-cases (not (is_empty url.username) || is_some_text url.password)) [
      | inl c ↦ err-ne-ok has_credentials url' (rw (w, c, validate_parsed) at h)
      | inr c ↦
          let (same, hosted, plain, known) =
            check_host-ok url url' url.host_str (rw (w, c, validate_parsed) at h) in
          (
            same,
            record {
              web = ground (
                arith,
                text_eq_iff url.scheme (codes "http"),
                text_eq_iff url.scheme (codes "https"),
              );
              no_username = no_username url.username (ground arith);
              no_password = no_password url.password (ground arith);
              has_host = hosted;
              no_metadata = plain;
              literal_global = known;
            },
          )
    ]
  ]
    where
      no_username : (t : Text) → is_empty t ≡ true → t ≡ []
      no_username [] e = refl
      no_username (c ∷ t) e = cc

      no_password : (p : Option Text) → is_some_text p ≡ false → p ≡ none
      no_password none e = refl
      no_password (some t) e = cc

  module _ (parse : Text → Option Url) (lookup_host : Text → Option (List IpAddr)) where
    -- The resolver of the HTTP client, which is asked again at the time of the connection, hands out
    -- under the strict policy only the addresses of the name, at least one, and each of them global.
    pub resolve-AllGlobal :
        (name : Text) (ips : List IpAddr)
        → resolve parse lookup_host policy name ≡ ok ips
        → (lookup_host name ≡ some ips) × (ips ≢ []) × All (λ ip. is_global_ip ip ≡ true) ips
    unfolding resolve
    resolve-AllGlobal name ips h = elim (Option-cases (lookup_host name)) [
      | inl n ↦ err-ne-ok dns_failed ips (rw (n, resolve) at h)
      | inr (found, e) ↦ elim (Result-cases (validate_resolved policy found)) [
        | inr (x, f) ↦ err-ne-ok x ips (rw (e, f, resolve) at h)
        | inl (u, f) ↦
            let same : found ≡ ips = eq_of_ok found ips (rw (e, f, resolve) at h) in
            let (nonempty, global) = validate_resolved-ok found u f in
            (e ∙ ap some same, rw same at nonempty, rw same at global)
      ]
    ]

    check_addresses-ok :
        (url url' : Url) (ip : Option IpAddr)
        → (ip ≡ none) ⊎ ((a : IpAddr) × (ip ≡ some a) × (is_global_ip a ≡ true))
        → literal_ip url.host ≡ ip
        → check_addresses parse lookup_host policy url ip ≡ ok url'
        → (url ≡ url') × Connects lookup_host url
    unfolding check_addresses check_resolved
    check_addresses-ok url url' (some ip) (inl e) l h = cc
    check_addresses-ok url url' (some ip) (inr (a, e, global)) l h =
        (eq_of_ok url url' h, literal a (l ∙ e) global)
    check_addresses-ok url url' none known l h =
        elim (Result-cases (resolve parse lookup_host policy (or_empty url.host_str))) [
          | inr (x, e) ↦ err-ne-ok x url' (rw (strict, e, check_addresses, check_resolved) at h)
          | inl (ips, e) ↦
              let (found, nonempty, global) = resolve-AllGlobal (or_empty url.host_str) ips e in
              (
                eq_of_ok url url' (rw (strict, e, check_addresses, check_resolved) at h),
                resolved ips found nonempty global,
              )
        ]

    -- A URL that the strict policy lets through is the one that was parsed; it is for `http` or `https`,
    -- has a host and no credentials, is no metadata service, and each address that it may connect to is
    -- global, as the resolver answers at that time.
    pub validate_url-Allowed :
        (value : Text) (url : Url)
        → validate_url parse lookup_host policy value ≡ ok url
        → (parse value ≡ some url) × Allowed lookup_host url
    unfolding validate_url validate_url_syntax
    validate_url-Allowed value url h = elim (Option-cases (parse value)) [
      | inl n ↦ err-ne-ok invalid_url url (rw (n, validate_url, validate_url_syntax) at h)
      | inr (found, p) ↦ elim (Result-cases (validate_parsed policy found)) [
        | inr (x, e) ↦ err-ne-ok x url (rw (p, e, validate_url, validate_url_syntax) at h)
        | inl (found', e) ↦
            let (same, c) = validate_parsed-ok found found' e in
            let (last, connects) =
              check_addresses-ok found url (literal_ip found.host) c.literal_global refl
                (rw (p, e, ← same, validate_url, validate_url_syntax) at h) in
            (p ∙ ap some last, rw last at (allowed found c connects))
      ]
    ]
      where
        allowed : (u : Url) → Checked u → Connects lookup_host u → Allowed lookup_host u
        allowed u c k = record {
          web = c.web;
          no_username = c.no_username;
          no_password = c.no_password;
          has_host = c.has_host;
          no_metadata = c.no_metadata;
          connects = k;
        }
