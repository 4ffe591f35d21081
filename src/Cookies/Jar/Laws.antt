-- ===== src/Cookies/Jar/Laws.antt =====
-- Which cookies a request carries: src/cdp/cookies.rs.
use plasmate.Common.{
  ◌≡◌, ◌⊎◌, ◌↔◌, refl, ap, sym, ◌∙◌, Bool, true, false, Option, none, some, [], ◌∷◌, arith, All, In,
  not, ◌&&◌, List, keep, In-keep, keep-In, Bool-cases, Option-cases, inl, inr,
}
use plasmate.Text.{Text, codes, text_eq, text_eq_iff, trim_start_of}
use plasmate.Cookies.Matching.{path_matches}
use plasmate.Cookies.Matching.Laws.{
  IsAscii, DomainMatches, PathMatches, domain_matches_iff, path_matches_iff,
}
use plasmate.Cookies.Jar.{
  Cookie, CookieJar, ParsedUrl, keep_checked, or_else, is_expired, is_sent, get_cookies,
}

-- The conditions of RFC 6265 under which a cookie goes to a URL.
pub record GoesTo {Time : Type 0} (le : Time → Time → Bool) (now : Time) (url : ParsedUrl)
    (c : Cookie Time) : Type 0 where
  pub lives : (t : Time) → c.expires ≡ some t → le t now ≡ false
  pub safe : (c.secure ≡ false) ⊎ (url.scheme ≡ codes "https")
  pub domain_fits :
      DomainMatches (or_else [] url.host_str) (trim_start_of (codes "." ∷ []) c.domain)
  pub path_fits : PathMatches url.path c.path

keep_checked-keep :
    {A : Type 0} (p : A → Option Bool) (q : A → Bool)
    → ((a : A) → p a ≡ some (q a))
    → (more : List A) → keep_checked p more ≡ some (keep q more)
unfolding keep_checked
keep_checked-keep p q h [] = refl
keep_checked-keep p q h (a ∷ more) = elim (Bool-cases (q a)) [
  | inl e ↦ rw (h a, e, keep_checked-keep p q h more, keep) refl
  | inr e ↦ rw (h a, e, keep_checked-keep p q h more, keep) refl
]

module _ {Time : Type 0} (le : Time → Time → Bool) where
  is_expired_iff :
      (now : Time) (c : Cookie Time)
      → (is_expired le now c ≡ false) ↔ ((t : Time) → c.expires ≡ some t → le t now ≡ false)
  unfolding is_expired
  is_expired_iff now c = elim (Option-cases c.expires) [
    | inl e ↦ (λ h t f. (let bad : none ≡ some t = sym e ∙ f in cc), λ h. rw (e, is_expired) refl)
    | inr (t, e) ↦ (
      λ h u f.
          let same : t ≡ u = eq_some t u (sym e ∙ f) in
          ap (λ x. le x now) (sym same) ∙ (rw (e, is_expired) at h),
      λ h. rw (e, is_expired) (h t e),
    )
  ]
    where
      eq_some : (t u : Time) → some t ≡ some u → t ≡ u
      eq_some t u e = cc

  is_sent_iff :
      (now : Time) (url : ParsedUrl) (c : Cookie Time)
      → All IsAscii (or_else [] url.host_str)
      → All IsAscii url.path
      → (b : Bool) × (is_sent le now url c ≡ some b) × ((b ≡ true) ↔ GoesTo le now url c)
  unfolding is_sent
  is_sent_iff now url c host_ascii path_ascii =
      let https = text_eq_iff url.scheme (codes "https") in
      let (matched, ran, domain) =
        domain_matches_iff (or_else [] url.host_str) c.domain host_ascii in
      let path = path_matches_iff url.path c.path path_ascii in
      let life = is_expired_iff now c in
      elim (Bool-cases (is_expired le now c)) [
        | inl old ↦ (
          false,
          rw (old, is_sent) refl,
          (λ h. cc, λ g. (let alive : is_expired le now c ≡ false = life.1 g.lives in cc)),
        )
        | inr alive ↦ elim (Bool-cases (c.secure && not (text_eq url.scheme (codes "https")))) [
          | inl unsafe ↦ (
            false,
            rw (alive, unsafe, is_sent) refl,
            (λ h. cc, λ g. absurd (ground (arith, g.safe))),
          )
          | inr safe ↦ (
            matched && path_matches url.path c.path,
            rw (alive, safe, ran, is_sent) refl,
            (
              λ h. record {
                lives = life.0 alive;
                safe = ground arith;
                domain_fits = domain.0 (ground arith);
                path_fits = path.0 (ground arith);
              },
              λ g.
                  let here : matched ≡ true = domain.1 g.domain_fits in
                  let there : path_matches url.path c.path ≡ true = path.1 g.path_fits in
                  ground arith,
            ),
          )
        ]
      ]

  -- The cookies for a URL, where the parser of URLs gives ASCII hosts and paths, as it encodes
  -- all others: no test panics, and they are exactly those of the jar that have not expired, that are
  -- not kept for secure connections or the URL is one, and whose domain and path match it; a URL that
  -- cannot be parsed gets none.
  pub get_cookies_iff :
      (parse : Text → Option ParsedUrl) (now : Time) (url : Text) (jar : CookieJar Time)
      → ((u : ParsedUrl)
          → parse url ≡ some u
          → All IsAscii (or_else [] u.host_str) × All IsAscii u.path)
      → (c : Cookie Time)
      → (out : List (Cookie Time)) × (get_cookies le parse now url jar ≡ some out)
        × (In c out
            ↔ ((u : ParsedUrl) × (parse url ≡ some u) × In c jar.cookies × GoesTo le now u c))
  unfolding get_cookies
  get_cookies_iff parse now url jar ascii c = elim (Option-cases (parse url)) [
    | inl e ↦ (
      [],
      rw (e, get_cookies) refl,
      (λ i. absurd i, λ w. (let bad : none ≡ some w.0 = sym e ∙ w.1 in cc)),
    )
    | inr (u, e) ↦
        let (host_ascii, path_ascii) = ascii u e in
        let test : (d : Cookie Time)
            → (b : Bool) × (is_sent le now u d ≡ some b) × ((b ≡ true) ↔ GoesTo le now u d) =
          λ d. is_sent_iff now u d host_ascii path_ascii in
        let passes : Cookie Time → Bool = λ d. (test d).0 in
        (
          keep passes jar.cookies,
          rw (e, get_cookies)
              (keep_checked-keep (is_sent le now u) passes (λ d. (test d).1) jar.cookies),
          (
            λ i.
                let (held, sent) = In-keep passes c jar.cookies i in
                (u, e, held, ((test c).2).0 sent),
            λ w.
                let same : u ≡ w.0 = some_eq u w.0 (sym e ∙ w.1) in
                keep-In passes c jar.cookies w.2 (((test c).2).1 (rw same w.3)),
          ),
        )
  ]
    where
      some_eq : (u v : ParsedUrl) → some u ≡ some v → u ≡ v
      some_eq u v e = cc
