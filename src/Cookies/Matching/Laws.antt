-- ===== src/Cookies/Matching/Laws.antt =====
-- The rules of src/cdp/cookies.rs for domains and paths, as relations.
use plasmate.Common.{
  ℕ, zero, suc, ◌+◌, ◌-◌, ◌<◌, ◌≡◌, ◌↔◌, refl, ap, sym, ◌∙◌, Bool, true, false, Option, none, some,
  [], ◌∷◌, ◌++◌, arith, All, ◌&&◌, leb, ltb, ◌==◌, length, drop, take, drop-append_self,
  take-append-drop, length-append, Bool-cases, inl, inr,
}
use plasmate.Text.{
  Text, codes, text_eq, text_eq_iff, lowercase, eq_ignore_case, starts_with, ends_with,
  trim_start_of,
}
use plasmate.Text.Search.{starts_with-append, starts_with_sound, ends_with_sound, ends_with-append}
use plasmate.Cookies.Matching.{
  nth, is_char, at, slice_from, subdomain_matches, domain_matches, path_matches,
}

-- A path of a request under a path of a cookie, in the words of RFC 6265.
pub data PathMatches (request_path cookie_path : Text) : Type 0 where
  identical : request_path ≡ cookie_path → PathMatches request_path cookie_path
  under_slash :
      (w rest : Text)
      → cookie_path ≡ w ++ codes "/"
      → request_path ≡ cookie_path ++ rest
      → PathMatches request_path cookie_path
  before_slash :
      (rest : Text)
      → request_path ≡ cookie_path ++ b'/' ∷ rest
      → PathMatches request_path cookie_path

-- On ASCII a character is a byte.
abbrev pub IsAscii : ℕ → Type 0
IsAscii b = b < 128

abbrev head : Text → Option ℕ
head [] = none
head (b ∷ s) = some b

-- Whether the byte at an offset is a given one.
abbrev byte_at : Text → ℕ → ℕ → Bool
byte_at text i c = is_char (head (drop i text)) c

nth-ascii : (s : Text) (i : ℕ) → All IsAscii s → nth i s ≡ head (drop i s)
unfolding nth
nth-ascii [] zero a = refl
nth-ascii [] (suc i) a = refl
nth-ascii (b ∷ s) zero (low, a) =
    let starts : leb 128 b ≡ false = ground arith in rw (starts, nth) refl
nth-ascii (b ∷ s) (suc i) (low, a) =
    let starts : leb 128 b ≡ false = ground arith in rw starts (nth-ascii s i a)

at-ascii : (s : Text) (i c : ℕ) → All IsAscii s → at s i c ≡ byte_at s i c
at-ascii s i c a = ap (λ o. is_char o c) (nth-ascii s i a)

slice_from-ascii : (s : Text) (i : ℕ) → All IsAscii s → slice_from i s ≡ some (drop i s)
unfolding slice_from
slice_from-ascii [] zero a = refl
slice_from-ascii [] (suc i) a = refl
slice_from-ascii (b ∷ s) zero (low, a) =
    let starts : leb 128 b ≡ false = ground arith in rw starts refl
slice_from-ascii (b ∷ s) (suc i) (low, a) = slice_from-ascii s i a

byte_at-split : (s : Text) (i c : ℕ) → byte_at s i c ≡ true → (t : Text) × (drop i s ≡ c ∷ t)
byte_at-split s i c h = first (drop i s) refl h
  where
    first : (d : Text) → drop i s ≡ d → byte_at s i c ≡ true → (t : Text) × (drop i s ≡ c ∷ t)
    first [] e h = let bad : false ≡ true = rw e at h in cc
    first (b ∷ t) e h =
        let same : (b == c) ≡ true = rw e at h in (t, e ∙ ap (λ x. x ∷ t) (ground arith))

byte_at-append : (w t : Text) (c : ℕ) → byte_at (w ++ c ∷ t) (length w) c ≡ true
byte_at-append w t c = rw (drop-append_self w (c ∷ t)) (ground arith)

-- For an ASCII path of a request, a cookie's path is matched exactly if it is that path, or a beginning
-- of it that ends in `/` or before a `/`.
pub path_matches_iff :
    (request_path cookie_path : Text)
    → All IsAscii request_path
    → (path_matches request_path cookie_path ≡ true) ↔ PathMatches request_path cookie_path
unfolding path_matches
path_matches_iff r c a = (there, back)
  where
    there : path_matches r c ≡ true → PathMatches r c
    there h = elim (Bool-cases (text_eq r c)) [
      | inl e ↦ identical ((text_eq_iff r c).0 e)
      | inr e ↦ elim (Bool-cases (starts_with r c)) [
        | inr n ↦ let bad : false ≡ true = rw (e, n, path_matches) at h in cc
        | inl s ↦
            let whole = starts_with_sound r c s in
            elim (Bool-cases (ends_with c (codes "/"))) [
              | inl l ↦
                  let (w, same) = ends_with_sound c (codes "/") l in under_slash w _ same whole
              | inr l ↦
                  let slash : at r (length c) b'/' ≡ true = rw (e, s, l, path_matches) at h in
                  let (t, same) =
                    byte_at-split r (length c) b'/' (sym (at-ascii r (length c) b'/' a) ∙ slash) in
                  before_slash t (whole ∙ ap (c ++◌) same)
            ]
      ]
    ]

    by_start : (rest : Text) → r ≡ c ++ rest → starts_with r c ≡ true
    by_start rest e = rw e (starts_with-append c rest)

    back : PathMatches r c → path_matches r c ≡ true
    back (identical e) = let t = (text_eq_iff r c).1 e in rw (t, path_matches) refl
    back (under_slash w rest e f) =
        let s = by_start rest f in
        let l : ends_with c (codes "/") ≡ true =
          ap (λ x. ends_with x (codes "/")) e ∙ ends_with-append w (codes "/") in
        elim (Bool-cases (text_eq r c)) [
          | inl t ↦ rw (t, path_matches) refl
          | inr t ↦ rw (t, s, l, path_matches) refl
        ]
    back (before_slash rest e) =
        let s = by_start (b'/' ∷ rest) e in
        let l : at r (length c) b'/' ≡ true =
          at-ascii r (length c) b'/' a
          ∙ ap (λ x. byte_at x (length c) b'/') e
          ∙ byte_at-append c rest b'/' in
        elim (Bool-cases (text_eq r c)) [
          | inl t ↦ rw (t, path_matches) refl
          | inr t ↦ elim (Bool-cases (ends_with c (codes "/"))) [
            | inl k ↦ rw (t, s, k, path_matches) refl
            | inr k ↦ rw (t, s, k, l, path_matches) refl
          ]
        ]

-- A host under the domain of a cookie, in the words of RFC 6265: the domain itself, or a name with
-- the domain behind its last labels; letters in either case.
pub data DomainMatches (host domain : Text) : Type 0 where
  same_host : lowercase host ≡ lowercase domain → DomainMatches host domain
  subdomain :
      (labels suffix : Text)
      → host ≡ labels ++ b'.' ∷ suffix
      → lowercase suffix ≡ lowercase domain
      → DomainMatches host domain

length-lowercase : (s : Text) → length (lowercase s) ≡ length s
unfolding lowercase
length-lowercase [] = refl
length-lowercase (c ∷ s) = ap suc (length-lowercase s)

eq_ignore_case_iff : (s t : Text) → (eq_ignore_case s t ≡ true) ↔ (lowercase s ≡ lowercase t)
unfolding eq_ignore_case
eq_ignore_case_iff s t = text_eq_iff (lowercase s) (lowercase t)

drop-next : (s t : Text) (i c : ℕ) → drop i s ≡ c ∷ t → drop (suc i) s ≡ t
drop-next [] t zero c e = cc
drop-next [] t (suc i) c e = cc
drop-next (b ∷ s) t zero c e = cc
drop-next (b ∷ s) t (suc i) c e = drop-next s t i c e

-- The test of a subdomain on bytes.
unfoldable under_domain : Text → Text → Bool
under_domain host domain =
    let start = length host - length domain in
    ltb (length domain) (length host)
    && (eq_ignore_case (drop start host) domain && byte_at host (start - 1) b'.')

subdomain_matches-ascii :
    (host domain : Text)
    → All IsAscii host
    → subdomain_matches host domain ≡ some (under_domain host domain)
unfolding subdomain_matches under_domain
subdomain_matches-ascii host domain a =
    let start = length host - length domain in
    elim (Bool-cases (ltb (length domain) (length host))) [
      | inl longer ↦
          rw (longer, slice_from-ascii host start a, at-ascii host (start - 1) b'.' a) refl
      | inr short ↦ rw short refl
    ]

under_domain_sound :
    (host domain : Text) → under_domain host domain ≡ true → DomainMatches host domain
unfolding under_domain
under_domain_sound host domain h =
    let start = length host - length domain in
    let longer : length domain < length host = ground arith in
    let dot : byte_at host (start - 1) b'.' ≡ true = ground arith in
    let tail : eq_ignore_case (drop start host) domain ≡ true = ground arith in
    let (t, e) = byte_at-split host (start - 1) b'.' dot in
    let prior : start ≡ suc (start - 1) = omega arith in
    let behind : drop start host ≡ t =
      ap (λ i. drop i host) prior ∙ drop-next host t (start - 1) b'.' e in
    subdomain (take (start - 1) host) t
      (sym (take-append-drop (start - 1) host) ∙ ap (take (start - 1) host ++◌) e)
      (ap lowercase (sym behind) ∙ (eq_ignore_case_iff (drop start host) domain).0 tail)

under_domain_complete :
    (domain labels suffix : Text)
    → lowercase suffix ≡ lowercase domain
    → under_domain (labels ++ b'.' ∷ suffix) domain ≡ true
unfolding under_domain
under_domain_complete domain labels suffix e =
    let host = labels ++ b'.' ∷ suffix in
    let same_length : length suffix ≡ length domain =
      sym (length-lowercase suffix) ∙ ap length e ∙ length-lowercase domain in
    let whole : length host ≡ length labels + suc (length suffix) =
      length-append labels (b'.' ∷ suffix) in
    let start : length host - length domain ≡ suc (length labels) = omega arith in
    let before : length host - length domain - 1 ≡ length labels = omega arith in
    let longer : ltb (length domain) (length host) ≡ true = ground arith in
    let behind : drop (suc (length labels)) host ≡ suffix =
      drop-next host suffix (length labels) b'.' (drop-append_self labels (b'.' ∷ suffix)) in
    let tail : eq_ignore_case (drop (length host - length domain) host) domain ≡ true =
      (eq_ignore_case_iff (drop (length host - length domain) host) domain).1
        (ap lowercase (ap (λ i. drop i host) start ∙ behind) ∙ e) in
    let dot : byte_at host (length host - length domain - 1) b'.' ≡ true =
      ap (λ i. byte_at host i b'.') before ∙ byte_at-append labels suffix b'.' in
    rw (longer, tail, dot) refl

-- For an ASCII host the test does not panic, and it is passed exactly if the host is the cookie's domain,
-- without its leading dots, or a subdomain of it.
pub domain_matches_iff :
    (host cookie_domain : Text)
    → All IsAscii host
    → (b : Bool) × (domain_matches host cookie_domain ≡ some b)
      × ((b ≡ true) ↔ DomainMatches host (trim_start_of (codes "." ∷ []) cookie_domain))
unfolding domain_matches
domain_matches_iff host cookie_domain a = elim (Bool-cases (eq_ignore_case host domain)) [
  | inl e ↦ (
    true,
    rw (e, domain_matches) refl,
    (λ h. same_host ((eq_ignore_case_iff host domain).0 e), λ m. refl),
  )
  | inr e ↦ (
    under_domain host domain,
    rw (e, domain_matches) (subdomain_matches-ascii host domain a),
    (under_domain_sound host domain, back e),
  )
]
  where
    domain : Text
    domain = trim_start_of (codes "." ∷ []) cookie_domain

    back :
        eq_ignore_case host domain ≡ false
        → DomainMatches host domain
        → under_domain host domain ≡ true
    back n (same_host e) =
        let bad : false ≡ true = sym n ∙ (eq_ignore_case_iff host domain).1 e in cc
    back n (subdomain labels suffix e f) =
        ap (λ x. under_domain x domain) e ∙ under_domain_complete domain labels suffix f
