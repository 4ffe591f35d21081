-- ===== src/Intercept/Responses/Laws.antt =====
-- What interception does to a response: src/network/intercept.rs.
use plasmate.Common.{
  ℕ, ◌≡◌, ◌⊎◌, refl, Bool, true, false, Option, none, some, List, [], ◌∷◌, map, length, Bool-cases,
  inl, inr,
}
use plasmate.Text.{Text}
use plasmate.Intercept.Kinds.{ResourceType}
use plasmate.Intercept.Types.{FetchResult, ResponseRule, NetworkInterceptor}
use plasmate.Intercept.Patterns.{pattern_matches}
use plasmate.Intercept.Responses.{
  apply_overrides, apply_first, check_response, override_status, override_body,
}

-- What a change of a response leaves as it was.
pub record IsRewrite (before : FetchResult) (out : FetchResult × Bool) : Type 0 where
  pub same_url : out.0.url ≡ before.url
  pub same_content_type : out.0.content_type ≡ before.content_type
  pub same_load_ms : out.0.load_ms ≡ before.load_ms
  pub same_cookies : out.0.set_cookies ≡ before.set_cookies
  pub bytes_counted :
      (out.0.html_bytes ≡ length out.0.html)
      ⊎ ((out.0.html_bytes ≡ before.html_bytes) × (out.0.html ≡ before.html))
  pub reported : (out.1 ≡ true) ⊎ (out.0 ≡ before)

overrides-IsRewrite :
    (s : Option ℕ) (b : Option Text) (r : FetchResult)
    → IsRewrite r (override_body b (override_status s r))
unfolding override_status override_body
overrides-IsRewrite none none r = record {
  same_url = refl;
  same_content_type = refl;
  same_load_ms = refl;
  same_cookies = refl;
  bytes_counted = inr (refl, refl);
  reported = inr refl;
}
overrides-IsRewrite none (some b) r = record {
  same_url = refl;
  same_content_type = refl;
  same_load_ms = refl;
  same_cookies = refl;
  bytes_counted = inl refl;
  reported = inl refl;
}
overrides-IsRewrite (some s) none r = record {
  same_url = refl;
  same_content_type = refl;
  same_load_ms = refl;
  same_cookies = refl;
  bytes_counted = inr (refl, refl);
  reported = inl refl;
}
overrides-IsRewrite (some s) (some b) r = record {
  same_url = refl;
  same_content_type = refl;
  same_load_ms = refl;
  same_cookies = refl;
  bytes_counted = inl refl;
  reported = inl refl;
}

untouched : (r : FetchResult) → IsRewrite r (r, false)
untouched r = record {
  same_url = refl;
  same_content_type = refl;
  same_load_ms = refl;
  same_cookies = refl;
  bytes_counted = inr (refl, refl);
  reported = inr refl;
}

apply_first-IsRewrite :
    (rules : List ResponseRule) (url : Text) (kind : ResourceType) (r : FetchResult)
    → IsRewrite r (apply_first rules url kind r)
unfolding apply_first apply_overrides
apply_first-IsRewrite [] url kind r = untouched r
apply_first-IsRewrite (rule ∷ rules) url kind r =
    elim (Bool-cases (pattern_matches rule.pattern url kind)) [
      | inl e ↦ rw e (overrides-IsRewrite rule.overrides.status rule.overrides.body r)
      | inr e ↦ rw e (apply_first-IsRewrite rules url kind r)
    ]

-- `check_response` never changes the URL, the content type, the load time or the cookies of a
-- response; the byte count it leaves is the length of the body it leaves, or both are those it
-- found; and where it does not report a change the response is the one it was given.
pub check_response-IsRewrite :
    (n : NetworkInterceptor) (url : Text) (kind : ResourceType) (r : FetchResult)
    → IsRewrite r (check_response n url kind r)
unfolding check_response
check_response-IsRewrite n url kind r = elim (Bool-cases n.enabled) [
  | inl on ↦ rw on (apply_first-IsRewrite n.response_rules url kind r)
  | inr off ↦ rw off (untouched r)
]

-- The rules with their header overrides taken out.
abbrev without_header : ResponseRule → ResponseRule
without_header rule = record rule { overrides = record (rule.overrides) { headers = none } }

abbrev pub without_headers : List ResponseRule → List ResponseRule
without_headers rules = map without_header rules

apply_first-without_headers :
    (rules : List ResponseRule) (url : Text) (kind : ResourceType) (r : FetchResult)
    → apply_first (without_headers rules) url kind r ≡ apply_first rules url kind r
unfolding apply_first apply_overrides
apply_first-without_headers [] url kind r = refl
apply_first-without_headers (rule ∷ rules) url kind r =
    rw (apply_first-without_headers rules url kind r)

-- The header overrides of the response rules have no effect: without them every response comes out
-- the same.
pub check_response-headers_ignored :
    (n : NetworkInterceptor) (url : Text) (kind : ResourceType) (r : FetchResult)
    → check_response (record n { response_rules = without_headers n.response_rules }) url kind r
      ≡ check_response n url kind r
unfolding check_response
check_response-headers_ignored n url kind r =
    rw (apply_first-without_headers n.response_rules url kind r)
