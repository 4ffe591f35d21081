-- ===== src/Intercept/Responses.antt =====
-- Responses that the interceptor changes or makes up: src/network/intercept.rs.
pub mod Laws
use plasmate.Common.{
  ℕ, Bool, true, false, not, Option, none, some, List, [], ◌∷◌, ◌++◌, if◌then◌else◌, length,
}
use plasmate.Text.{Text, codes, eq_ignore_case}
use plasmate.Intercept.Kinds.{
  ResourceType, ErrorReason, timed_out, access_denied, error_reason_name,
}
use plasmate.Intercept.Types.{
  FetchResult, FetchError, navigation_failed, timeout, http_error, FulfillParams, ResponseOverrides,
  ResponseRule, NetworkInterceptor,
}
use plasmate.Intercept.Patterns.{pattern_matches}

-- The overrides of the rule that applies. `headers` is not read.
unfoldable pub override_status : Option ℕ → FetchResult → FetchResult × Bool
override_status none r = (r, false)
override_status (some s) r = (record r { status = s }, true)

unfoldable pub override_body : Option Text → FetchResult × Bool → FetchResult × Bool
override_body none out = out
override_body (some b) (r, modified) = (record r { html = b; html_bytes = length b }, true)

unfoldable pub apply_overrides : ResponseOverrides → FetchResult → FetchResult × Bool
unfolding override_status override_body
apply_overrides o r = override_body o.body (override_status o.status r)

unfoldable pub apply_first :
    List ResponseRule → Text → ResourceType → FetchResult → FetchResult × Bool
unfolding apply_overrides pattern_matches
apply_first [] url kind r = (r, false)
apply_first (rule ∷ rules) url kind r =
    if pattern_matches rule.pattern url kind
    then apply_overrides rule.overrides r
    else apply_first rules url kind r

unfoldable pub check_response :
    NetworkInterceptor → Text → ResourceType → FetchResult → FetchResult × Bool
unfolding apply_first
check_response n url kind r =
    if not n.enabled then (r, false) else apply_first n.response_rules url kind r

-- `headers.iter().find(|(k, _)| k.eq_ignore_ascii_case("content-type"))`
unfoldable pub content_type_of : List (Text × Text) → Text
unfolding eq_ignore_case
content_type_of [] = codes "text/html"
content_type_of ((k, v) ∷ hs) =
    if eq_ignore_case k (codes "content-type") then v else content_type_of hs

abbrev or_empty : Option Text → Text
or_empty none = []
or_empty (some b) = b

unfoldable pub fulfill_request : FulfillParams → Text → FetchResult
unfolding content_type_of
fulfill_request p url = record {
  url = url;
  status = p.status;
  content_type = content_type_of p.headers;
  html = or_empty p.body;
  html_bytes = length (or_empty p.body);
  load_ms = 0;
  set_cookies = [];
}

unfoldable pub fail_request : ErrorReason → Text → FetchError
fail_request timed_out url = timeout 0
fail_request access_denied url = http_error 403 url
fail_request reason url = navigation_failed (error_reason_name reason ++ codes ": " ++ url)
