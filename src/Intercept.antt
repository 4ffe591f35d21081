-- ===== src/Intercept.antt =====
-- Network request interception: src/network/intercept.rs.
--
-- The request counter is a static of the process: it is passed in and out, and `"intercept.{n}"` is
-- `RequestId.intercept n`.
pub mod Glob
pub mod Kinds
pub mod Types
pub mod Patterns
pub mod Responses
pub mod Rules
pub mod Log
pub mod Ids
mod Tests
use plasmate.Common.{
  ℕ, ◌+◌, ◌%◌, ◌^◌, Bool, true, false, ◌||◌, not, Option, none, some, List, [], ◌∷◌, ◌++◌, leb,
  if◌then◌else◌, length, drop, is_empty, any, keep,
}
use plasmate.Text.{Text, codes, text_eq}
use Kinds.{ResourceType, is_request_stage, resource_type_name}
use Types.{
  RequestPattern, InterceptAction, proceed, InterceptRule, RequestId, intercept,
  InterceptedRequestInfo, ResponseRule, NetworkInterceptor,
}
use Patterns.{pattern_matches}

unfoldable pub init : NetworkInterceptor
init = record {
  enabled = false;
  patterns = [];
  rules = [];
  response_rules = [];
  intercepted_log = [];
  max_log_entries = 1000;
}

unfoldable pub enable : NetworkInterceptor → List RequestPattern → NetworkInterceptor
enable n patterns = record n { enabled = true; patterns = patterns }

unfoldable pub disable : NetworkInterceptor → NetworkInterceptor
disable n = record n { enabled = false; patterns = []; rules = []; response_rules = [] }

unfoldable pub add_rule : NetworkInterceptor → InterceptRule → NetworkInterceptor
add_rule n rule = record n { rules = n.rules ++ rule ∷ [] }

unfoldable pub add_response_rule : NetworkInterceptor → ResponseRule → NetworkInterceptor
add_response_rule n rule = record n { response_rules = n.response_rules ++ rule ∷ [] }

-- `pattern.url_pattern.as_deref() == Some(url_pattern)`
unfoldable pub has_url_pattern : Text → RequestPattern → Bool
has_url_pattern u p = elim p.url_pattern [ none ↦ false | some v ↦ text_eq v u ]

unfoldable pub remove_rules_by_url : NetworkInterceptor → Text → NetworkInterceptor
unfolding has_url_pattern
remove_rules_by_url n u = record n {
  rules = keep (λ r. not (has_url_pattern u r.pattern)) n.rules;
  response_rules = keep (λ r. not (has_url_pattern u r.pattern)) n.response_rules;
}

unfoldable pub clear_rules : NetworkInterceptor → NetworkInterceptor
clear_rules n = record n { rules = []; response_rules = [] }

unfoldable pub clear_log : NetworkInterceptor → NetworkInterceptor
clear_log n = record n { intercepted_log = [] }

-- `REQUEST_ID_COUNTER.fetch_add(1)` on an `AtomicU64`: the id, and the counter after.
unfoldable pub next_request_id : ℕ → RequestId × ℕ
next_request_id counter = (intercept counter, (counter + 1) % 2 ^ 64)

-- `patterns.is_empty() || patterns.iter().any(…)`
unfoldable pub matches_patterns : List RequestPattern → Text → ResourceType → Bool
unfolding is_request_stage pattern_matches
matches_patterns patterns url kind =
    is_empty patterns
    || any (λ p. if is_request_stage p.request_stage then pattern_matches p url kind else false)
        patterns

-- `Vec::remove(0)` when the log is full, then `push`
unfoldable pub push_log :
    ℕ → List InterceptedRequestInfo → InterceptedRequestInfo → List InterceptedRequestInfo
push_log max log info = (if leb max (length log) then drop 1 log else log) ++ info ∷ []

unfoldable pub request_info : ℕ → Text → ResourceType → Bool → InterceptedRequestInfo
unfolding next_request_id
request_info counter url kind is_navigation = record {
  request_id = (next_request_id counter).0;
  url = url;
  method = codes "GET";
  resource_type = resource_type_name kind;
  is_navigation = is_navigation;
}

-- The loop over the rules.
unfoldable pub first_action : List InterceptRule → Text → ResourceType → InterceptAction
unfolding pattern_matches
first_action [] url kind = proceed none
first_action (r ∷ rs) url kind =
    if pattern_matches r.pattern url kind then r.action else first_action rs url kind

pub record Checked : Type 0 where
  pub counter : ℕ
  pub interceptor : NetworkInterceptor
  pub action : InterceptAction
  pub info : Option InterceptedRequestInfo

unfoldable pub check_request : ℕ → NetworkInterceptor → Text → ResourceType → Bool → Checked
unfolding matches_patterns next_request_id push_log first_action request_info
check_request counter n url kind is_navigation =
    if not n.enabled
    then ignored
    else if not (matches_patterns n.patterns url kind)
    then ignored
    else record {
      counter = (next_request_id counter).1;
      interceptor = record n {
        intercepted_log = push_log n.max_log_entries n.intercepted_log info;
      };
      action = first_action n.rules url kind;
      info = some info;
    }
  where
    ignored : Checked
    ignored = record { counter = counter; interceptor = n; action = proceed none; info = none }

    info : InterceptedRequestInfo
    info = request_info counter url kind is_navigation
