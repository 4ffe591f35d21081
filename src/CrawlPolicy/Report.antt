-- ===== src/CrawlPolicy/Report.antt =====
-- The report and its bounds: `evaluate_document`, `evaluate_fetch_failure`, the checks of the
-- arguments and `enforce_serialized_output_limit` of src/crawl_policy.rs.
--
-- The fields of the report that are the same in every report are left out: the version, the snapshot
-- of the standard, the trust statement and the list of limitations.
pub mod Laws
use plasmate.Common.{
  Result, ok, err, ℕ, zero, suc, ◌+◌, Bool, true, false, not, ◌&&◌, ◌||◌, Option, none, some, List,
  [], ◌∷◌, ◌++◌, arith, leb, ltb, ◌==◌, if◌then◌else◌, length, is_empty, all,
}
use plasmate.Text.{Text, codes, trim, is_alphabetic}
use plasmate.Intercept.Types.{
  FetchResult, FetchError, navigation_failed, timeout, http_error, url_blocked, too_many_redirects,
  body_too_large,
}
use plasmate.CrawlPolicy.Bound.{bound_string}
use plasmate.CrawlPolicy.Robots.{ParsingReport, Group, parse_robots}
use plasmate.CrawlPolicy.Decide.{Target, DecisionReport, AdvisoryDirective, decide}

abbrev pub max_product_token_bytes : ℕ
max_product_token_bytes = 64

abbrev pub max_timeout_ms : ℕ
max_timeout_ms = 30000

abbrev pub max_serialized_output_bytes : ℕ
max_serialized_output_bytes = 131072

pub record SourceReport : Type 0 where
  pub requested_url : Text
  pub final_url : Option Text
  pub http_status : Option ℕ
  pub classification : Text
  pub content_type : Option Text
  pub content_bytes : ℕ
  pub checks_total : ℕ
  pub checks_completed : ℕ
  pub checks_failed : ℕ

pub record CrawlPolicyReport : Type 0 where
  pub target_url : Text
  pub product_token : Text
  pub source : SourceReport
  pub decision : DecisionReport
  pub parsing : ParsingReport
  pub advisories : List AdvisoryDirective

-- What a text is refused with.
pub data TokenError : Type 0 where
  token_length token_bytes : TokenError

unfoldable pub is_token_byte : ℕ → Bool
is_token_byte b = is_alphabetic b || b == b'-' || b == b'_'

unfoldable pub validate_product_token : Text → Result TokenError Text
unfolding is_token_byte
validate_product_token input =
    let token = trim input in
    if is_empty token || ltb max_product_token_bytes (length token)
    then err token_length
    else if not (all is_token_byte token)
    then err token_bytes
    else ok token

pub data TimeoutError : Type 0 where
  timeout_range : TimeoutError

unfoldable pub validate_timeout : ℕ → Result TimeoutError ℕ
validate_timeout timeout_ms =
    if not (leb 1 timeout_ms && leb timeout_ms max_timeout_ms)
    then err timeout_range
    else ok timeout_ms

abbrev refuse_invalid : DecisionReport → DecisionReport
refuse_invalid d = record d {
  allowed = false;
  reason = codes "robots_invalid_line_limit";
  matched_rule = none;
}

-- `target` is what is read of the target URL and `target_url` the URL printed.
unfoldable pub evaluate_document : Target → Text → Text → Text → FetchResult → CrawlPolicyReport
evaluate_document target target_url product_token robots_url fetched =
    let (groups, parsing) = parse_robots fetched.html in
    let (decision, advisories) = decide target product_token groups in
    record {
      target_url = target_url;
      product_token = product_token;
      source = record {
        requested_url = robots_url;
        final_url = some fetched.url;
        http_status = some fetched.status;
        classification = codes "available";
        content_type = some (bound_string fetched.content_type 256);
        content_bytes = fetched.html_bytes;
        checks_total = 1;
        checks_completed = 1;
        checks_failed = 0;
      };
      decision = if ltb 0 parsing.lines_over_limit then refuse_invalid decision else decision;
      parsing = parsing;
      advisories = advisories;
    }

pub record Failure : Type 0 where
  pub classification : Text
  pub allowed : Bool
  pub reason : Text
  pub status : Option ℕ
  pub final_url : Option Text

abbrev unreachable : Option ℕ → Option Text → Failure
unreachable status url = record {
  classification = codes "unreachable";
  allowed = false;
  reason = codes "robots_unreachable";
  status = status;
  final_url = url;
}

-- The `match error` of `evaluate_fetch_failure`.
unfoldable pub classify : FetchError → Failure
classify (http_error status url) =
    if leb 400 status && leb status 499
    then record {
      classification = codes "unavailable";
      allowed = true;
      reason = codes "robots_unavailable";
      status = some status;
      final_url = some url;
    }
    else unreachable (some status) (some url)
classify (body_too_large limit) = record {
  classification = codes "invalid_too_large";
  allowed = false;
  reason = codes "robots_invalid";
  status = none;
  final_url = none;
}
classify (url_blocked why) = record {
  classification = codes "blocked_redirect_or_destination";
  allowed = false;
  reason = codes "robots_unreachable";
  status = none;
  final_url = none;
}
classify (timeout ms) = unreachable none none
classify (navigation_failed why) = unreachable none none
classify (too_many_redirects n) = unreachable none none

abbrev count_some : Option ℕ → ℕ
count_some none = 0
count_some (some s) = 1

abbrev count_none : Option ℕ → ℕ
count_none none = 1
count_none (some s) = 0

abbrev empty_parsing : ParsingReport
empty_parsing = record {
  lines_seen = 0;
  lines_parsed = 0;
  lines_ignored = 0;
  lines_over_limit = 0;
  invalid_utf8_replacements = 0;
  groups_seen = 0;
  rules_seen = 0;
  rules_retained = 0;
  rules_omitted_at_limit = 0;
  empty_disallow_rules_ignored = 0;
}

unfoldable pub evaluate_fetch_failure : Text → Text → Text → FetchError → CrawlPolicyReport
unfolding classify
evaluate_fetch_failure target_url product_token robots_url error =
    let f = classify error in
    record {
      target_url = target_url;
      product_token = product_token;
      source = record {
        requested_url = robots_url;
        final_url = f.final_url;
        http_status = f.status;
        classification = f.classification;
        content_type = none;
        content_bytes = 0;
        checks_total = 1;
        checks_completed = count_some f.status;
        checks_failed = count_none f.status;
      };
      decision = record {
        allowed = f.allowed;
        reason = f.reason;
        groups_total = 0;
        groups_selected = 0;
        selected_specificity_bytes = none;
        selected_user_agents = [];
        rules_considered = 0;
        rules_matched = 0;
        matched_rule = none;
      };
      parsing = empty_parsing;
      advisories = [];
    }

-- `Vec::pop`
abbrev pub init_of : {A : Type 0} → List A → List A
init_of [] = []
init_of (x ∷ []) = []
init_of (x ∷ y ∷ ys) = x ∷ init_of (y ∷ ys)

abbrev pub drop_advisory : CrawlPolicyReport → CrawlPolicyReport
drop_advisory r = record r { advisories = init_of r.advisories }

abbrev pub drop_agent : CrawlPolicyReport → CrawlPolicyReport
drop_agent r = record r {
  decision = record (r.decision) { selected_user_agents = init_of r.decision.selected_user_agents };
}

pub data LimitError : Type 0 where
  not_measured exceeds_bound out_of_fuel : LimitError

-- One round: `none` when the report fits.
pub data Round : Type 0 where
  fits : Round
  smaller : CrawlPolicyReport → Round
  stop : LimitError → Round

-- The caller's `measure` may fail.
module _ (measure : CrawlPolicyReport → Option ℕ) where
  unfoldable pub shrink : CrawlPolicyReport → Round
  shrink r = elim (measure r) [
    | none ↦ stop not_measured
    | some bytes ↦
        if leb bytes max_serialized_output_bytes
        then fits
        else if not (is_empty r.advisories)
        then smaller (drop_advisory r)
        else if not (is_empty r.decision.selected_user_agents)
        then smaller (drop_agent r)
        else stop exceeds_bound
  ]

  -- The loop, with the report as it leaves it; the fuel bounds the rounds.
  unfoldable pub enforce_loop : ℕ → CrawlPolicyReport → Result LimitError CrawlPolicyReport
  enforce_loop zero r = err out_of_fuel
  enforce_loop (suc fuel) r = elim (shrink r) [
    | fits ↦ ok r
    | smaller r' ↦ enforce_loop fuel r'
    | stop e ↦ err e
  ]

  unfoldable pub enforce_serialized_output_limit :
      CrawlPolicyReport → Result LimitError CrawlPolicyReport
  enforce_serialized_output_limit r =
      enforce_loop (length r.advisories + length r.decision.selected_user_agents + 1) r
