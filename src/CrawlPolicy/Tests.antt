-- ===== src/CrawlPolicy/Tests.antt =====
-- Robots files and patterns on concrete inputs: src/crawl_policy.rs.
use plasmate.Common.{
  ◌+◌, ◌≡◌, ◌≢◌, ◌⊎◌, ◌↔◌, refl, ap, true, false, none, some, [], ◌∷◌, ◌++◌, arith, length, All, In,
}
use plasmate.Text.{Text, codes, split_on, text_eq, eq_ignore_case}
use plasmate.Wildcard.{Matches, star}
use plasmate.Intercept.Types.{FetchResult, http_error}
use plasmate.CrawlPolicy.Normalize.{normalize_path, plain}
use plasmate.CrawlPolicy.Normalize.Laws.{IsBytes, normalize_path_idempotent}
use plasmate.CrawlPolicy.Match.{pattern_matches, ends_anchored}
use plasmate.CrawlPolicy.Match.Spec.{RuleMatches, NoStar}
use plasmate.CrawlPolicy.Match.Complete.{
  pattern_matches-prefix_iff, pattern_matches-anchored_star_missed,
}
use plasmate.CrawlPolicy.Robots.{Group, Rule, disallow, parse_robots}
use plasmate.CrawlPolicy.Robots.Count.{Counts, parse_robots-Counts}
use plasmate.CrawlPolicy.Robots.Groups.{Numbered, total_rules, parse_robots-Numbered}
use plasmate.CrawlPolicy.Decide.{
  Target, decide, select_groups, target_path, matching, sort_candidates, report_rule, is_allowed,
}
use plasmate.CrawlPolicy.Decide.Verdict.{Forbidden, candidates_of, decide-allowed_iff}
use plasmate.CrawlPolicy.Decide.Select.{Names, HasStar, decide-cause}
use plasmate.CrawlPolicy.Report.{
  CrawlPolicyReport, evaluate_document, evaluate_fetch_failure, enforce_serialized_output_limit,
}
use plasmate.CrawlPolicy.Report.Laws.{Enforced, enforce_serialized_output_limit-Enforced}

abbrev pattern : Text
pattern = codes "/a*b"

abbrev path : Text
path = codes "/axb"

path-NoStar : NoStar path
path-NoStar = (omega arith, (omega arith, (omega arith, (omega arith, tt))))

pattern-IsBytes : IsBytes pattern
pattern-IsBytes = (omega arith, (omega arith, (omega arith, (omega arith, tt))))

pattern_matches-prefix_iff_example :
    (pattern_matches pattern path ≡ true) ↔ Matches (pattern ++ star) path
unfolding ends_anchored
pattern_matches-prefix_iff_example = pattern_matches-prefix_iff pattern path refl path-NoStar

pattern_matches-anchored_star_missed_example :
    RuleMatches (codes "*/$") (codes "/a/") × (pattern_matches (codes "*/$") (codes "/a/") ≡ false)
pattern_matches-anchored_star_missed_example =
    pattern_matches-anchored_star_missed b'/' (codes "a") (omega arith)

normalize_path_idempotent_example :
    normalize_path true (normalize_path true pattern) ≡ normalize_path true pattern
normalize_path_idempotent_example = normalize_path_idempotent true pattern pattern-IsBytes

abbrev robots : Text
robots = codes "User-agent: bot\nDisallow: /a\n"

parse_robots-Counts_example : Counts (1 + length (split_on 10 robots).1) 0 (parse_robots robots).1
parse_robots-Counts_example = parse_robots-Counts robots

parse_robots-Numbered_example :
    Numbered 0 (parse_robots robots).0
    × (total_rules (parse_robots robots).0 ≡ (parse_robots robots).1.rules_retained)
    × ((parse_robots robots).1.groups_seen ≡ length (parse_robots robots).0)
parse_robots-Numbered_example = parse_robots-Numbered robots

abbrev rule : Rule
rule = record {
  directive = disallow;
  pattern = codes "/a";
  pattern_bytes = 2;
  pattern_truncated = false;
  normalized = codes "/a";
  specificity = 2;
}

abbrev bots : Group
bots = record { index = 0; user_agents = codes "bot" ∷ []; rules = rule ∷ []; advisories = [] }

abbrev target : Target
target = record { path = path; query = none }

path-other : path ≢ codes "/robots.txt"
path-other e = absurd (omega (arith, ap length e))

decide-allowed_iff_example :
    ((decide target (codes "bot") (bots ∷ [])).0.allowed ≡ false)
    ↔ Forbidden (candidates_of target (codes "bot") (bots ∷ []))
decide-allowed_iff_example = decide-allowed_iff target (codes "bot") (bots ∷ []) path-other

decide-cause_example :
    (g : Group) × (r : Rule) × In g (bots ∷ [])
    × (Names (codes "bot") g ⊎ (All (λ h. ¬ Names (codes "bot") h) (bots ∷ []) × HasStar g))
    × In r g.rules
    × (r.directive ≡ disallow)
    × RuleMatches r.normalized (target_path target)
unfolding decide select_groups target_path matching sort_candidates report_rule is_allowed text_eq
    eq_ignore_case pattern_matches normalize_path plain
decide-cause_example = decide-cause target (codes "bot") (bots ∷ []) path-other refl

abbrev fetched : FetchResult
fetched = record {
  url = codes "http://a/robots.txt";
  status = 200;
  content_type = codes "text/plain";
  html = robots;
  html_bytes = 29;
  load_ms = 5;
  set_cookies = [];
}

abbrev report : CrawlPolicyReport
report =
    evaluate_document target (codes "http://a/axb") (codes "bot") (codes "http://a/robots.txt")
      fetched

enforce_serialized_output_limit-Enforced_example :
    Enforced
      (λ r. some (length r.target_url))
      report
      (enforce_serialized_output_limit (λ r. some (length r.target_url)) report)
enforce_serialized_output_limit-Enforced_example =
    enforce_serialized_output_limit-Enforced (λ r. some (length r.target_url)) report

abbrev failed : CrawlPolicyReport
failed =
    evaluate_fetch_failure (codes "http://a/") (codes "bot") (codes "http://a/robots.txt")
      (http_error 404 [])
