-- ===== src/CrawlPolicy/Robots/Count.antt =====
-- The counters of `parse_robots` in src/crawl_policy.rs.
use plasmate.Common.{ℕ, suc, ◌+◌, ◌≤◌, ◌≡◌, Bool, true, false, List, [], ◌∷◌, arith, length}
use plasmate.Text.{Text, split_on}
use plasmate.CrawlPolicy.Robots.Cases.{dispatch_cases, parse_line_cases}
use plasmate.CrawlPolicy.Robots.{
  count_seen, RuleDirective, Group, ParsingReport, Parsing, ignore_line, max_rules, user_agent_line,
  rule_in_group, other_line, dispatch, parse_line, parse_lines, initial, finish, parse_robots,
}

-- `k` lines have been taken up, of which `n` are not yet counted as parsed or ignored.
pub record Counts (k n : ℕ) (r : ParsingReport) : Type 0 where
  pub seen : r.lines_seen ≡ k
  pub lines : r.lines_seen ≡ r.lines_parsed + r.lines_ignored + n
  pub over : r.lines_over_limit ≤ r.lines_ignored
  pub rules :
      r.rules_retained + r.rules_omitted_at_limit + r.empty_disallow_rules_ignored ≤ r.rules_seen
  pub retained : r.rules_retained ≤ max_rules

user_agent_line-Counts :
    (k : ℕ) (value : Text) (s : Parsing)
    → Counts k 1 s.report
    → Counts k 0 (user_agent_line value s).report
unfolding user_agent_line
user_agent_line-Counts k value s c = ground arith

rule_in_group-Counts :
    (k : ℕ) (d : RuleDirective) (value : Text) (g : Group) (s : Parsing)
    → Counts k 1 s.report
    → Counts k 0 (rule_in_group d value g s).report
unfolding rule_in_group
rule_in_group-Counts k d value g s c = ground arith

other_line-Counts :
    (k : ℕ) (name value : Text) (s : Parsing)
    → Counts k 1 s.report
    → Counts k 0 (other_line name value s).report
unfolding other_line
other_line-Counts k name value s c = ground arith

ignore-Counts : (k : ℕ) (s : Parsing) → Counts k 1 s.report → Counts k 0 (ignore_line s).report
ignore-Counts k s c = ground arith

dispatch-Counts :
    (k : ℕ) (name value : Text) (s : Parsing)
    → Counts k 1 s.report
    → Counts k 0 (dispatch name value s).report
dispatch-Counts k name value s c =
    dispatch_cases (λ t. Counts k 0 t.report) name value s (ignore-Counts k s c)
      (user_agent_line-Counts k value s c) (λ d g _. rule_in_group-Counts k d value g s c)
      (other_line-Counts k name value s c)

parse_line-Counts :
    (k : ℕ) (is_first : Bool) (raw : Text) (s : Parsing)
    → Counts k 0 s.report
    → Counts (k + 1) 0 (parse_line is_first raw s).report
parse_line-Counts k is_first raw s c =
    let seen : Counts (k + 1) 1 (count_seen s).report = ground arith in
    parse_line_cases (λ t. Counts (k + 1) 0 t.report) is_first raw s (ground arith)
      (ignore-Counts (k + 1) (count_seen s) seen)
      (λ name value. dispatch-Counts (k + 1) name value (count_seen s) seen)

parse_lines-Counts :
    (k : ℕ) (lines : List Text) (s : Parsing)
    → Counts k 0 s.report
    → Counts (k + length lines) 0 (parse_lines lines s).report
unfolding parse_lines
parse_lines-Counts k [] s c = let e : k + 0 ≡ k = omega arith in rw e c
parse_lines-Counts k (raw ∷ lines) s c =
    let e : k + suc (length lines) ≡ k + 1 + length lines = omega arith in
    rw e (
      parse_lines-Counts (k + 1) lines (parse_line false raw s) (parse_line-Counts k false raw s c))

initial-Counts : (input : Text) → Counts 0 0 (initial input).report
unfolding initial
initial-Counts input = omega arith

-- Every line of the input is seen once and is either parsed or ignored; a line over the limit is
-- ignored; of the rule lines inside a group at most 65536 are kept, and kept, omitted and empty
-- `Disallow` lines are disjoint.
pub parse_robots-Counts :
    (input : Text) → Counts (1 + length (split_on 10 input).1) 0 (parse_robots input).1
unfolding parse_robots finish
parse_robots-Counts input =
    let first =
      parse_line-Counts 0 true (split_on 10 input).0 (initial input) (initial-Counts input) in
    let rest = parse_lines-Counts 1 (split_on 10 input).1 _ (one first) in
    record {
      seen = rest.seen;
      lines = rest.lines;
      over = rest.over;
      rules = rest.rules;
      retained = rest.retained;
    }
  where
    one : {r : ParsingReport} → Counts (0 + 1) 0 r → Counts 1 0 r
    one c = c
