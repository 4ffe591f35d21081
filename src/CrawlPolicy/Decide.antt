-- ===== src/CrawlPolicy/Decide.antt =====
-- The decision: `decide` of src/crawl_policy.rs. A target is what `decide` reads of a parsed URL:
-- its path and its query.
pub mod Select
pub mod Verdict
use Prim.Native.Nat.{compare, Ordering}
use plasmate.Common.{
  ℕ, suc, ◌+◌, Bool, true, false, not, ◌&&◌, ◌||◌, Option, none, some, List, [], ◌∷◌, ◌++◌, arith,
  leb, ltb, ◌==◌, if◌then◌else◌, length, is_empty, any, keep, take, map, ◌≡◌, refl,
}
use plasmate.Text.{Text, codes, text_eq, lowercase, eq_ignore_case}
use plasmate.CrawlPolicy.Normalize.{normalize_path}
use plasmate.CrawlPolicy.Match.{pattern_matches}
use plasmate.CrawlPolicy.Bound.{bound_string}
use plasmate.CrawlPolicy.Robots.{
  RuleDirective, allow, disallow, Rule, Group, max_advisories, max_rule_diagnostic_bytes,
}

pub record Target : Type 0 where
  pub path : Text
  pub query : Option Text

pub record MatchedRule : Type 0 where
  pub group_index : ℕ
  pub directive : Text
  pub pattern : Text
  pub normalized_pattern : Text
  pub pattern_bytes : ℕ
  pub pattern_truncated : Bool
  pub specificity_octets : ℕ

pub record DecisionReport : Type 0 where
  pub allowed : Bool
  pub reason : Text
  pub groups_total : ℕ
  pub groups_selected : ℕ
  pub selected_specificity_bytes : Option ℕ
  pub selected_user_agents : List Text
  pub rules_considered : ℕ
  pub rules_matched : ℕ
  pub matched_rule : Option MatchedRule

pub record AdvisoryDirective : Type 0 where
  pub group_index : ℕ
  pub name : Text
  pub value : Text
  pub normative_for_permission : Bool

unfoldable pub directive_rank : RuleDirective → ℕ
directive_rank allow = 1
directive_rank disallow = 0

unfoldable pub target_path : Target → Text
target_path t = elim t.query [
  | none ↦ normalize_path false t.path
  | some query ↦ normalize_path false (t.path ++ b'?' ∷ query)
]

-- A rule that matches, with the index of its group.
pub record Candidate : Type 0 where
  pub group_index : ℕ
  pub rule : Rule

abbrev then_with : Ordering → Ordering → Ordering
then_with Ordering.eq o = o
then_with Ordering.lt o = Ordering.lt
then_with Ordering.gt o = Ordering.gt

-- `str::cmp`
unfoldable pub compare_text : Text → Text → Ordering
compare_text [] [] = Ordering.eq
compare_text [] (b ∷ t) = Ordering.lt
compare_text (a ∷ s) [] = Ordering.gt
compare_text (a ∷ s) (b ∷ t) = then_with (compare a b) (compare_text s t)

-- The closure of `matching.sort_by`.
unfoldable pub compare_candidates : Candidate → Candidate → Ordering
unfolding directive_rank
compare_candidates left right = then_with (compare right.rule.specificity left.rule.specificity) (
    then_with (compare (directive_rank right.rule.directive) (directive_rank left.rule.directive)) (
      then_with (compare left.group_index right.group_index)
        (compare_text left.rule.pattern right.rule.pattern)))

abbrev pub is_greater : Ordering → Bool
is_greater Ordering.gt = true
is_greater Ordering.lt = false
is_greater Ordering.eq = false

-- `sort_by` is a stable sort.
unfoldable pub insert_candidate : Candidate → List Candidate → List Candidate
insert_candidate c [] = c ∷ []
insert_candidate c (d ∷ ds) =
    if is_greater (compare_candidates c d) then d ∷ insert_candidate c ds else c ∷ d ∷ ds

unfoldable pub sort_candidates : List Candidate → List Candidate
unfolding insert_candidate
sort_candidates [] = []
sort_candidates (c ∷ cs) = insert_candidate c (sort_candidates cs)

-- The loops that collect the matching rules of the selected groups.
unfoldable pub matching_rules : ℕ → List Rule → Text → List Candidate
matching_rules index [] path = []
matching_rules index (r ∷ rs) path =
    let rest = matching_rules index rs path in
    if pattern_matches r.normalized path
    then record { group_index = index; rule = r } ∷ rest
    else rest

unfoldable pub matching : List Group → Text → List Candidate
unfolding matching_rules
matching [] path = []
matching (g ∷ gs) path = matching_rules g.index g.rules path ++ matching gs path

unfoldable pub count_rules : List Group → ℕ
count_rules [] = 0
count_rules (g ∷ gs) = length g.rules + count_rules gs

abbrev pub is_exact : Text → Group → Bool
is_exact token g = any (λ agent. eq_ignore_case agent token) g.user_agents

abbrev pub is_wildcard : Group → Bool
is_wildcard g = any (λ agent. text_eq agent (codes "*")) g.user_agents

-- The selected groups, and how many bytes of the token they fit.
unfoldable pub select_groups : Text → List Group → List Group × Option ℕ
select_groups product_token groups =
    let token = lowercase product_token in
    let exact = keep (is_exact token) groups in
    let wildcard = keep is_wildcard groups in
    if is_empty exact
    then (wildcard, if is_empty wildcard then none else some 0)
    else (exact, some (length token))

unfoldable pub agents_of : List Group → List Text
agents_of [] = []
agents_of (g ∷ gs) = g.user_agents ++ agents_of gs

abbrev advisory_of : ℕ → Text × Text → AdvisoryDirective
advisory_of index (name, value) = record {
  group_index = index;
  name = name;
  value = value;
  normative_for_permission = false;
}

unfoldable pub advisories_of : List Group → List AdvisoryDirective
advisories_of [] = []
advisories_of (g ∷ gs) = map (advisory_of g.index) g.advisories ++ advisories_of gs

abbrev pub directive_name : RuleDirective → Text
directive_name allow = codes "allow"
directive_name disallow = codes "disallow"

unfoldable pub report_rule : Candidate → MatchedRule
report_rule c = record {
  group_index = c.group_index;
  directive = directive_name c.rule.directive;
  pattern = c.rule.pattern;
  normalized_pattern = bound_string c.rule.normalized max_rule_diagnostic_bytes;
  pattern_bytes = c.rule.pattern_bytes;
  pattern_truncated =
      c.rule.pattern_truncated || ltb max_rule_diagnostic_bytes (length c.rule.normalized);
  specificity_octets = c.rule.specificity;
}

abbrev pub head_rule : List Candidate → Option MatchedRule
head_rule [] = none
head_rule (c ∷ cs) = some (report_rule c)

unfoldable pub is_allowed : Option MatchedRule → Bool
is_allowed none = true
is_allowed (some m) = text_eq m.directive (codes "allow")

unfoldable pub reason_of : Option MatchedRule → Text
unfolding is_allowed
reason_of none = codes "no_matching_rule"
reason_of (some m) = if is_allowed (some m) then codes "allow_rule" else codes "disallow_rule"

unfoldable pub decide : Target → Text → List Group → DecisionReport × List AdvisoryDirective
decide target product_token groups =
    let (selected, best_specificity) = select_groups product_token groups in
    let candidates = matching selected (target_path target) in
    let matched_rule = head_rule (sort_candidates candidates) in
    if text_eq target.path (codes "/robots.txt")
    then (
      record {
        allowed = true;
        reason = codes "robots_txt_implicitly_allowed";
        groups_total = length groups;
        groups_selected = 0;
        selected_specificity_bytes = none;
        selected_user_agents = [];
        rules_considered = 0;
        rules_matched = 0;
        matched_rule = none;
      },
      [],
    )
    else (
      record {
        allowed = is_allowed matched_rule;
        reason = reason_of matched_rule;
        groups_total = length groups;
        groups_selected = length selected;
        selected_specificity_bytes = best_specificity;
        selected_user_agents = take 64 (agents_of selected);
        rules_considered = count_rules selected;
        rules_matched = length candidates;
        matched_rule = matched_rule;
      },
      take max_advisories (advisories_of selected),
    )
