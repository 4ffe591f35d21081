-- ===== src/CrawlPolicy/Robots.antt =====
-- Parsing robots.txt: `parse_robots` of src/crawl_policy.rs.
pub mod Cases
pub mod Count
pub mod Groups
use plasmate.Common.{
  ℕ, suc, ◌+◌, Bool, true, false, not, ◌&&◌, ◌||◌, Option, none, some, List, [], ◌∷◌, ◌++◌, arith,
  leb, ltb, ◌==◌, if◌then◌else◌, length, is_empty, all, ◌≡◌, refl,
}
use plasmate.Text.{
  Text, codes, text_eq, strip_prefix, starts_with, split_on, split_once, trim, trim_end_of,
  lowercase, is_alphabetic,
}
use plasmate.CrawlPolicy.Normalize.{normalize_path}
use plasmate.CrawlPolicy.Match.{pattern_specificity}
use plasmate.CrawlPolicy.Bound.{bound_string}

abbrev pub max_line_bytes : ℕ
max_line_bytes = 512000

abbrev pub max_rule_diagnostic_bytes : ℕ
max_rule_diagnostic_bytes = 8192

abbrev pub max_rules : ℕ
max_rules = 65536

abbrev pub max_advisories : ℕ
max_advisories = 32

pub data RuleDirective : Type 0 where
  allow disallow : RuleDirective

pub record Rule : Type 0 where
  pub directive : RuleDirective
  pub pattern : Text
  pub pattern_bytes : ℕ
  pub pattern_truncated : Bool
  pub normalized : Text
  pub specificity : ℕ

pub record Group : Type 0 where
  pub index : ℕ
  pub user_agents : List Text
  pub rules : List Rule
  pub advisories : List (Text × Text)

pub record ParsingReport : Type 0 where
  pub lines_seen : ℕ
  pub lines_parsed : ℕ
  pub lines_ignored : ℕ
  pub lines_over_limit : ℕ
  pub invalid_utf8_replacements : ℕ
  pub groups_seen : ℕ
  pub rules_seen : ℕ
  pub rules_retained : ℕ
  pub rules_omitted_at_limit : ℕ
  pub empty_disallow_rules_ignored : ℕ

-- The variables of the loop.
pub record Parsing : Type 0 where
  pub report : ParsingReport
  pub groups : List Group
  pub current : Option Group
  pub advisories_retained : ℕ

abbrev pub ignore_line : Parsing → Parsing
ignore_line s = record s {
  report = record (s.report) { lines_ignored = s.report.lines_ignored + 1 };
}

abbrev pub count_parsed : Parsing → Parsing
count_parsed s = record s {
  report = record (s.report) { lines_parsed = s.report.lines_parsed + 1 };
}

unfoldable pub parse_user_agent_value : Text → Text
parse_user_agent_value value =
    let raw = trim value in
    if text_eq raw (codes "*")
    then raw
    else if not (is_empty raw) && all (λ b. is_alphabetic b || b == b'-' || b == b'_') raw
    then raw
    else []

unfoldable pub new_group : ℕ → Group
new_group index = record { index = index; user_agents = []; rules = []; advisories = [] }

unfoldable pub add_agent : Text → Group → Group
add_agent agent g = record g { user_agents = g.user_agents ++ bound_string agent 256 ∷ [] }

-- The group that an agent line joins: a line behind rules starts a new one.
unfoldable pub open_group : Text → List Group → Option Group → List Group × Group
unfolding new_group add_agent
open_group agent groups none = (groups, add_agent agent (new_group (length groups)))
open_group agent groups (some g) =
    if is_empty g.rules
    then (groups, add_agent agent g)
    else (groups ++ g ∷ [], add_agent agent (new_group (length groups + 1)))

unfoldable pub user_agent_line : Text → Parsing → Parsing
unfolding open_group
user_agent_line value s =
    let agent = parse_user_agent_value value in
    let opened = open_group agent s.groups s.current in
    if is_empty agent
    then ignore_line s
    else count_parsed (record s { groups = opened.0; current = some opened.1 })

unfoldable pub make_rule : RuleDirective → Text → Rule
make_rule directive value = record {
  directive = directive;
  pattern = bound_string value max_rule_diagnostic_bytes;
  pattern_bytes = length value;
  pattern_truncated = ltb max_rule_diagnostic_bytes (length value);
  normalized = normalize_path true value;
  specificity = pattern_specificity (normalize_path true value);
}

abbrev is_disallow : RuleDirective → Bool
is_disallow allow = false
is_disallow disallow = true

unfoldable pub rule_in_group : RuleDirective → Text → Group → Parsing → Parsing
unfolding make_rule
rule_in_group directive value g s =
    let r = s.report in
    let seen = record r { rules_seen = r.rules_seen + 1 } in
    if is_empty value
    then count_parsed (record s {
      report = record seen {
        empty_disallow_rules_ignored =
            if is_disallow directive
            then r.empty_disallow_rules_ignored + 1
            else r.empty_disallow_rules_ignored;
      };
    })
    else if leb max_rules r.rules_retained
    then ignore_line (record s {
      report = record seen { rules_omitted_at_limit = r.rules_omitted_at_limit + 1 };
    })
    else count_parsed (record s {
      report = record seen { rules_retained = r.rules_retained + 1 };
      current = some (record g { rules = g.rules ++ make_rule directive value ∷ [] });
    })

unfoldable pub rule_line : RuleDirective → Text → Parsing → Parsing
rule_line directive value s = elim s.current [
  | none ↦ ignore_line s
  | some g ↦ rule_in_group directive value g s
]

unfoldable pub other_line : Text → Text → Parsing → Parsing
other_line name value s = count_parsed (elim s.current [
  | none ↦ s
  | some g ↦
      if ltb s.advisories_retained max_advisories
      then record s {
        current = some (record g {
          advisories = g.advisories ++ (bound_string name 128, bound_string value 512) ∷ [];
        });
        advisories_retained = s.advisories_retained + 1;
      }
      else s
])

-- `match name.as_str()`
unfoldable pub dispatch : Text → Text → Parsing → Parsing
dispatch name value s =
    if text_eq name (codes "user-agent")
    then user_agent_line value s
    else if text_eq name (codes "allow")
    then rule_line allow value s
    else if text_eq name (codes "disallow")
    then rule_line disallow value s
    else other_line name value s

-- `strip_prefix('\u{feff}').unwrap_or(line)` on the first line, after the trailing `\r`s.
unfoldable pub strip_bom : Text → Text
strip_bom line = elim (strip_prefix line (239 ∷ 187 ∷ 191 ∷ [])) [ none ↦ line | some rest ↦ rest ]

unfoldable pub clean_line : Bool → Text → Text
unfolding strip_bom
clean_line is_first raw =
    let line = trim_end_of ((13 ∷ []) ∷ []) raw in if is_first then strip_bom line else line

unfoldable pub strip_comment : Text → Text
strip_comment line = elim (split_once b'#' line) [
  | none ↦ trim line
  | some (before, _) ↦ trim before
]

unfoldable pub content_line : Text → Parsing → Parsing
content_line line s = elim (split_once b':' line) [
  | none ↦ ignore_line s
  | some (raw_name, raw_value) ↦ dispatch (lowercase (trim raw_name)) (trim raw_value) s
]

abbrev pub count_seen : Parsing → Parsing
count_seen s = record s { report = record (s.report) { lines_seen = s.report.lines_seen + 1 } }

abbrev pub count_over : Parsing → Parsing
count_over s = record s {
  report = record (s.report) { lines_over_limit = s.report.lines_over_limit + 1 };
}

unfoldable pub parse_line : Bool → Text → Parsing → Parsing
parse_line is_first raw s =
    let line = clean_line is_first raw in
    if ltb max_line_bytes (length line)
    then ignore_line (count_over (count_seen s))
    else if is_empty (strip_comment line)
    then ignore_line (count_seen s)
    else content_line (strip_comment line) (count_seen s)

unfoldable pub parse_lines : List Text → Parsing → Parsing
parse_lines [] s = s
parse_lines (raw ∷ lines) s = parse_lines lines (parse_line false raw s)

-- `input.matches('\u{fffd}').count()`; its bytes cannot overlap.
unfoldable pub count_replacements : Text → ℕ
count_replacements [] = 0
count_replacements (c ∷ s) =
    let rest = count_replacements s in
    if starts_with (c ∷ s) (239 ∷ 191 ∷ 189 ∷ []) then suc rest else rest

unfoldable pub initial : Text → Parsing
initial input = record {
  report = record {
    lines_seen = 0;
    lines_parsed = 0;
    lines_ignored = 0;
    lines_over_limit = 0;
    invalid_utf8_replacements = count_replacements input;
    groups_seen = 0;
    rules_seen = 0;
    rules_retained = 0;
    rules_omitted_at_limit = 0;
    empty_disallow_rules_ignored = 0;
  };
  groups = [];
  current = none;
  advisories_retained = 0;
}

abbrev pub close_group : List Group → Option Group → List Group
close_group groups none = groups
close_group groups (some g) = groups ++ g ∷ []

unfoldable pub finish : Parsing → List Group × ParsingReport
finish s =
    let groups = close_group s.groups s.current in
    (groups, record (s.report) { groups_seen = length groups })

unfoldable pub parse_robots : Text → List Group × ParsingReport
parse_robots input =
    let (first, more) = split_on 10 input in
    finish (parse_lines more (parse_line true first (initial input)))
