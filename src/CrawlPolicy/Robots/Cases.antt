-- ===== src/CrawlPolicy/Robots/Cases.antt =====
-- How one line of robots.txt is taken: the cases of `parse_robots` in src/crawl_policy.rs.
use plasmate.Common.{◌≡◌, Bool, some, Bool-cases, Option-cases, inl, inr, length, ltb, is_empty}
use plasmate.Text.{Text, codes, text_eq, split_once, trim, lowercase}
use plasmate.CrawlPolicy.Robots.{
  RuleDirective, allow, disallow, Group, Parsing, ignore_line, count_seen, count_over,
  user_agent_line, rule_in_group, rule_line, other_line, dispatch, content_line, parse_line,
  clean_line, strip_comment, max_line_bytes,
}

-- A property that holds after each kind of line holds after a line.
module _ {ℓ} (P : Parsing → Type ℓ) where
  rule_line_cases :
      (d : RuleDirective) (value : Text) (s : Parsing)
      → P (ignore_line s)
      → ((g : Group) → s.current ≡ some g → P (rule_in_group d value g s))
      → P (rule_line d value s)
  unfolding rule_line
  rule_line_cases d value s none_open in_group = elim (Option-cases s.current) [
    | inl e ↦ rw (e, rule_line) none_open
    | inr (g, e) ↦ rw (e, rule_line) (in_group g e)
  ]

  pub dispatch_cases :
      (name value : Text) (s : Parsing)
      → P (ignore_line s)
      → P (user_agent_line value s)
      → ((d : RuleDirective) (g : Group) → s.current ≡ some g → P (rule_in_group d value g s))
      → P (other_line name value s)
      → P (dispatch name value s)
  unfolding dispatch
  dispatch_cases name value s ignored agent rule other =
      elim (Bool-cases (text_eq name (codes "user-agent"))) [
        | inl e ↦ rw e agent
        | inr e ↦ elim (Bool-cases (text_eq name (codes "allow"))) [
          | inl a ↦ rw (e, a) (rule_line_cases allow value s ignored (rule allow))
          | inr a ↦ elim (Bool-cases (text_eq name (codes "disallow"))) [
            | inl d ↦ rw (e, a, d) (rule_line_cases disallow value s ignored (rule disallow))
            | inr d ↦ rw (e, a, d) other
          ]
        ]
      ]

  content_line_cases :
      (line : Text) (s : Parsing)
      → P (ignore_line s)
      → ((name value : Text) → P (dispatch name value s))
      → P (content_line line s)
  unfolding content_line
  content_line_cases line s ignored named = elim (Option-cases (split_once b':' line)) [
    | inl e ↦ rw (e, content_line) ignored
    | inr (pair, e) ↦ rw (e, content_line) (named (lowercase (trim pair.0)) (trim pair.1))
  ]

  pub parse_line_cases :
      (is_first : Bool) (raw : Text) (s : Parsing)
      → P (ignore_line (count_over (count_seen s)))
      → P (ignore_line (count_seen s))
      → ((name value : Text) → P (dispatch name value (count_seen s)))
      → P (parse_line is_first raw s)
  unfolding parse_line
  parse_line_cases is_first raw s over ignored named =
      elim (Bool-cases (ltb max_line_bytes (length (clean_line is_first raw)))) [
        | inl e ↦ rw e over
        | inr e ↦ elim (Bool-cases (is_empty (strip_comment (clean_line is_first raw)))) [
          | inl b ↦ rw (e, b) ignored
          | inr b ↦ rw (e, b) (content_line_cases _ (count_seen s) ignored named)
        ]
      ]
