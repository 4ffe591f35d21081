-- ===== src/Css/Tests.antt =====
-- Runs of the parser of style sheets of src/som/css_visibility.rs.
use plasmate.Common.{◌≡◌, refl, [], ◌∷◌, ◌++◌}
use plasmate.Text.{Text, codes, trim}
use plasmate.Css.{parse_css}
use plasmate.Css.Laws.{IsRule, print_rules, parse_css-print_rules, parse_css-unbalanced}

abbrev hidden_rule : Text × Text
hidden_rule = (codes " a ", codes "x")

hidden_rule-IsRule : IsRule hidden_rule
hidden_rule-IsRule = (((refl, refl), ((refl, refl), ((refl, refl), tt))), ((refl, refl), tt))

parse_css-hidden_rule :
    parse_css (codes " a {x} b{y}") ≡ (codes "a", codes "x") ∷ (codes "b", codes "y") ∷ []
unfolding parse_css
parse_css-hidden_rule = refl

parse_css-print_rules_example :
    parse_css (print_rules (hidden_rule ∷ [])) ≡ (trim (codes " a "), codes "x") ∷ []
parse_css-print_rules_example = parse_css-print_rules (hidden_rule ∷ []) (hidden_rule-IsRule, tt)

parse_css-unbalanced_example :
    parse_css (print_rules (hidden_rule ∷ []) ++ b'}' ∷ print_rules (hidden_rule ∷ []))
    ≡ (trim (codes " a "), codes "x") ∷ []
parse_css-unbalanced_example =
    parse_css-unbalanced (hidden_rule ∷ []) (hidden_rule ∷ []) (hidden_rule-IsRule, tt)
      (hidden_rule-IsRule, tt)

-- A rule with a block of its own brings the depth back to where rules are found.
parse_css-unbalanced_nested :
    parse_css (codes "}@media {.a{x} .b{y}}")
    ≡ (codes "}@media {.a", codes "x") ∷ (codes ".b", codes "y") ∷ []
unfolding parse_css
parse_css-unbalanced_nested = refl
