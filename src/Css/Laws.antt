-- ===== src/Css/Laws.antt =====
-- Which rules of a style sheet are found: `parse_css` of src/som/css_visibility.rs.
use plasmate.Common.{
  ℕ, ◌≡◌, refl, ap, sym, ◌∙◌, true, false, List, [], ◌∷◌, ◌++◌, append_assoc, append-nil, map, All,
  ◌==◌,
}
use plasmate.Text.{Text, trim}
use plasmate.Css.{
  above, below, Parsing, push_char, parse_char, parse_chars, parse_css, start, open_brace,
  close_brace, close_block, deeper, shallower,
}

abbrev pub NoBrace : ℕ → Type 0
NoBrace c = ((c == b'{') ≡ false) × ((c == b'}') ≡ false)

-- A selector and a block, without braces.
abbrev pub IsRule : Text × Text → Type 0
IsRule (selector, block) = All NoBrace selector × All NoBrace block

unfoldable pub print_rules : List (Text × Text) → Text
print_rules [] = []
print_rules ((selector, block) ∷ rules) = selector ++ (b'{' ∷ (block ++ (b'}' ∷ print_rules rules)))

parse_char-selector :
    (c : ℕ) (p : Parsing)
    → NoBrace c
    → p.in_block ≡ false
    → parse_char c p ≡ record p { selector = p.selector ++ c ∷ []; in_block = false }
unfolding parse_char push_char
parse_char-selector c p (l, r) i = rw (l, r, i) refl

parse_chars-selector :
    (s css : Text) (p : Parsing)
    → All NoBrace s
    → p.in_block ≡ false
    → parse_chars (s ++ css) p
      ≡ parse_chars css (record p { selector = p.selector ++ s; in_block = false })
unfolding parse_chars parse_char push_char
parse_chars-selector [] css p h i =
    ap (λ q. parse_chars css q) (rw (append-nil p.selector, sym i) refl)
parse_chars-selector (c ∷ s) css p ((l, r), h) i =
    ap (parse_chars (s ++ css)) (parse_char-selector c p (l, r) i)
    ∙ parse_chars-selector s css (record p { selector = p.selector ++ c ∷ []; in_block = false }) h
        refl
    ∙ ap (λ t. parse_chars css (record p { selector = t; in_block = false }))
        (append_assoc p.selector (c ∷ []) s)

parse_char-block :
    (c : ℕ) (p : Parsing)
    → NoBrace c
    → p.in_block ≡ true
    → parse_char c p ≡ record p { block_content = p.block_content ++ c ∷ []; in_block = true }
unfolding parse_char push_char
parse_char-block c p (l, r) i = rw (l, r, i) refl

parse_chars-block :
    (s css : Text) (p : Parsing)
    → All NoBrace s
    → p.in_block ≡ true
    → parse_chars (s ++ css) p
      ≡ parse_chars css (record p { block_content = p.block_content ++ s; in_block = true })
unfolding parse_chars parse_char push_char
parse_chars-block [] css p h i =
    ap (λ q. parse_chars css q) (rw (append-nil p.block_content, sym i) refl)
parse_chars-block (c ∷ s) css p ((l, r), h) i =
    ap (parse_chars (s ++ css)) (parse_char-block c p (l, r) i)
    ∙ parse_chars-block s css
        (record p { block_content = p.block_content ++ c ∷ []; in_block = true }) h refl
    ∙ ap (λ t. parse_chars css (record p { block_content = t; in_block = true }))
        (append_assoc p.block_content (c ∷ []) s)

-- One rule, from outside of a block.
parse_rule :
    (selector block css : Text) (p : Parsing)
    → IsRule (selector, block)
    → p.in_block ≡ false
    → p.brace_depth ≡ above 0
    → parse_chars (selector ++ (b'{' ∷ (block ++ (b'}' ∷ css)))) p
      ≡ parse_chars css (record {
        selector = [];
        in_block = false;
        block_content = block;
        brace_depth = above 0;
        rules = p.rules ++ (trim (p.selector ++ selector), block) ∷ [];
      })
unfolding parse_chars parse_char open_brace close_brace close_block deeper shallower
parse_rule selector block css p (hs, hb) i d =
    parse_chars-selector selector (b'{' ∷ (block ++ (b'}' ∷ css))) p hs i
    ∙ rw d (parse_chars-block block (b'}' ∷ css) _ hb refl)

rule_then :
    (selector block rules css : Text)
    → (selector ++ (b'{' ∷ (block ++ (b'}' ∷ rules)))) ++ css
      ≡ selector ++ (b'{' ∷ (block ++ (b'}' ∷ (rules ++ css))))
rule_then selector block rules css =
    append_assoc selector (b'{' ∷ (block ++ (b'}' ∷ rules))) css
    ∙ ap (λ t. selector ++ (b'{' ∷ t)) (append_assoc block (b'}' ∷ rules) css)

parse_rules :
    (rules : List (Text × Text)) (css : Text) (p : Parsing)
    → All IsRule rules
    → p.in_block ≡ false
    → p.brace_depth ≡ above 0
    → p.selector ≡ []
    → (block : Text) × (parse_chars (print_rules rules ++ css) p
        ≡ parse_chars css (record {
          selector = [];
          in_block = false;
          block_content = block;
          brace_depth = above 0;
          rules = p.rules ++ map (λ r. (trim r.0, r.1)) rules;
        }))
unfolding print_rules
parse_rules [] css p h i d e =
    (p.block_content, ap (λ q. parse_chars css q) (rw (i, d, e, append-nil p.rules) refl))
parse_rules ((selector, block) ∷ rules) css p (r, h) i d e =
    let rest = print_rules rules ++ css in
    let (last, more) = parse_rules rules css _ h refl refl refl in
    (
      last,
      ap (λ t. parse_chars t p) (rule_then selector block (print_rules rules) css)
          ∙ parse_rule selector block rest p r i d
          ∙ more
          ∙ ap
              (λ rs. parse_chars css (record {
                selector = [];
                in_block = false;
                block_content = last;
                brace_depth = above 0;
                rules = rs;
              }))
              (append_assoc p.rules _ _ ∙ rw e refl),
    )

-- The rules of a style sheet that is printed from rules without braces of their own are read back, each
-- selector without the blanks around it.
pub parse_css-print_rules :
    (rules : List (Text × Text))
    → All IsRule rules
    → parse_css (print_rules rules) ≡ map (λ r. (trim r.0, r.1)) rules
unfolding parse_css parse_chars
parse_css-print_rules rules h =
    ap (λ t. (parse_chars t start).rules) (sym (append-nil (print_rules rules)))
    ∙ ap (λ q. q.rules) (parse_rules rules [] start h refl refl refl).1

below_rule :
    (selector block css : Text) (p : Parsing)
    → IsRule (selector, block)
    → p.in_block ≡ false
    → p.brace_depth ≡ below 0
    → parse_chars (selector ++ (b'{' ∷ (block ++ (b'}' ∷ css)))) p
      ≡ parse_chars css (record p {
        selector = (((p.selector ++ selector) ++ b'{' ∷ []) ++ block) ++ b'}' ∷ [];
        in_block = false;
        brace_depth = below 0;
      })
unfolding parse_chars parse_char open_brace close_brace push_char deeper shallower
below_rule selector block css p (hs, hb) i d =
    parse_chars-selector selector (b'{' ∷ (block ++ (b'}' ∷ css))) p hs i
    ∙ rw d (parse_chars-selector block (b'}' ∷ css) _ hb refl)

-- Below depth 0 outside of a block no rule is found.
below_rules :
    (rules : List (Text × Text)) (p : Parsing)
    → All IsRule rules
    → p.in_block ≡ false
    → p.brace_depth ≡ below 0
    → (parse_chars (print_rules rules) p).rules ≡ p.rules
unfolding print_rules parse_chars parse_char open_brace close_brace push_char deeper shallower
below_rules [] p h i d = refl
below_rules ((selector, block) ∷ rules) p ((hs, hb), h) i d =
    ap (λ q. q.rules) (below_rule selector block (print_rules rules) p (hs, hb) i d)
    ∙ below_rules rules _ h refl refl

-- One closing brace too many between the rules of a style sheet, where no rule has a brace within its
-- selector or its block: the rules before it are found, and none of those behind it.
pub parse_css-unbalanced :
    (before after : List (Text × Text))
    → All IsRule before
    → All IsRule after
    → parse_css (print_rules before ++ b'}' ∷ print_rules after) ≡ map (λ r. (trim r.0, r.1)) before
unfolding parse_css parse_chars parse_char close_brace push_char shallower
parse_css-unbalanced before after h k =
    ap (λ q. q.rules) (parse_rules before (b'}' ∷ print_rules after) start h refl refl refl).1
    ∙ below_rules after _ k refl refl
