-- ===== src/CrawlPolicy/Robots/Groups.antt =====
-- The groups that `parse_robots` of src/crawl_policy.rs builds.
use plasmate.Common.{
  ℕ, suc, ◌+◌, ◌≡◌, ◌≢◌, refl, ap, sym, subst, ◌∙◌, Bool, true, false, Option, none, some, List, [],
  ◌∷◌, ◌++◌, arith, length, length-append, Bool-cases, Option-cases, inl, inr, leb, ltb, is_empty,
  All, All-append,
}
use native.Mathlib.Nat.{zero-add}
use plasmate.Text.{Text, split_on}
use plasmate.CrawlPolicy.Robots.Cases.{dispatch_cases, parse_line_cases}
use plasmate.CrawlPolicy.Robots.{
  RuleDirective, Rule, Group, Parsing, ignore_line, count_seen, max_rules, max_advisories,
  user_agent_line, rule_in_group, other_line, dispatch, parse_line, parse_lines, initial, finish,
  parse_robots, make_rule, open_group, new_group, add_agent, close_group, parse_user_agent_value,
}

-- A rule is made of a value that is not empty.
abbrev pub IsMade : Rule → Type 0
IsMade r = (value : Text) × (value ≢ []) × (r ≡ make_rule r.directive value)

pub record IsGroup (index : ℕ) (g : Group) : Type 0 where
  pub numbered : g.index ≡ index
  pub has_agent : g.user_agents ≢ []
  pub made : All IsMade g.rules

-- Groups that are closed carry rules.
abbrev Closed : ℕ → List Group → Type 0
Closed n [] = Unit
Closed n (g ∷ gs) = (IsGroup n g × (g.rules ≢ [])) × Closed (suc n) gs

abbrev Current : ℕ → Option Group → Type 0
Current n none = Unit
Current n (some g) = IsGroup n g

abbrev pub total_rules : List Group → ℕ
total_rules [] = 0
total_rules (g ∷ gs) = length g.rules + total_rules gs

abbrev current_rules : Option Group → ℕ
current_rules none = 0
current_rules (some g) = length g.rules

record Grouped (s : Parsing) : Type 0 where
  closed : Closed 0 s.groups
  opened : Current (length s.groups) s.current
  counted : total_rules s.groups + current_rules s.current ≡ s.report.rules_retained

Closed-concat :
    (n : ℕ) (gs : List Group) (g : Group)
    → Closed n gs
    → IsGroup (n + length gs) g
    → g.rules ≢ []
    → Closed n (gs ++ g ∷ [])
Closed-concat n [] g c h r = let e : n + 0 ≡ n = omega arith in ((rw e at h, r), tt)
Closed-concat n (x ∷ gs) g c h r =
    let e : n + suc (length gs) ≡ suc n + length gs = omega arith in
    (c.0, Closed-concat (suc n) gs g c.1 (rw e at h) r)

total_rules-concat :
    (gs : List Group) (g : Group) → total_rules (gs ++ g ∷ []) ≡ total_rules gs + length g.rules
total_rules-concat [] g = omega arith
total_rules-concat (x ∷ gs) g = omega (arith, total_rules-concat gs g)

concat-ne-nil : {A : Type 0} (xs : List A) (x : A) → xs ++ x ∷ [] ≢ []
concat-ne-nil [] x = cc
concat-ne-nil (y ∷ xs) x = cc

-- What holds of the groups and the open group after an agent line.
record Opened (total : ℕ) (groups : List Group) (g : Group) : Type 0 where
  closed : Closed 0 groups
  opened : IsGroup (length groups) g
  counted : total_rules groups + length g.rules ≡ total

new-IsGroup : (agent : Text) (n : ℕ) → IsGroup n (add_agent agent (new_group n))
unfolding add_agent new_group
new-IsGroup agent n = record { numbered = refl; has_agent = cc; made = tt }

open_group-Opened :
    (agent : Text) (groups : List Group) (current : Option Group) (total : ℕ)
    → Closed 0 groups
    → Current (length groups) current
    → total_rules groups + current_rules current ≡ total
    → Opened total (open_group agent groups current).0 (open_group agent groups current).1
unfolding open_group add_agent new_group
open_group-Opened agent groups none total c h e = record {
  closed = c;
  opened = new-IsGroup agent (length groups);
  counted = e;
}
open_group-Opened agent groups (some g) total c h e = elim (Bool-cases (is_empty g.rules)) [
  | inl fresh ↦ rw fresh (record {
    closed = c;
    opened = record {
      numbered = h.numbered;
      has_agent = concat-ne-nil g.user_agents _;
      made = h.made;
    };
    counted = e;
  })
  | inr used ↦ rw used (record {
    closed = Closed-concat 0 groups g c (rw zero-add h) (ground arith);
    opened =
        let e : length (groups ++ g ∷ []) ≡ length groups + 1 =
          omega (arith, length-append groups (g ∷ [])) in
        rw e (new-IsGroup agent (length groups + 1));
    counted = omega (arith, total_rules-concat groups g);
  })
]

ignore-Grouped : (s : Parsing) → Grouped s → Grouped (ignore_line s)
ignore-Grouped s g = record { closed = g.closed; opened = g.opened; counted = g.counted }

user_agent_line-Grouped :
    (value : Text) (s : Parsing) → Grouped s → Grouped (user_agent_line value s)
unfolding user_agent_line
user_agent_line-Grouped value s g =
    let agent = parse_user_agent_value value in
    elim (Bool-cases (is_empty agent)) [
      | inl e ↦ rw e (ignore-Grouped s g)
      | inr e ↦
          let o =
            open_group-Opened agent s.groups s.current s.report.rules_retained g.closed g.opened
              g.counted in
          rw e (record { closed = o.closed; opened = o.opened; counted = o.counted })
    ]

IsMade-rules :
    (d : RuleDirective) (value : Text) (g : Group)
    → is_empty value ≡ false
    → All IsMade g.rules
    → All IsMade (g.rules ++ make_rule d value ∷ [])
unfolding make_rule
IsMade-rules d value g e h = All-append IsMade g.rules _ h ((value, (ground arith), refl), tt)

rule_in_group-Grouped :
    (d : RuleDirective) (value : Text) (g : Group) (s : Parsing)
    → s.current ≡ some g
    → Grouped s
    → Grouped (rule_in_group d value g s)
unfolding rule_in_group
rule_in_group-Grouped d value g s open_now h =
    let o : IsGroup (length s.groups) g = subst (Current (length s.groups)) open_now h.opened in
    let total : total_rules s.groups + length g.rules ≡ s.report.rules_retained =
      ap (λ c. total_rules s.groups + current_rules c) (sym open_now) ∙ h.counted in
    elim (Bool-cases (is_empty value)) [
      | inl e ↦ rw e (record { closed = h.closed; opened = h.opened; counted = h.counted })
      | inr e ↦ elim (Bool-cases (leb max_rules s.report.rules_retained)) [
        | inl full ↦
            rw (e, full) (record { closed = h.closed; opened = h.opened; counted = h.counted })
        | inr room ↦
            rw (e, room)
              (record {
                closed = h.closed;
                opened = record {
                  numbered = o.numbered;
                  has_agent = o.has_agent;
                  made = IsMade-rules d value g e o.made;
                };
                counted = omega (arith, length-append g.rules (make_rule d value ∷ []));
              })
      ]
    ]

other_line-Grouped :
    (name value : Text) (s : Parsing) → Grouped s → Grouped (other_line name value s)
unfolding other_line
other_line-Grouped name value s h = elim (Option-cases s.current) [
  | inl e ↦
      rw (e, other_line) (record { closed = h.closed; opened = h.opened; counted = h.counted })
  | inr (g, e) ↦
      let o : IsGroup (length s.groups) g = subst (Current (length s.groups)) e h.opened in
      let total : total_rules s.groups + length g.rules ≡ s.report.rules_retained =
        ap (λ c. total_rules s.groups + current_rules c) (sym e) ∙ h.counted in
      elim (Bool-cases (ltb s.advisories_retained max_advisories)) [
        | inl room ↦
            rw (e, room, other_line)
              (record {
                closed = h.closed;
                opened = record { numbered = o.numbered; has_agent = o.has_agent; made = o.made };
                counted = total;
              })
        | inr full ↦
            rw (e, full, other_line)
              (record { closed = h.closed; opened = h.opened; counted = h.counted })
      ]
]

initial-Grouped : (input : Text) → Grouped (initial input)
unfolding initial
initial-Grouped input = record { closed = tt; opened = tt; counted = omega arith }

dispatch-Grouped : (name value : Text) (s : Parsing) → Grouped s → Grouped (dispatch name value s)
dispatch-Grouped name value s h =
    dispatch_cases Grouped name value s (ignore-Grouped s h) (user_agent_line-Grouped value s h)
      (λ d g e. rule_in_group-Grouped d value g s e h) (other_line-Grouped name value s h)

parse_line-Grouped :
    (is_first : Bool) (raw : Text) (s : Parsing) → Grouped s → Grouped (parse_line is_first raw s)
parse_line-Grouped is_first raw s h =
    let seen : Grouped (count_seen s) = record {
      closed = h.closed;
      opened = h.opened;
      counted = h.counted;
    } in
    parse_line_cases Grouped is_first raw s
      (record { closed = h.closed; opened = h.opened; counted = h.counted })
      (ignore-Grouped (count_seen s) seen)
      (λ name value. dispatch-Grouped name value (count_seen s) seen)

parse_lines-Grouped : (lines : List Text) (s : Parsing) → Grouped s → Grouped (parse_lines lines s)
unfolding parse_lines
parse_lines-Grouped [] s h = h
parse_lines-Grouped (raw ∷ lines) s h =
    parse_lines-Grouped lines (parse_line false raw s) (parse_line-Grouped false raw s h)

-- The groups numbered from `n` on.
abbrev pub Numbered : ℕ → List Group → Type 0
Numbered n [] = Unit
Numbered n (g ∷ gs) = IsGroup n g × Numbered (suc n) gs

close-Numbered :
    (n : ℕ) (gs : List Group) (c : Option Group)
    → Closed n gs
    → Current (n + length gs) c
    → Numbered n (close_group gs c)
close-Numbered n [] none h o = tt
close-Numbered n [] (some g) h o = let e : n + 0 ≡ n = omega arith in (rw e at o, tt)
close-Numbered n (x ∷ gs) none h o = (h.0.0, close-Numbered (suc n) gs none h.1 tt)
close-Numbered n (x ∷ gs) (some g) h o =
    let e : n + suc (length gs) ≡ suc n + length gs = omega arith in
    (h.0.0, close-Numbered (suc n) gs (some g) h.1 (rw e at o))

close-total :
    (gs : List Group) (c : Option Group)
    → total_rules (close_group gs c) ≡ total_rules gs + current_rules c
close-total gs none = omega arith
close-total gs (some g) = total_rules-concat gs g

-- The groups are numbered by their place; each has a user agent; every rule is made of a value that
-- is not empty, so that its normal form and its specificity are those of its value; and the rules
-- held are as many as the report says were kept.
pub parse_robots-Numbered :
    (input : Text)
    → Numbered 0 (parse_robots input).0
      × (total_rules (parse_robots input).0 ≡ (parse_robots input).1.rules_retained)
      × ((parse_robots input).1.groups_seen ≡ length (parse_robots input).0)
unfolding parse_robots finish
parse_robots-Numbered input =
    let s =
      parse_lines (split_on 10 input).1 (parse_line true (split_on 10 input).0 (initial input)) in
    let h : Grouped s =
      parse_lines-Grouped (split_on 10 input).1 _
        (parse_line-Grouped true (split_on 10 input).0 (initial input) (initial-Grouped input)) in
    (
      close-Numbered 0 s.groups s.current h.closed (rw zero-add h.opened),
      close-total s.groups s.current ∙ h.counted,
      refl,
    )
