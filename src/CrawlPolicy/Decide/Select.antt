-- ===== src/CrawlPolicy/Decide/Select.antt =====
-- Which groups and which rules are looked at: `decide` of src/crawl_policy.rs.
use plasmate.Common.{
  ℕ, ◌≡◌, ◌≢◌, ◌⊎◌, ◌↔◌, refl, ap, sym, subst, ◌∙◌, true, false, List, [], ◌∷◌, arith, Bool-cases,
  inl, inr, All, In, In-All, In-append_cases, In-keep, keep-In, keep_none, In_of_nonempty,
  In_of_any, any_of_In, keep, is_empty,
}
use plasmate.Text.{Text, codes, text_eq, text_eq_iff, lowercase, lower_byte, eq_ignore_case}
use plasmate.CrawlPolicy.Robots.{disallow, Rule, Group}
use plasmate.CrawlPolicy.Match.{pattern_matches}
use plasmate.CrawlPolicy.Match.Spec.{RuleMatches}
use plasmate.CrawlPolicy.Match.Sound.{pattern_matches_sound}
use plasmate.CrawlPolicy.Decide.{
  Target, Candidate, target_path, matching_rules, matching, select_groups, decide, is_exact,
  is_wildcard,
}
use plasmate.CrawlPolicy.Decide.Verdict.{decide-allowed_iff}

-- A group is for the product token if one of its user agents is the token, in any case of letters.
abbrev pub Names : Text → Group → Type 0
Names token g = (agent : Text) × In agent g.user_agents × (lowercase agent ≡ lowercase token)

abbrev pub HasStar : Group → Type 0
HasStar g = In (codes "*") g.user_agents

lowercase_idempotent : (s : Text) → lowercase (lowercase s) ≡ lowercase s
unfolding lowercase
lowercase_idempotent [] = refl
lowercase_idempotent (c ∷ s) =
    let once : lower_byte (lower_byte c) ≡ lower_byte c = ground arith in
    cc (once, lowercase_idempotent s)

is_exact_iff : (token : Text) (g : Group) → (is_exact (lowercase token) g ≡ true) ↔ Names token g
unfolding eq_ignore_case
is_exact_iff token g = (
  λ h.
      let (agent, i, e) =
        In_of_any (λ agent. eq_ignore_case agent (lowercase token)) g.user_agents h in
      (
        agent,
        i,
        (text_eq_iff (lowercase agent) (lowercase (lowercase token))).0 e
            ∙ lowercase_idempotent token,
      ),
  λ n.
      any_of_In (λ agent. eq_ignore_case agent (lowercase token)) n.0 g.user_agents n.1
        ((text_eq_iff (lowercase n.0) (lowercase (lowercase token))).1
          (n.2 ∙ sym (lowercase_idempotent token))),
)

is_wildcard_iff : (g : Group) → (is_wildcard g ≡ true) ↔ HasStar g
is_wildcard_iff g = (
  λ h.
      let (agent, i, e) = In_of_any (λ agent. text_eq agent (codes "*")) g.user_agents h in
      subst (λ a. In a g.user_agents) ((text_eq_iff agent (codes "*")).0 e) i,
  λ n.
      any_of_In (λ agent. text_eq agent (codes "*")) (codes "*") g.user_agents n
        ((text_eq_iff (codes "*") (codes "*")).1 refl),
)

none_named :
    (token : Text) (gs : List Group)
    → All (λ g. is_exact (lowercase token) g ≡ false) gs
    → All (λ g. ¬ Names token g) gs
none_named token [] h = tt
none_named token (g ∷ gs) (e, h) =
    ((λ n. let t = (is_exact_iff token g).1 n in cc), none_named token gs h)

-- The selected groups are exactly the groups that name the product token, in any case of letters;
-- or, where no group names it, exactly the groups for `*`.
pub select_groups_iff :
    (token : Text) (groups : List Group) (g : Group)
    → In g (select_groups token groups).0
      ↔ (In g groups × (Names token g ⊎ (All (λ h. ¬ Names token h) groups × HasStar g)))
unfolding select_groups
select_groups_iff token groups g =
    elim (Bool-cases (is_empty (keep (is_exact (lowercase token)) groups))) [
      | inl e ↦
          let nobody = none_named token groups (keep_none (is_exact (lowercase token)) groups e) in
          rw e (
            (λ i.
                let (j, w) = In-keep is_wildcard g groups i in
                (j, inr (nobody, (is_wildcard_iff g).0 w))),
            λ (j, c). wild nobody j c,
          )
      | inr e ↦ rw e (
        (λ i.
            let (j, w) = In-keep (is_exact (lowercase token)) g groups i in
            (j, inl ((is_exact_iff token g).0 w))),
        λ (j, c). exact e j c,
      )
    ]
  where
    wild :
        All (λ h. ¬ Names token h) groups
        → In g groups
        → Names token g ⊎ (All (λ h. ¬ Names token h) groups × HasStar g)
        → In g (keep is_wildcard groups)
    wild nobody j (inl n) = absurd (In-All (λ h. ¬ Names token h) g groups nobody j n)
    wild nobody j (inr (_, w)) = keep-In is_wildcard g groups j ((is_wildcard_iff g).1 w)

    exact :
        is_empty (keep (is_exact (lowercase token)) groups) ≡ false
        → In g groups
        → Names token g ⊎ (All (λ h. ¬ Names token h) groups × HasStar g)
        → In g (keep (is_exact (lowercase token)) groups)
    exact e j (inl n) = keep-In (is_exact (lowercase token)) g groups j ((is_exact_iff token g).1 n)
    exact e j (inr (nobody, _)) =
        let (x, i) = In_of_nonempty (keep (is_exact (lowercase token)) groups) e in
        let (k, named) = In-keep (is_exact (lowercase token)) x groups i in
        absurd (In-All (λ h. ¬ Names token h) x groups nobody k ((is_exact_iff token x).0 named))

matching_rules-In :
    (index : ℕ) (rules : List Rule) (path : Text) (c : Candidate)
    → In c (matching_rules index rules path)
    → In c.rule rules × (pattern_matches c.rule.normalized path ≡ true)
unfolding matching_rules
matching_rules-In index [] path c i = absurd i
matching_rules-In index (r ∷ rs) path c i = elim (Bool-cases (pattern_matches r.normalized path)) [
  | inl e ↦ elim (rw (e, matching_rules) at i) [
    | inl same ↦ let it : c.rule ≡ r = ap (λ k. k.rule) same in (inl it, rw it e)
    | inr j ↦ let (k, m) = matching_rules-In index rs path c j in (inr k, m)
  ]
  | inr e ↦
      let (k, m) = matching_rules-In index rs path c (rw (e, matching_rules) at i) in (inr k, m)
]

matching-In :
    (gs : List Group) (path : Text) (c : Candidate)
    → In c (matching gs path)
    → (g : Group) × In g gs × In c.rule g.rules × (pattern_matches c.rule.normalized path ≡ true)
unfolding matching
matching-In [] path c i = absurd i
matching-In (g ∷ gs) path c i =
    elim (In-append_cases c (matching_rules g.index g.rules path) (matching gs path) i) [
      | inl j ↦ let (k, m) = matching_rules-In g.index g.rules path c j in (g, inl refl, k, m)
      | inr j ↦ let (h, k, r, m) = matching-In gs path c j in (h, inr k, r, m)
    ]

-- A target is never refused without cause: a group for the product token, or for `*` if no group
-- names the token, holds a `Disallow` rule whose pattern matches the target in the standard's sense.
pub decide-cause :
    (target : Target) (token : Text) (groups : List Group)
    → target.path ≢ codes "/robots.txt"
    → (decide target token groups).0.allowed ≡ false
    → (g : Group) × (r : Rule) × In g groups
      × (Names token g ⊎ (All (λ h. ¬ Names token h) groups × HasStar g))
      × In r g.rules
      × (r.directive ≡ disallow)
      × RuleMatches r.normalized (target_path target)
decide-cause target token groups other refused =
    let f = (decide-allowed_iff target token groups other).0 refused in
    let (g, i, r, m) =
      matching-In (select_groups token groups).0 (target_path target) f.rule_against
        f.matches_too in
    let (j, why) = (select_groups_iff token groups g).0 i in
    (
      g,
      f.rule_against.rule,
      j,
      why,
      r,
      f.disallows,
      pattern_matches_sound f.rule_against.rule.normalized (target_path target) m,
    )
