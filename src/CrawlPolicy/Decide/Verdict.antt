-- ===== src/CrawlPolicy/Decide/Verdict.antt =====
-- Which rule decides: `decide` of src/crawl_policy.rs.
use plasmate.Common.{
  ◌≤◌, ◌<◌, ◌≡◌, ◌≢◌, ◌⊎◌, ◌↔◌, refl, true, false, some, List, [], ◌∷◌, arith, Bool-cases, inl, inr,
  All, In, In-All,
}
use plasmate.Text.{Text, codes, text_eq, text_eq_iff}
use plasmate.CrawlPolicy.Robots.{RuleDirective, allow, disallow, Group}
use plasmate.CrawlPolicy.Decide.{
  Target, Candidate, is_greater, head_rule, directive_name, directive_rank, target_path,
  compare_candidates, insert_candidate, sort_candidates, matching, select_groups, report_rule,
  is_allowed, decide,
}

-- The candidate `a` comes before `b`: it is more specific, or as specific and no less permissive.
abbrev Beats : Candidate → Candidate → Type 0
Beats a b =
    (b.rule.specificity < a.rule.specificity)
    ⊎ ((b.rule.specificity ≡ a.rule.specificity)
        × (directive_rank b.rule.directive ≤ directive_rank a.rule.directive))

Beats-of_greater : (c d : Candidate) → is_greater (compare_candidates c d) ≡ true → Beats d c
unfolding compare_candidates
Beats-of_greater c d h = ground arith

Beats-of_not_greater : (c d : Candidate) → is_greater (compare_candidates c d) ≡ false → Beats c d
unfolding compare_candidates
Beats-of_not_greater c d h = ground arith

Beats-trans : (a b c : Candidate) → Beats a b → Beats b c → Beats a c
Beats-trans a b c h k = ground arith

record IsBest (b : Candidate) (cs : List Candidate) : Type 0 where
  member : In b cs
  beats : All (Beats b) cs

All-Beats :
    (a b : Candidate) (cs : List Candidate) → Beats a b → All (Beats b) cs → All (Beats a) cs
All-Beats a b [] h k = tt
All-Beats a b (c ∷ cs) h (k, ks) = (Beats-trans a b c h k, All-Beats a b cs h ks)

Beats-refl : (c : Candidate) → Beats c c
Beats-refl c = inr (refl, omega arith)

insert-IsBest :
    (c b : Candidate) (rest cs : List Candidate)
    → IsBest b cs
    → (b' : Candidate) × (rest' : List Candidate) × (insert_candidate c (b ∷ rest) ≡ b' ∷ rest')
      × IsBest b' (c ∷ cs)
unfolding insert_candidate
insert-IsBest c b rest cs h = elim (Bool-cases (is_greater (compare_candidates c b))) [
  | inl e ↦ (
    b,
    insert_candidate c rest,
    (rw e refl),
    record { member = inr h.member; beats = (Beats-of_greater c b e, h.beats) },
  )
  | inr e ↦
      let first = Beats-of_not_greater c b e in
      (
        c,
        b ∷ rest,
        (rw e refl),
        record { member = inl refl; beats = (Beats-refl c, All-Beats c b cs first h.beats) },
      )
]

-- The first of the sorted candidates is one of them and beats every one.
sort_candidates-IsBest :
    (c : Candidate) (cs : List Candidate)
    → (b : Candidate) × (rest : List Candidate) × (sort_candidates (c ∷ cs) ≡ b ∷ rest)
      × IsBest b (c ∷ cs)
unfolding sort_candidates insert_candidate
sort_candidates-IsBest c [] =
    (c, [], refl, record { member = inl refl; beats = (Beats-refl c, tt) })
sort_candidates-IsBest c (d ∷ cs) =
    let (b, rest, e, best) = sort_candidates-IsBest d cs in
    rw e (insert-IsBest c b rest (d ∷ cs) best)

-- The matching `Disallow` rule `c` is decisive against `d`: `d` is less specific, or as specific
-- and no `Allow`.
abbrev pub Outranks : Candidate → Candidate → Type 0
Outranks c d =
    (d.rule.specificity < c.rule.specificity)
    ⊎ ((d.rule.specificity ≡ c.rule.specificity) × (d.rule.directive ≡ disallow))

pub record Forbidden (cs : List Candidate) : Type 0 where
  pub rule_against : Candidate
  pub matches_too : In rule_against cs
  pub disallows : rule_against.rule.directive ≡ disallow
  pub outranks : All (Outranks rule_against) cs

Outranks-of_Beats : (b c : Candidate) → b.rule.directive ≡ disallow → Beats b c → Outranks b c
unfolding directive_rank
Outranks-of_Beats b c e h = ground arith

All-Outranks :
    (b : Candidate) (cs : List Candidate)
    → b.rule.directive ≡ disallow
    → All (Beats b) cs
    → All (Outranks b) cs
All-Outranks b [] e h = tt
All-Outranks b (c ∷ cs) e (h, hs) = (Outranks-of_Beats b c e h, All-Outranks b cs e hs)

is_allowed-report_rule :
    (c : Candidate) → (is_allowed (some (report_rule c)) ≡ false) ↔ (c.rule.directive ≡ disallow)
unfolding is_allowed report_rule text_eq
is_allowed-report_rule c = by_directive c.rule.directive
  where
    by_directive :
        (d : RuleDirective) → (text_eq (directive_name d) (codes "allow") ≡ false) ↔ (d ≡ disallow)
    by_directive allow = (λ h. cc, λ h. cc)
    by_directive disallow = (λ _. refl, λ _. refl)

best_disallows :
    (b : Candidate) (cs : List Candidate) → IsBest b cs → Forbidden cs → b.rule.directive ≡ disallow
best_disallows b cs best f =
    let c = f.rule_against in
    let one = In-All (Beats b) c cs best.beats f.matches_too in
    let other = In-All (Outranks c) b cs f.outranks best.member in ground arith

verdict :
    (cs : List Candidate) → (is_allowed (head_rule (sort_candidates cs)) ≡ false) ↔ Forbidden cs
unfolding sort_candidates is_allowed
verdict [] = (λ h. cc, λ f. absurd f.matches_too)
verdict (c ∷ cs) =
    let (b, rest, e, best) = sort_candidates-IsBest c cs in
    (
      λ h.
          let d = (is_allowed-report_rule b).0 (rw e at h) in
          record {
            rule_against = b;
            matches_too = best.member;
            disallows = d;
            outranks = All-Outranks b (c ∷ cs) d best.beats;
          },
      λ f. rw e ((is_allowed-report_rule b).1 (best_disallows b (c ∷ cs) best f)),
    )

abbrev pub candidates_of : Target → Text → List Group → List Candidate
candidates_of target token groups = matching (select_groups token groups).0 (target_path target)

-- For a target other than `/robots.txt` the decision is `disallow` exactly if a matching `Disallow`
-- rule of the selected groups outranks every matching rule: each is less specific, or as specific
-- and no `Allow`.
pub decide-allowed_iff :
    (target : Target) (token : Text) (groups : List Group)
    → target.path ≢ codes "/robots.txt"
    → ((decide target token groups).0.allowed ≡ false)
      ↔ Forbidden (candidates_of target token groups)
unfolding decide
decide-allowed_iff target token groups other =
    elim (Bool-cases (text_eq target.path (codes "/robots.txt"))) [
      | inl e ↦ absurd (other ((text_eq_iff target.path (codes "/robots.txt")).0 e))
      | inr e ↦ rw e (verdict (candidates_of target token groups))
    ]
