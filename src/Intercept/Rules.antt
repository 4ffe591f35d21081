-- ===== src/Intercept/Rules.antt =====
-- Which rule decides a request: src/network/intercept.rs.
use plasmate.Common.{
  ℕ, ◌≡◌, ◌⊎◌, ◌↔◌, refl, ◌≢◌, ap, Option-cases, Bool, true, false, not, none, some, List, [], ◌∷◌,
  ◌++◌, arith, All, any, keep, if◌then◌else◌, Bool-cases, inl, inr,
}
use plasmate.Text.{Text, text_eq_iff}
use plasmate.Intercept.Kinds.{ResourceType, request, RequestStage, is_request_stage, response}
use plasmate.Intercept.Types.{
  RequestPattern, InterceptAction, proceed, InterceptRule, NetworkInterceptor,
}
use plasmate.Intercept.Patterns.{Applies, pattern_matches, pattern_matches_iff, pattern_matches-not}
use plasmate.Intercept.{
  matches_patterns, first_action, check_request, remove_rules_by_url, has_url_pattern,
}

-- The request is one that interception was enabled for.
pub data IsWatched (patterns : List RequestPattern) (url : Text) (kind : ResourceType)
    : Type 0 where
  watch_all : patterns ≡ [] → IsWatched patterns url kind
  watch_one :
      (before after : List RequestPattern) (p : RequestPattern)
      → patterns ≡ before ++ p ∷ after
      → p.request_stage ≡ request
      → Applies p url kind
      → IsWatched patterns url kind

any-append :
    {A : Type 0} (f : A → Bool) (before after : List A) (p : A)
    → f p ≡ true
    → any f (before ++ p ∷ after) ≡ true
any-append f [] after p h = rw h
any-append f (q ∷ before) after p h = ground (arith, any-append f before after p h)

matches_patterns-any :
    (ps : List RequestPattern) (url : Text) (kind : ResourceType)
    → any (λ p. if is_request_stage p.request_stage then pattern_matches p url kind else false) ps
      ≡ true
    → matches_patterns ps url kind ≡ true
unfolding matches_patterns
matches_patterns-any ps url kind h = ground arith

matches_patterns_of :
    (ps : List RequestPattern) (url : Text) (kind : ResourceType)
    → IsWatched ps url kind
    → matches_patterns ps url kind ≡ true
unfolding matches_patterns is_request_stage
matches_patterns_of ps url kind (watch_all e) = rw e
matches_patterns_of ps url kind (watch_one before after p e stage fits) = rw e (
    matches_patterns-any (before ++ p ∷ after) url kind
      (any-append _ before after p (rw stage ((pattern_matches_iff p url kind).1 fits))))

-- `Decided rules url kind a`: `a` is the action of the first rule that applies, whatever stands
-- behind it, or to proceed unchanged where none applies.
pub data Decided (rules : List InterceptRule) (url : Text) (kind : ResourceType)
    (a : InterceptAction) : Type 0 where
  by_rule :
      (before after : List InterceptRule) (r : InterceptRule)
      → rules ≡ before ++ r ∷ after
      → All (λ q. ¬ Applies q.pattern url kind) before
      → Applies r.pattern url kind
      → a ≡ r.action
      → Decided rules url kind a
  by_default :
      All (λ q. ¬ Applies q.pattern url kind) rules → a ≡ proceed none → Decided rules url kind a

Decided-cons :
    (q : InterceptRule) (rules : List InterceptRule) (url : Text) (kind : ResourceType)
    (a : InterceptAction)
    → ¬ Applies q.pattern url kind
    → Decided rules url kind a
    → Decided (q ∷ rules) url kind a
Decided-cons q rules url kind a n (by_rule before after r e none_before fits same) =
    by_rule (q ∷ before) after r (ap (◌∷◌ q) e) (n, none_before) fits same
Decided-cons q rules url kind a n (by_default no_rule same) = by_default (n, no_rule) same

first_action-Decided :
    (rules : List InterceptRule) (url : Text) (kind : ResourceType)
    → Decided rules url kind (first_action rules url kind)
unfolding first_action
first_action-Decided [] url kind = by_default tt refl
first_action-Decided (r ∷ rs) url kind = elim (Bool-cases (pattern_matches r.pattern url kind)) [
  | inl e ↦ rw e (by_rule [] rs r refl tt ((pattern_matches_iff r.pattern url kind).0 e) refl)
  | inr e ↦ rw e (
      Decided-cons r rs url kind _ (pattern_matches-not r.pattern url kind e)
        (first_action-Decided rs url kind))
]

-- On a watched request of an enabled interceptor, the action is that of the first rule that
-- applies, whatever rules stand behind it; where no rule applies the request proceeds unchanged.
-- A rule applies by its resource type and by what its URL pattern means.
pub check_request-Decided :
    (counter : ℕ) (n : NetworkInterceptor) (url : Text) (kind : ResourceType) (nav : Bool)
    → n.enabled ≡ true
    → IsWatched n.patterns url kind
    → Decided n.rules url kind (check_request counter n url kind nav).action
unfolding check_request
check_request-Decided counter n url kind nav on watched =
    rw (on, matches_patterns_of n.patterns url kind watched) (first_action-Decided n.rules url kind)

stage_of : (s : RequestStage) → is_request_stage s ≡ true → s ≡ request
unfolding is_request_stage
stage_of request h = refl
stage_of response h = cc

any_split :
    {A : Type 0} (f : A → Bool) (xs : List A)
    → any f xs ≡ true
    → (before : List A) × (after : List A) × (p : A) × (xs ≡ before ++ p ∷ after) × (f p ≡ true)
any_split f [] h = cc
any_split f (x ∷ xs) h = elim (Bool-cases (f x)) [
  | inl e ↦ ([], xs, x, refl, e)
  | inr e ↦
      let (before, after, p, same, hit) = any_split f xs (rw e at h) in
      (x ∷ before, after, p, ap (◌∷◌ x) same, hit)
]

-- The test that `check_request` makes of each pattern.
abbrev watches : Text → ResourceType → RequestPattern → Bool
watches url kind p = if is_request_stage p.request_stage then pattern_matches p url kind else false

IsWatched_of :
    (ps : List RequestPattern) (url : Text) (kind : ResourceType)
    → matches_patterns ps url kind ≡ true
    → IsWatched ps url kind
unfolding matches_patterns
IsWatched_of [] url kind h = watch_all refl
IsWatched_of (q ∷ qs) url kind h =
    let (before, after, p, same, hit) = any_split (watches url kind) (q ∷ qs) h in
    watch_one before after p same (stage_of p.request_stage (ground arith))
      ((pattern_matches_iff p url kind).0 (ground arith))

-- A request that is not watched, or any request while interception is off, changes nothing and
-- proceeds; no id is used up and nothing is logged.
pub check_request-passes :
    (counter : ℕ) (n : NetworkInterceptor) (url : Text) (kind : ResourceType) (nav : Bool)
    → (n.enabled ≡ false) ⊎ (¬ IsWatched n.patterns url kind)
    → check_request counter n url kind nav
      ≡ record { counter = counter; interceptor = n; action = proceed none; info = none }
unfolding check_request
check_request-passes counter n url kind nav (inl off) = rw off refl
check_request-passes counter n url kind nav (inr unwatched) =
    elim (Bool-cases (matches_patterns n.patterns url kind)) [
      | inl e ↦ absurd (unwatched (IsWatched_of n.patterns url kind e))
      | inr e ↦ ground arith
    ]

-- `Removed at u xs ys`: `ys` is `xs`, in its order, without the items whose URL pattern is `u`.
pub data Removed {A : Type 0} (at : A → RequestPattern) (u : Text) : List A → List A → Type 0 where
  nil : Removed at u [] []
  dropped :
      {x : A} {xs ys : List A}
      → (at x).url_pattern ≡ some u
      → Removed at u xs ys
      → Removed at u (x ∷ xs) ys
  kept :
      {x : A} {xs ys : List A}
      → (at x).url_pattern ≢ some u
      → Removed at u xs ys
      → Removed at u (x ∷ xs) (x ∷ ys)

has_url_pattern_iff :
    (u : Text) (p : RequestPattern) → (has_url_pattern u p ≡ true) ↔ (p.url_pattern ≡ some u)
unfolding has_url_pattern
has_url_pattern_iff u p = elim (Option-cases p.url_pattern) [
  | inl e ↦ rw e ((λ h. cc), λ h. cc)
  | inr (v, e) ↦ rw e ((λ h. ap some ((text_eq_iff v u).0 h)), λ h. ground (arith, text_eq_iff v u))
]

keep-Removed :
    {A : Type 0} (at : A → RequestPattern) (u : Text) (xs : List A)
    → Removed at u xs (keep (λ r. not (has_url_pattern u (at r))) xs)
keep-Removed at u [] = nil
keep-Removed at u (x ∷ xs) = elim (Bool-cases (has_url_pattern u (at x))) [
  | inl e ↦ rw (e, not, keep) (dropped ((has_url_pattern_iff u (at x)).0 e) (keep-Removed at u xs))
  | inr e ↦
      rw (e, not, keep)
        (kept (λ same. let yes_it = (has_url_pattern_iff u (at x)).1 same in cc)
          (keep-Removed at u xs))
]

-- `remove_rules_by_url(u)` takes away every request rule and every response rule whose URL pattern
-- is the text `u`, and no other rule; the rules left keep their order.
pub remove_rules_by_url-Removed :
    (n : NetworkInterceptor) (u : Text)
    → Removed (λ r. r.pattern) u n.rules (remove_rules_by_url n u).rules
      × Removed (λ r. r.pattern) u n.response_rules (remove_rules_by_url n u).response_rules
unfolding remove_rules_by_url
remove_rules_by_url-Removed n u =
    (keep-Removed (λ r. r.pattern) u n.rules, keep-Removed (λ r. r.pattern) u n.response_rules)
