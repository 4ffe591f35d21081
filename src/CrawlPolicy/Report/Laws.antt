-- ===== src/CrawlPolicy/Report/Laws.antt =====
-- Bounds and outcomes of a crawl-policy report: src/crawl_policy.rs.
use plasmate.Common.{
  Result, ok, err, ℕ, zero, suc, ◌+◌, ◌≤◌, ◌<◌, ◌≡◌, ◌⊎◌, ◌↔◌, refl, ap, sym, ◌∙◌, true, false,
  ◌||◌, Option, none, some, List, [], ◌∷◌, ◌++◌, arith, Bool-cases, Option-cases, inl, inr, All,
  all, is_empty, length, leb, ltb, ltb→lt, append_assoc, append-nil,
}
use plasmate.Text.{Text, trim}
use plasmate.Intercept.Types.{
  FetchResult, FetchError, http_error, navigation_failed, timeout, url_blocked, too_many_redirects,
  body_too_large,
}
use plasmate.CrawlPolicy.Robots.{parse_robots}
use plasmate.CrawlPolicy.Decide.{Target, AdvisoryDirective, decide}
use plasmate.CrawlPolicy.Report.{
  CrawlPolicyReport, LimitError, not_measured, exceeds_bound, init_of, drop_advisory, drop_agent,
  shrink, enforce_loop, enforce_serialized_output_limit, max_serialized_output_bytes,
  evaluate_fetch_failure, evaluate_document, validate_product_token, is_token_byte,
  max_product_token_bytes, token_length, token_bytes,
}

-- `small` is `big` with some of the last advisories and of the last user agents left out.
pub record Shrunk (big small : CrawlPolicyReport) : Type 0 where
  pub left_advisories : List AdvisoryDirective
  pub left_agents : List Text
  pub advisories_begin : big.advisories ≡ small.advisories ++ left_advisories
  pub agents_begin :
      big.decision.selected_user_agents ≡ small.decision.selected_user_agents ++ left_agents
  pub rest_same :
      record big { advisories = []; decision = record (big.decision) { selected_user_agents = [] } }
      ≡ record small {
        advisories = [];
        decision = record (small.decision) { selected_user_agents = [] };
      }

init_of-append : {A : Type 0} (xs : List A) → (end : List A) × (xs ≡ init_of xs ++ end)
init_of-append [] = ([], refl)
init_of-append (x ∷ []) = (x ∷ [], refl)
init_of-append (x ∷ y ∷ ys) = let (end, e) = init_of-append (y ∷ ys) in (end, ap (◌∷◌ x) e)

length-init_of :
    {A : Type 0} (xs : List A) → is_empty xs ≡ false → suc (length (init_of xs)) ≡ length xs
length-init_of [] h = cc
length-init_of (x ∷ []) h = refl
length-init_of (x ∷ y ∷ ys) h = ap suc (length-init_of (y ∷ ys) refl)

Shrunk-refl : (r : CrawlPolicyReport) → Shrunk r r
Shrunk-refl r = record {
  left_advisories = [];
  left_agents = [];
  advisories_begin = sym (append-nil r.advisories);
  agents_begin = sym (append-nil r.decision.selected_user_agents);
  rest_same = refl;
}

Shrunk-trans : {a b c : CrawlPolicyReport} → Shrunk a b → Shrunk b c → Shrunk a c
Shrunk-trans {a} {b} {c} s t = record {
  left_advisories = t.left_advisories ++ s.left_advisories;
  left_agents = t.left_agents ++ s.left_agents;
  advisories_begin =
      s.advisories_begin
      ∙ ap (λ x. x ++ s.left_advisories) t.advisories_begin
      ∙ append_assoc c.advisories t.left_advisories s.left_advisories;
  agents_begin =
      s.agents_begin
      ∙ ap (λ x. x ++ s.left_agents) t.agents_begin
      ∙ append_assoc c.decision.selected_user_agents t.left_agents s.left_agents;
  rest_same = s.rest_same ∙ t.rest_same;
}

drop_advisory-Shrunk : (r : CrawlPolicyReport) → Shrunk r (drop_advisory r)
drop_advisory-Shrunk r =
    let (end, e) = init_of-append r.advisories in
    record {
      left_advisories = end;
      left_agents = [];
      advisories_begin = e;
      agents_begin = sym (append-nil r.decision.selected_user_agents);
      rest_same = refl;
    }

drop_agent-Shrunk : (r : CrawlPolicyReport) → Shrunk r (drop_agent r)
drop_agent-Shrunk r =
    let (end, e) = init_of-append r.decision.selected_user_agents in
    record {
      left_advisories = [];
      left_agents = end;
      advisories_begin = sym (append-nil r.advisories);
      agents_begin = e;
      rest_same = refl;
    }

-- How the reduction of `r` may end.
pub data Enforced (measure : CrawlPolicyReport → Option ℕ) (r : CrawlPolicyReport)
    (out : Result LimitError CrawlPolicyReport) : Type 0 where
  accepted :
      (r' : CrawlPolicyReport) (bytes : ℕ)
      → Shrunk r r'
      → measure r' ≡ some bytes
      → bytes ≤ max_serialized_output_bytes
      → out ≡ ok r'
      → Enforced measure r out
  unmeasured :
      (r' : CrawlPolicyReport)
      → Shrunk r r'
      → measure r' ≡ none
      → out ≡ err not_measured
      → Enforced measure r out
  too_large :
      (r' : CrawlPolicyReport) (bytes : ℕ)
      → Shrunk r r'
      → r'.advisories ≡ []
      → r'.decision.selected_user_agents ≡ []
      → measure r' ≡ some bytes
      → max_serialized_output_bytes < bytes
      → out ≡ err exceeds_bound
      → Enforced measure r out

nil_of_empty : {A : Type 0} (xs : List A) → is_empty xs ≡ true → xs ≡ []
nil_of_empty [] h = refl
nil_of_empty (x ∷ xs) h = cc

module _ (measure : CrawlPolicyReport → Option ℕ) where
  Enforced-further :
      {r r' : CrawlPolicyReport} {out : Result LimitError CrawlPolicyReport}
      → Shrunk r r'
      → Enforced measure r' out
      → Enforced measure r out
  Enforced-further s (accepted r' b t m le e) = accepted r' b (Shrunk-trans s t) m le e
  Enforced-further s (unmeasured r' t m e) = unmeasured r' (Shrunk-trans s t) m e
  Enforced-further s (too_large r' b t a g m lt e) = too_large r' b (Shrunk-trans s t) a g m lt e

  enforce_loop-Enforced :
      (fuel : ℕ) (r : CrawlPolicyReport)
      → length r.advisories + length r.decision.selected_user_agents < fuel
      → Enforced measure r (enforce_loop measure fuel r)
  unfolding enforce_loop shrink
  enforce_loop-Enforced zero r h = absurd (omega arith)
  enforce_loop-Enforced (suc fuel) r h = elim (Option-cases (measure r)) [
    | inl e ↦ rw (e, enforce_loop) (unmeasured r (Shrunk-refl r) e refl)
    | inr (bytes, e) ↦ elim (Bool-cases (leb bytes max_serialized_output_bytes)) [
      | inl small ↦
          rw (e, small, enforce_loop) (accepted r bytes (Shrunk-refl r) e (ground arith) refl)
      | inr big ↦ elim (Bool-cases (is_empty r.advisories)) [
        | inr some_left ↦
            rw (e, big, some_left, enforce_loop)
              (Enforced-further (drop_advisory-Shrunk r) (
                enforce_loop-Enforced fuel (drop_advisory r)
                  (omega (arith, length-init_of r.advisories some_left))))
        | inl no_more ↦ elim (Bool-cases (is_empty r.decision.selected_user_agents)) [
          | inr some_left ↦
              rw (e, big, no_more, some_left, enforce_loop)
                (Enforced-further (drop_agent-Shrunk r) (
                  enforce_loop-Enforced fuel (drop_agent r)
                    (omega (arith, length-init_of r.decision.selected_user_agents some_left))))
          | inl none_left ↦
              rw (e, big, no_more, none_left, enforce_loop)
                (too_large r bytes (Shrunk-refl r) (nil_of_empty r.advisories no_more)
                  (nil_of_empty r.decision.selected_user_agents none_left) e (ground arith) refl)
        ]
      ]
    ]
  ]

-- The reduction always ends: with a report that measures at most 131072 bytes and differs from the
-- one given only in advisories and user agents left out at the end; or with an error, because a
-- report could not be measured, or because a report with neither advisories nor user agents is
-- still too large.
pub enforce_serialized_output_limit-Enforced :
    (measure : CrawlPolicyReport → Option ℕ) (r : CrawlPolicyReport)
    → Enforced measure r (enforce_serialized_output_limit measure r)
unfolding enforce_serialized_output_limit
enforce_serialized_output_limit-Enforced measure r = enforce_loop-Enforced measure _ r (omega arith)

status_of : (s s' : ℕ) (u u' : Text) → http_error s u ≡ http_error s' u' → s ≡ s'
status_of s s' u u' e = cc

-- A robots.txt that could not be fetched allows the target exactly if the server answered with a
-- status from 400 to 499, and the one check made is counted as completed or as failed.
pub evaluate_fetch_failure-allowed_iff :
    (target token robots : Text) (error : FetchError)
    → (((evaluate_fetch_failure target token robots error).decision.allowed ≡ true) ↔ (
        (status : ℕ) × (url : Text) × (error ≡ http_error status url)
        × (400 ≤ status)
        × (status ≤ 499)))
      × ((evaluate_fetch_failure target token robots error).source.checks_completed
            + (evaluate_fetch_failure target token robots error).source.checks_failed
          ≡ (evaluate_fetch_failure target token robots error).source.checks_total)
unfolding evaluate_fetch_failure
evaluate_fetch_failure-allowed_iff target token robots (http_error status url) = (
  (
    λ h. (status, url, refl, ground arith, ground arith),
    λ (s, u, e, lo, hi). let same : status ≡ s = status_of status s url u e in ground arith,
  ),
  ground arith,
)
evaluate_fetch_failure-allowed_iff target token robots (body_too_large n) =
    ((λ h. cc, λ (s, u, e, _, _). cc), refl)
evaluate_fetch_failure-allowed_iff target token robots (url_blocked why) =
    ((λ h. cc, λ (s, u, e, _, _). cc), refl)
evaluate_fetch_failure-allowed_iff target token robots (timeout ms) =
    ((λ h. cc, λ (s, u, e, _, _). cc), refl)
evaluate_fetch_failure-allowed_iff target token robots (navigation_failed why) =
    ((λ h. cc, λ (s, u, e, _, _). cc), refl)
evaluate_fetch_failure-allowed_iff target token robots (too_many_redirects n) =
    ((λ h. cc, λ (s, u, e, _, _). cc), refl)

length-pos : (s : Text) → is_empty s ≡ false → 1 ≤ length s
length-pos [] h = cc
length-pos (b ∷ s) h = omega arith

all_token : (s : Text) → all is_token_byte s ≡ true → All (λ b. is_token_byte b ≡ true) s
all_token [] h = tt
all_token (b ∷ s) h = (ground arith, all_token s (ground arith))

-- An accepted product token is the trimmed input, has 1 to 64 bytes, and each of its bytes is an
-- ASCII letter, a hyphen or an underscore.
pub validate_product_token-ok :
    (input token : Text)
    → validate_product_token input ≡ ok token
    → (token ≡ trim input)
      × (1 ≤ length token)
      × (length token ≤ 64)
      × All (λ b. is_token_byte b ≡ true) token
unfolding validate_product_token
validate_product_token-ok input token h =
    let t = trim input in
    elim (Bool-cases (is_empty t || ltb max_product_token_bytes (length t))) [
      | inl e ↦ let bad : err token_length ≡ ok token = rw e at h in cc
      | inr e ↦ elim (Bool-cases (all is_token_byte t)) [
        | inr f ↦ let bad : err token_bytes ≡ ok token = rw (e, f) at h in cc
        | inl f ↦
            let same : ok t ≡ ok token = rw (e, f) at h in
            let it : t ≡ token = cc in
            rw (← it) (refl, length-pos t (ground arith), ground arith, all_token t f)
      ]
    ]

-- A body with a line above the limit refuses every target, and no rule is then reported as the
-- one that matched; every other body is decided by its groups.
pub evaluate_document-over_limit :
    (target : Target) (url token robots : Text) (fetched : FetchResult)
    → ((0 < (parse_robots fetched.html).1.lines_over_limit)
        × ((evaluate_document target url token robots fetched).decision.allowed ≡ false)
        × ((evaluate_document target url token robots fetched).decision.matched_rule ≡ none))
      ⊎ (((parse_robots fetched.html).1.lines_over_limit ≡ 0)
          × ((evaluate_document target url token robots fetched).decision
              ≡ (decide target token (parse_robots fetched.html).0).0))
unfolding evaluate_document
evaluate_document-over_limit target url token robots fetched =
    elim (Bool-cases (ltb 0 (parse_robots fetched.html).1.lines_over_limit)) [
      | inl e ↦ rw e (inl (ltb→lt _ _ e, refl, refl))
      | inr e ↦ rw e (inr (ground arith, refl))
    ]
