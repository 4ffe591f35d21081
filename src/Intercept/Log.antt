-- ===== src/Intercept/Log.antt =====
-- The log of intercepted requests under any sequence of calls: src/network/intercept.rs.
use plasmate.Common.{
  ℕ, zero, suc, ◌-◌, ◌≤◌, ◌<◌, ◌≡◌, refl, sym, ap, ◌∙◌, Bool, true, false, Option, none, some, List,
  [], ◌∷◌, ◌++◌, arith, length, drop, length-append, length-drop, drop-append_le, Bool-cases, inl,
  inr, leb, le→leb,
}
use plasmate.Text.{Text}
use plasmate.Intercept.Kinds.{ResourceType}
use plasmate.Intercept.Types.{
  RequestPattern, InterceptRule, InterceptedRequestInfo, ResponseRule, NetworkInterceptor,
}
use native.Mathlib.Decide.{dec_lt}
use plasmate.Intercept.{
  matches_patterns, request_info, init, enable, disable, add_rule, add_response_rule,
  remove_rules_by_url, clear_rules, clear_log, push_log, check_request, Checked,
}

-- An interceptor with the counter of the process.
pub record Interception : Type 0 where
  pub counter : ℕ
  pub interceptor : NetworkInterceptor

pub data Call : Type 0 where
  enables : List RequestPattern → Call
  disables clears_rules clears_log : Call
  adds_rule : InterceptRule → Call
  adds_response_rule : ResponseRule → Call
  removes : Text → Call
  checks : Text → ResourceType → Bool → Call

abbrev after : Checked → Interception
after c = record { counter = c.counter; interceptor = c.interceptor }

unfoldable pub step : Interception → Call → Interception
step s (enables ps) = record s { interceptor = enable s.interceptor ps }
step s disables = record s { interceptor = disable s.interceptor }
step s clears_rules = record s { interceptor = clear_rules s.interceptor }
step s clears_log = record s { interceptor = clear_log s.interceptor }
step s (adds_rule r) = record s { interceptor = add_rule s.interceptor r }
step s (adds_response_rule r) = record s { interceptor = add_response_rule s.interceptor r }
step s (removes u) = record s { interceptor = remove_rules_by_url s.interceptor u }
step s (checks url kind nav) = after (check_request s.counter s.interceptor url kind nav)

unfoldable pub run : Interception → List Call → Interception
unfolding step
run s [] = s
run s (c ∷ cs) = run (step s c) cs

-- Every entry reported since the log was last cleared, without a bound.
abbrev append_info :
    List InterceptedRequestInfo → Option InterceptedRequestInfo → List InterceptedRequestInfo
append_info h none = h
append_info h (some i) = h ++ i ∷ []

unfoldable pub reported :
    List InterceptedRequestInfo → Interception → Call → List InterceptedRequestInfo
reported h s clears_log = []
reported h s (checks url kind nav) =
    append_info h (check_request s.counter s.interceptor url kind nav).info
reported h s _ = h

unfoldable pub history :
    List InterceptedRequestInfo → Interception → List Call → List InterceptedRequestInfo
unfolding reported
history h s [] = h
history h s (c ∷ cs) = history (reported h s c) (step s c) cs

-- The newest `n` entries.
abbrev pub newest : {A : Type 0} → ℕ → List A → List A
newest n xs = drop (length xs - n) xs

record Tracks (max : ℕ) (h : List InterceptedRequestInfo) (n : NetworkInterceptor) : Type 0 where
  bound_same : n.max_log_entries ≡ max
  log_same : n.intercepted_log ≡ newest max h

drop-one {ℓ} : {A : Type ℓ} (n : ℕ) (xs : List A) → drop 1 (drop n xs) ≡ drop (suc n) xs
drop-one zero xs = refl
drop-one (suc n) [] = refl
drop-one (suc n) (x ∷ xs) = drop-one n xs

newest_all : {A : Type 0} (n : ℕ) (xs : List A) → length xs ≤ n → newest n xs ≡ xs
newest_all n xs h = let e : length xs - n ≡ 0 = omega arith in rw e refl

push_log-newest :
    (max : ℕ) (h : List InterceptedRequestInfo) (i : InterceptedRequestInfo)
    → 0 < max
    → push_log max (newest max h) i ≡ newest max (h ++ i ∷ [])
unfolding push_log
push_log-newest max h i pos = elim (dec_lt (length h) max) [
  | yes room ↦
      let all_h = newest_all max h (omega arith) in
      let all_i = newest_all max (h ++ i ∷ []) (omega (arith, length-append h (i ∷ []))) in
      let short : leb max (length h) ≡ false = ground arith in rw (all_h, all_i, short) refl
  | no full ↦
      let more : length (h ++ i ∷ []) - max ≡ suc (length h - max) =
        omega (arith, length-append h (i ∷ [])) in
      let long : leb max (length (newest max h)) ≡ true =
        le→leb _ _ (omega (arith, length-drop (length h - max) h)) in
      rw (long, more, drop-one (length h - max) h)
        (sym (drop-append_le (suc (length h - max)) h (i ∷ []) (omega arith)))
]

check_request-Tracks :
    (max : ℕ) (h : List InterceptedRequestInfo) (c : ℕ) (n : NetworkInterceptor) (url : Text)
    (kind : ResourceType) (nav : Bool)
    → 0 < max
    → Tracks max h n
    → Tracks max
        (append_info h (check_request c n url kind nav).info)
        (check_request c n url kind nav).interceptor
unfolding check_request
check_request-Tracks max h c n url kind nav pos t = elim (Bool-cases n.enabled) [
  | inr off ↦ rw off (record { bound_same = t.bound_same; log_same = t.log_same })
  | inl on ↦ elim (Bool-cases (matches_patterns n.patterns url kind)) [
    | inr off ↦ rw (on, off) (record { bound_same = t.bound_same; log_same = t.log_same })
    | inl watched ↦
        rw (on, watched)
          (record {
            bound_same = t.bound_same;
            log_same =
                ap (λ log. push_log n.max_log_entries log (request_info c url kind nav)) t.log_same
                ∙ ap (λ m. push_log m (newest max h) (request_info c url kind nav)) t.bound_same
                ∙ push_log-newest max h (request_info c url kind nav) pos;
          })
  ]
]

step-Tracks :
    (max : ℕ) (h : List InterceptedRequestInfo) (s : Interception) (c : Call)
    → 0 < max
    → Tracks max h s.interceptor
    → Tracks max (reported h s c) (step s c).interceptor
unfolding step reported enable disable add_rule add_response_rule remove_rules_by_url clear_rules
    clear_log
step-Tracks max h s (checks url kind nav) pos t =
    check_request-Tracks max h s.counter s.interceptor url kind nav pos t
step-Tracks max h s clears_log pos t = record {
  bound_same = t.bound_same;
  log_same = sym (newest_all max [] (omega arith));
}
step-Tracks max h s _ pos t = record { bound_same = t.bound_same; log_same = t.log_same }

run-Tracks :
    (max : ℕ) (h : List InterceptedRequestInfo) (s : Interception) (cs : List Call)
    → 0 < max
    → Tracks max h s.interceptor
    → Tracks max (history h s cs) (run s cs).interceptor
unfolding run history
run-Tracks max h s [] pos t = t
run-Tracks max h s (c ∷ cs) pos t =
    run-Tracks max (reported h s c) (step s c) cs pos (step-Tracks max h s c pos t)

abbrev pub start : ℕ → Interception
start counter = record { counter = counter; interceptor = init }

-- Whatever calls are made on a new interceptor, its log holds the newest 1000 of the entries
-- reported since the log was last cleared, oldest first, and so never more than 1000.
pub run-log :
    (counter : ℕ) (cs : List Call)
    → ((run (start counter) cs).interceptor.intercepted_log
        ≡ newest 1000 (history [] (start counter) cs))
      × (length (run (start counter) cs).interceptor.intercepted_log ≤ 1000)
unfolding init
run-log counter cs =
    let t =
      run-Tracks 1000 [] (start counter) cs (omega arith)
        (record { bound_same = refl; log_same = sym (newest_all 1000 [] (omega arith)) }) in
    let all_reported = history [] (start counter) cs in
    (
      t.log_same,
      omega (arith, ap length t.log_same, length-drop (length all_reported - 1000) all_reported),
    )
