-- ===== src/Intercept/Ids.antt =====
-- The ids of intercepted requests: `next_request_id` of src/network/intercept.rs.
use plasmate.Common.{
  ℕ, suc, ◌+◌, ◌^◌, ◌%◌, ◌≤◌, ◌<◌, ◌≡◌, refl, List, [], ◌∷◌, ◌++◌, arith, length, drop, Bool-cases,
  inl, inr, Bool, leb,
}
use plasmate.Text.{Text}
use plasmate.Intercept.Kinds.{ResourceType}
use plasmate.Intercept.Types.{RequestId, intercept, InterceptedRequestInfo, NetworkInterceptor}
use plasmate.Intercept.{
  init, enable, disable, add_rule, add_response_rule, remove_rules_by_url, clear_rules, clear_log,
  push_log, check_request, matches_patterns, request_info,
}
use plasmate.Intercept.Log.{Interception, Call, checks, clears_log, step, run, start}

abbrev number : RequestId → ℕ
number (intercept n) = n

-- The ids grow along the log, from `lo` on and below `hi`; so no two entries share one.
abbrev pub Ascending : ℕ → List InterceptedRequestInfo → ℕ → Type 0
Ascending lo [] hi = lo ≤ hi
Ascending lo (i ∷ log) hi =
    (lo ≤ number i.request_id) × Ascending (suc (number i.request_id)) log hi

Ascending-bound : (lo hi : ℕ) (log : List InterceptedRequestInfo) → Ascending lo log hi → lo ≤ hi
Ascending-bound lo hi [] h = h
Ascending-bound lo hi (i ∷ log) (h, k) = omega (arith, Ascending-bound _ hi log k)

Ascending-concat :
    (lo hi : ℕ) (log : List InterceptedRequestInfo) (i : InterceptedRequestInfo)
    → number i.request_id ≡ hi
    → Ascending lo log hi
    → Ascending lo (log ++ i ∷ []) (suc hi)
Ascending-concat lo hi [] i e h = (omega arith, omega arith)
Ascending-concat lo hi (j ∷ log) i e (h, k) = (h, Ascending-concat _ hi log i e k)

Ascending-lower :
    (lo lo' hi : ℕ) (log : List InterceptedRequestInfo)
    → lo' ≤ lo
    → Ascending lo log hi
    → Ascending lo' log hi
Ascending-lower lo lo' hi [] le h = omega arith
Ascending-lower lo lo' hi (i ∷ log) le (h, k) = (omega arith, k)

Ascending-drop_one :
    (lo hi : ℕ) (log : List InterceptedRequestInfo)
    → Ascending lo log hi
    → Ascending lo (drop 1 log) hi
Ascending-drop_one lo hi [] h = h
Ascending-drop_one lo hi (i ∷ log) (h, k) = Ascending-lower _ lo hi log (omega arith) k

push_log-Ascending :
    (max lo hi : ℕ) (log : List InterceptedRequestInfo) (i : InterceptedRequestInfo)
    → number i.request_id ≡ hi
    → Ascending lo log hi
    → Ascending lo (push_log max log i) (suc hi)
unfolding push_log
push_log-Ascending max lo hi log i e h = elim (Bool-cases (leb max (length log))) [
  | inl full ↦ rw full (Ascending-concat lo hi (drop 1 log) i e (Ascending-drop_one lo hi log h))
  | inr room ↦ rw room (Ascending-concat lo hi log i e h)
]

abbrev IsOrdered : Interception → Type 0
IsOrdered s = Ascending 0 s.interceptor.intercepted_log s.counter

check_request-IsOrdered :
    (c : ℕ) (n : NetworkInterceptor) (url : Text) (kind : ResourceType) (nav : Bool)
    → c + 1 < 2 ^ 64
    → Ascending 0 n.intercepted_log c
    → Ascending 0
        (check_request c n url kind nav).interceptor.intercepted_log
        (check_request c n url kind nav).counter
      × ((check_request c n url kind nav).counter ≤ c + 1)
unfolding check_request
check_request-IsOrdered c n url kind nav small h = elim (Bool-cases n.enabled) [
  | inr off ↦ rw off (h, omega arith)
  | inl on ↦ elim (Bool-cases (matches_patterns n.patterns url kind)) [
    | inr off ↦ rw (on, off) (h, omega arith)
    | inl watched ↦
        let next : (c + 1) % 2 ^ 64 ≡ suc c = omega arith in
        rw (on, watched, next)
          (
            push_log-Ascending n.max_log_entries 0 c n.intercepted_log (request_info c url kind nav)
                refl h,
            omega arith,
          )
  ]
]

step-IsOrdered :
    (s : Interception) (c : Call)
    → s.counter + 1 < 2 ^ 64
    → IsOrdered s
    → IsOrdered (step s c) × ((step s c).counter ≤ s.counter + 1)
unfolding step enable disable add_rule add_response_rule remove_rules_by_url clear_rules clear_log
step-IsOrdered s (checks url kind nav) small h =
    check_request-IsOrdered s.counter s.interceptor url kind nav small h
step-IsOrdered s clears_log small h = (omega arith, omega arith)
step-IsOrdered s _ small h = (h, omega arith)

run-IsOrdered :
    (s : Interception) (cs : List Call)
    → s.counter + length cs < 2 ^ 64
    → IsOrdered s
    → IsOrdered (run s cs)
unfolding run
run-IsOrdered s [] small h = h
run-IsOrdered s (c ∷ cs) small h =
    let (kept, grown) = step-IsOrdered s c (omega arith) h in
    run-IsOrdered (step s c) cs (omega arith) kept

-- As long as the 64-bit counter does not wrap, the ids in the log of an interceptor grow strictly
-- from the oldest entry to the newest and stay below the counter, whatever calls are made; so every
-- id in the log names one request, and the next id is new.
pub run-Ascending :
    (counter : ℕ) (cs : List Call)
    → counter + length cs < 2 ^ 64
    → Ascending 0
        (run (start counter) cs).interceptor.intercepted_log
        (run (start counter) cs).counter
unfolding init
run-Ascending counter cs small = run-IsOrdered (start counter) cs small (omega arith)
