-- ===== src/Trace/Tests.antt =====
-- A log on which the theorems about traces are applied: each event takes 3000 bytes.
use plasmate.Common.{ℕ, ◌≡◌, refl, arith, true, List, [], ◌∷◌}
use plasmate.Text.{codes, text_eq}
use plasmate.Trace.{
  TraceEvent, new_log, set_enabled, is_traceable_action, append, append_event, push_event,
  make_room, clear,
}
use plasmate.Trace.Laws.{
  Call, enable, record_action, clear_all, call, run, Retained, run_log-Retained,
}
use plasmate.Trace.Counts.{Accounted, run_log-Accounted}

abbrev three_thousand : TraceEvent ℕ → ℕ
three_thousand e = 3000

abbrev calls : List (Call three_thousand)
calls =
    enable true
    ∷ record_action (codes "click") 1
    ∷ record_action (codes "scroll") 2
    ∷ clear_all
    ∷ record_action (codes "look") 3
    ∷ record_action (codes "evaluate") 4
    ∷ []

run_log-Retained_example : Retained three_thousand (run three_thousand new_log calls)
run_log-Retained_example = run_log-Retained three_thousand calls

next_is_four : (run three_thousand new_log calls).next_sequence ≡ 4
unfolding run call new_log set_enabled append is_traceable_action text_eq append_event push_event
    make_room clear
next_is_four = refl

run_log-Accounted_example : Accounted three_thousand (run three_thousand new_log calls)
run_log-Accounted_example = run_log-Accounted three_thousand calls (omega (arith, next_is_four))
