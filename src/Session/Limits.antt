-- ===== src/Session/Limits.antt =====
-- The limit on sessions: `SessionManager` of src/session/mod.rs.
use plasmate.Common.{
  ℕ, ◌+◌, ◌≤◌, ◌≡◌, ◌≢◌, refl, ap, sym, ◌∙◌, Bool, true, false, not, none, some, List, [], ◌∷◌,
  arith, length, ltb, leb, ◌&&◌, All-keep, length-keep-le, keep, Bool-cases, Option-cases,
  Result-cases, inl, inr, Result, ok,
}
use mathlib.Core.Option.{some-ne-none}
use plasmate.Text.{Text, text_eq, text_eq_iff, text_eq_refl}
use plasmate.Assoc.{get, insert, remove}
use plasmate.Assoc.Laws.{
  IsMap, insert-IsMap, remove-IsMap, get-insert_self, get-insert_other, get-remove_same,
  get-remove_other, length-insert_new, length-insert_old, length-remove_old, length-remove-le,
}
use plasmate.Session.{Session}
use plasmate.Session.Manager.{
  ResourceLimits, SessionManager, new_manager, create_session, take_out, put_back, navigate_session,
  with_session, close_session, is_idle, cleanup_idle, sum_of_memory, session_count, session_exists,
}

-- A call on the table; what a session does in it is a function.
pub data Call (J D : Type 0) : Type 0 where
  create : Text → Result Text (Session J D) → Call J D
  go_to : Text → (Session J D → Session J D) → Call J D
  use_session : Text → ℕ → (Session J D → Session J D) → Call J D
  close : Text → Call J D
  cleanup : ℕ → Call J D

text_eq_no : (a b : Text) → a ≢ b → text_eq a b ≡ false
text_eq_no a b n = elim (Bool-cases (text_eq a b)) [
  | inl e ↦ absurd (n ((text_eq_iff a b).0 e))
  | inr e ↦ e
]

module _ {J D : Type 0} where
  -- No id twice, and no more sessions than the limit allows.
  pub record Bounded (m : SessionManager J D) : Type 0 where
    pub is_map : IsMap m.sessions
    pub in_limit : length m.sessions ≤ m.limits.max_sessions

  abbrev no_value : (Session J D → Session J D) → Session J D → Session J D × Unit {0}
  no_value f s = (f s, tt)

  unfoldable pub call : SessionManager J D → Call J D → SessionManager J D
  unfolding create_session navigate_session with_session close_session cleanup_idle
  call m (create id made) = (create_session m id made).0
  call m (go_to id f) = (navigate_session m id (no_value f)).0
  call m (use_session id now f) = (with_session m id now (no_value f)).0
  call m (close id) = (close_session m id).0
  call m (cleanup now) = (cleanup_idle m now).0

  unfoldable pub run_calls : SessionManager J D → List (Call J D) → SessionManager J D
  unfolding call
  run_calls m [] = m
  run_calls m (c ∷ cs) = run_calls (call m c) cs

  length-insert-le :
      (id : Text) (s : Session J D) (m : List (Text × Session J D))
      → length (insert id s m) ≤ length m + 1
  length-insert-le id s m = elim (Option-cases (get id m)) [
    | inl h ↦ omega (arith, length-insert_new id s m h)
    | inr (t, h) ↦ omega (arith, length-insert_old id s t m h)
  ]

  keep-IsMap :
      (p : Text × Session J D → Bool) (m : List (Text × Session J D)) → IsMap m → IsMap (keep p m)
  keep-IsMap p [] u = tt
  keep-IsMap p ((k, v) ∷ m) (fresh, u) =
      elim (p (k, v)) as (λ b. IsMap (elim b [ true ↦ (k, v) ∷ keep p m | false ↦ keep p m ])) [
        | true ↦ (All-keep (λ e. e.0 ≢ k) p m fresh, keep-IsMap p m u)
        | false ↦ keep-IsMap p m u
      ]

  abbrev has_no_budget : SessionManager J D → Bool
  has_no_budget m =
      ltb 0 m.limits.total_memory_budget
      && leb m.limits.total_memory_budget (sum_of_memory m.sessions)

  create_session-Bounded :
      (m : SessionManager J D) (id : Text) (made : Result Text (Session J D))
      → Bounded m
      → Bounded (create_session m id made).0
  unfolding create_session
  create_session-Bounded m id made b =
      elim (Bool-cases (leb m.limits.max_sessions (length m.sessions))) [
        | inl full ↦ rw (create_session, full) b
        | inr room ↦ elim (Bool-cases (has_no_budget m)) [
          | inl spent ↦ rw (create_session, room, spent) b
          | inr left ↦ elim (Result-cases made) [
            | inl (s, e) ↦
                rw (create_session, room, left, e)
                  (record {
                    is_map = insert-IsMap id s m.sessions b.is_map;
                    in_limit = ground (arith, room, length-insert-le id s m.sessions);
                  })
            | inr (x, e) ↦ rw (create_session, room, left, e) b
          ]
        ]
      ]

  navigate_session-Bounded :
      (m : SessionManager J D) (id : Text) (f : Session J D → Session J D)
      → Bounded m
      → Bounded (navigate_session m id (no_value f)).0
  unfolding navigate_session take_out put_back
  navigate_session-Bounded m id f b = elim (Option-cases (get id m.sessions)) [
    | inl h ↦
        rw (navigate_session, h)
          (record {
            is_map = remove-IsMap id m.sessions b.is_map;
            in_limit = omega (arith, b.in_limit, length-remove-le id m.sessions);
          })
    | inr (s, h) ↦
        rw (navigate_session, h)
          (record {
            is_map = insert-IsMap id (f s) _ (remove-IsMap id m.sessions b.is_map);
            in_limit = omega (
              arith,
              b.in_limit,
              length-remove_old id s m.sessions h,
              length-insert-le id (f s) (remove id m.sessions),
            );
          })
  ]

  with_session-Bounded :
      (m : SessionManager J D) (id : Text) (now : ℕ) (f : Session J D → Session J D)
      → Bounded m
      → Bounded (with_session m id now (no_value f)).0
  unfolding with_session
  with_session-Bounded m id now f b = elim (Option-cases (get id m.sessions)) [
    | inl h ↦ rw (with_session, h) b
    | inr (s, h) ↦
        let out = f (record s { last_active = now }) in
        rw (with_session, h)
          (record {
            is_map = insert-IsMap id out m.sessions b.is_map;
            in_limit = omega (arith, b.in_limit, length-insert_old id out s m.sessions h);
          })
  ]

  cleanup_idle-Bounded :
      (m : SessionManager J D) (now : ℕ) → Bounded m → Bounded (cleanup_idle m now).0
  unfolding cleanup_idle
  cleanup_idle-Bounded m now b =
      let p : Text × Session J D → Bool = λ e. not (is_idle m.limits.idle_timeout now e) in
      record {
        is_map = keep-IsMap p m.sessions b.is_map;
        in_limit = omega (arith, b.in_limit, length-keep-le p m.sessions);
      }

  call-Bounded : (m : SessionManager J D) (c : Call J D) → Bounded m → Bounded (call m c)
  unfolding call close_session
  call-Bounded m (create id made) b = create_session-Bounded m id made b
  call-Bounded m (go_to id f) b = navigate_session-Bounded m id f b
  call-Bounded m (use_session id now f) b = with_session-Bounded m id now f b
  call-Bounded m (close id) b = record {
    is_map = remove-IsMap id m.sessions b.is_map;
    in_limit = omega (arith, b.in_limit, length-remove-le id m.sessions);
  }
  call-Bounded m (cleanup now) b = cleanup_idle-Bounded m now b

  run_calls_from-Bounded :
      (m : SessionManager J D) (cs : List (Call J D)) → Bounded m → Bounded (run_calls m cs)
  unfolding run_calls
  run_calls_from-Bounded m [] b = b
  run_calls_from-Bounded m (c ∷ cs) b = run_calls_from-Bounded (call m c) cs (call-Bounded m c b)

  -- Where no call comes between the two steps of a navigation, a new table holds no id twice and no
  -- more sessions than its limit after any sequence of calls, whatever the sessions do in them.
  pub run_calls-Bounded :
      (limits : ResourceLimits) (cs : List (Call J D)) → Bounded (run_calls (new_manager limits) cs)
  unfolding new_manager
  run_calls-Bounded limits cs =
      run_calls_from-Bounded (new_manager limits) cs
        (record { is_map = tt; in_limit = omega arith })

  ids_differ :
      (id other : Text) (s : Session J D) (m : List (Text × Session J D))
      → get id m ≡ some s
      → get other m ≡ none
      → id ≢ other
  ids_differ id other s m g h e = some-ne-none s (sym g ∙ ap (λ k. get k m) e ∙ h)

  -- A session that is created during a navigation: a table that is full has one session more than its
  -- limit when the navigation is over, where it has no memory budget and the new id is not in use.
  pub create_session-over_limit :
      (m : SessionManager J D) (id other : Text) (s made after : Session J D)
      → Bounded m
      → session_count m ≡ m.limits.max_sessions
      → m.limits.total_memory_budget ≡ 0
      → get id m.sessions ≡ some s
      → get other m.sessions ≡ none
      → session_count (put_back (create_session (take_out m id).0 other (ok made)).0 id after)
        ≡ m.limits.max_sessions + 1
  unfolding session_count put_back create_session take_out
  create_session-over_limit m id other s made after b full free g h =
      let rest = remove id m.sessions in
      let gone = length-remove_old id s m.sessions g in
      let room : leb m.limits.max_sessions (length rest) ≡ false = ground (arith, gone, full) in
      let differ = ids_differ id other s m.sessions g h in
      let new = get-remove_other id other m.sessions b.is_map (text_eq_no id other differ) ∙ h in
      let absent =
        get-insert_other other id made rest (text_eq_no other id (λ e. differ (sym e)))
        ∙ get-remove_same id id m.sessions b.is_map (text_eq_refl id) in
      let created = length-insert_new other made rest new in
      let back = length-insert_new id after (insert other made rest) absent in
      rw (create_session, room, free) (omega (arith, gone, full, created, back))

  -- A session that is closed during its navigation: the call finds nothing to close, and the session is
  -- there again when the navigation is over.
  pub close_session-undone :
      (m : SessionManager J D) (id : Text) (s after : Session J D)
      → Bounded m
      → get id m.sessions ≡ some s
      → ((close_session (take_out m id).0 id).1 ≡ false)
        × (session_exists (put_back (close_session (take_out m id).0 id).0 id after) id ≡ true)
  unfolding close_session session_exists put_back take_out
  close_session-undone m id s after b g = (
    rw (get-remove_same id id m.sessions b.is_map (text_eq_refl id)) refl,
    rw (get-insert_self id after (remove id (remove id m.sessions))) refl,
  )
