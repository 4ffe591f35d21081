-- ===== src/Session/Manager.antt =====
-- The table of sessions: `SessionManager` of src/session/mod.rs. A navigation takes the session out of
-- the table and puts it back, so that it is two steps between which other calls can stand.
use plasmate.Common.{
  ℕ, ◌+◌, ◌-◌, ◌*◌, Bool, true, false, not, ◌&&◌, Option, none, some, List, [], ◌∷◌, keep, length,
  ltb, leb, if◌then◌else◌, Result, ok, err,
}
use plasmate.Text.{Text}
use plasmate.Assoc.{get, insert, remove}
use plasmate.Session.{Session}

pub data CreateError : Type 0 where
  too_many_sessions : ℕ → CreateError
  over_budget : ℕ → CreateError
  not_made : Text → CreateError

-- `idle_timeout` in milliseconds
pub record ResourceLimits : Type 0 where
  pub max_sessions : ℕ
  pub idle_timeout : ℕ
  pub total_memory_budget : ℕ

abbrev pub default_limits : ResourceLimits
default_limits = record { max_sessions = 50; idle_timeout = 300 * 1000; total_memory_budget = 0 }

pub record SessionManager (J D : Type 0) : Type 0 where
  pub sessions : List (Text × Session J D)
  pub limits : ResourceLimits

module _ {J D : Type 0} where
  unfoldable pub new_manager : ResourceLimits → SessionManager J D
  new_manager limits = record { sessions = []; limits = limits }

  unfoldable pub sum_of_memory : List (Text × Session J D) → ℕ
  sum_of_memory [] = 0
  sum_of_memory ((id, s) ∷ sessions) = s.memory_bytes + sum_of_memory sessions

  -- `id` is the fresh UUID, `made` the session that `Session::new_with_options` makes for it.
  unfoldable pub create_session :
      SessionManager J D
      → Text
      → Result Text (Session J D)
      → SessionManager J D × Result CreateError Text
  unfolding sum_of_memory
  create_session m id made =
      if leb m.limits.max_sessions (length m.sessions)
      then (m, err (too_many_sessions m.limits.max_sessions))
      else if ltb 0 m.limits.total_memory_budget
          && leb m.limits.total_memory_budget (sum_of_memory m.sessions)
      then (m, err (over_budget m.limits.total_memory_budget))
      else elim made [
        | err e ↦ (m, err (not_made e))
        | ok s ↦ (record m { sessions = insert id s m.sessions }, ok id)
      ]

  -- The two halves of `navigate`.
  unfoldable pub take_out : SessionManager J D → Text → SessionManager J D × Option (Session J D)
  take_out m id = (record m { sessions = remove id m.sessions }, get id m.sessions)

  unfoldable pub put_back : SessionManager J D → Text → Session J D → SessionManager J D
  put_back m id s = record m { sessions = insert id s m.sessions }

  -- The call of a session's `navigate` is `f`; without the session there is no result.
  unfoldable pub navigate_session :
      {A : Type 0}
      → SessionManager J D
      → Text
      → (Session J D → Session J D × A)
      → SessionManager J D × Option A
  unfolding take_out put_back
  navigate_session m id f =
      let (taken, found) = take_out m id in
      elim found [ none ↦ (taken, none) | some s ↦ (put_back taken id (f s).0, some (f s).1) ]

  unfoldable pub with_session :
      {A : Type 0}
      → SessionManager J D
      → Text
      → ℕ
      → (Session J D → Session J D × A)
      → SessionManager J D × Option A
  with_session m id now f = elim (get id m.sessions) [
    | none ↦ (m, none)
    | some s ↦
        let out = f (record s { last_active = now }) in
        (record m { sessions = insert id out.0 m.sessions }, some out.1)
  ]

  abbrev is_present : Option (Session J D) → Bool
  is_present none = false
  is_present (some s) = true

  unfoldable pub close_session : SessionManager J D → Text → SessionManager J D × Bool
  close_session m id =
      (record m { sessions = remove id m.sessions }, is_present (get id m.sessions))

  abbrev pub is_idle : ℕ → ℕ → Text × Session J D → Bool
  is_idle timeout now (id, s) = leb timeout (now - s.last_active)

  unfoldable pub cleanup_idle : SessionManager J D → ℕ → SessionManager J D × ℕ
  cleanup_idle m now =
      let kept = keep (λ e. not (is_idle m.limits.idle_timeout now e)) m.sessions in
      (record m { sessions = kept }, length m.sessions - length kept)

  unfoldable pub session_count : SessionManager J D → ℕ
  session_count m = length m.sessions

  unfoldable pub session_exists : SessionManager J D → Text → Bool
  session_exists m id = is_present (get id m.sessions)

  unfoldable pub total_memory_bytes : SessionManager J D → ℕ
  unfolding sum_of_memory
  total_memory_bytes m = sum_of_memory m.sessions
