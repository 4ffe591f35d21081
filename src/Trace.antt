-- ===== src/Trace.antt =====
-- The trace of a browser session: `TraceLog` of src/mcp/trace.rs.
--
-- Of an event the model has its number, its action and, as one value of an argument type, the rest, which
-- the log only keeps. The length of its serialised form is an argument too; the key of the fingerprints
-- and the id of the trace, which no call changes, are left out.
pub mod Laws
pub mod Counts
mod Tests
use plasmate.Common.{
  ℕ, ◌+◌, ◌-◌, ◌*◌, ◌^◌, Bool, true, false, not, ◌&&◌, ◌||◌, Option, none, some, List, [], ◌∷◌,
  ◌++◌, any, leb, ltb, length, ◌==◌, if◌then◌else◌,
}
use plasmate.Text.{Text, codes, text_eq}

abbrev pub max_trace_events : ℕ
max_trace_events = 128

abbrev pub max_trace_bytes : ℕ
max_trace_bytes = 48 * 1024

abbrev pub max_trace_event_bytes : ℕ
max_trace_event_bytes = 4 * 1024

abbrev pub max_u64 : ℕ
max_u64 = 18446744073709551615

-- `u64::saturating_add`
abbrev pub saturating_add : ℕ → ℕ → ℕ
saturating_add a b = if ltb max_u64 (a + b) then max_u64 else a + b

abbrev traceable_actions : List Text
traceable_actions =
    codes "open_page"
    ∷ codes "navigate_to"
    ∷ codes "click"
    ∷ codes "type_text"
    ∷ codes "select_option"
    ∷ codes "scroll"
    ∷ codes "toggle"
    ∷ codes "clear"
    ∷ codes "close_page"
    ∷ codes "evaluate"
    ∷ codes "set_cookies"
    ∷ codes "clear_cookies"
    ∷ []

unfoldable pub is_traceable_action : Text → Bool
unfolding text_eq
is_traceable_action action = any (λ a. text_eq a action) traceable_actions

pub record TraceEvent (P : Type 0) : Type 0 where
  pub sequence : ℕ
  pub action : Text
  pub content : P

pub record TraceLog (P : Type 0) : Type 0 where
  pub enabled : Bool
  pub next_sequence : ℕ
  pub events : List (TraceEvent P)
  pub retained_bytes : ℕ
  pub evicted_events : ℕ
  pub oversized_events : ℕ
  pub cleared_events : ℕ

module _ {P : Type 0} where
  unfoldable pub new_log : TraceLog P
  new_log = record {
    enabled = false;
    next_sequence = 1;
    events = [];
    retained_bytes = 0;
    evicted_events = 0;
    oversized_events = 0;
    cleared_events = 0;
  }

  unfoldable pub set_enabled : Bool → TraceLog P → TraceLog P
  set_enabled enabled t = record t { enabled = enabled }

  -- With the number of events that were cleared.
  unfoldable pub clear : TraceLog P → TraceLog P × ℕ
  clear t = (
    record t {
      cleared_events = saturating_add t.cleared_events (length t.events);
      events = [];
      retained_bytes = 0;
    },
    length t.events,
  )

  unfoldable pub event : ℕ → List (TraceEvent P) → Option (TraceEvent P)
  event sequence [] = none
  event sequence (e ∷ es) = if e.sequence == sequence then some e else event sequence es

  module _ (serialized_len : TraceEvent P → ℕ) where
    -- The loop that takes events off the front: the events, their bytes and the evictions.
    unfoldable pub make_room : ℕ → List (TraceEvent P) → ℕ → ℕ → List (TraceEvent P) × (ℕ × ℕ)
    make_room event_bytes [] bytes evicted = ([], (bytes, evicted))
    make_room event_bytes (e ∷ es) bytes evicted =
        let rest = make_room event_bytes es (bytes - serialized_len e) (saturating_add evicted 1) in
        if leb max_trace_events (length (e ∷ es)) || ltb max_trace_bytes (bytes + event_bytes)
        then rest
        else (e ∷ es, (bytes, evicted))

    unfoldable pub push_event : TraceEvent P → TraceLog P → TraceLog P
    unfolding make_room
    push_event e t =
        let (kept, (bytes, evicted)) =
          make_room (serialized_len e) t.events t.retained_bytes t.evicted_events in
        record t {
          events = kept ++ e ∷ [];
          retained_bytes = bytes + serialized_len e;
          evicted_events = evicted;
        }

    -- The event takes its number also where it is too large to be kept.
    unfoldable pub append_event : TraceEvent P → TraceLog P → TraceLog P
    unfolding push_event
    append_event e t =
        if ltb max_trace_event_bytes (serialized_len e) || ltb max_trace_bytes (serialized_len e)
        then record t { oversized_events = saturating_add t.oversized_events 1 }
        else push_event e t

    unfoldable pub append : Text → P → TraceLog P → TraceLog P
    unfolding append_event is_traceable_action
    append action content t =
        if not t.enabled || not (is_traceable_action action)
        then t
        else append_event
            (record { sequence = t.next_sequence; action = action; content = content })
            (record t { next_sequence = saturating_add t.next_sequence 1 })
