-- ===== src/Trace/Laws.antt =====
-- The bounds of a trace and its counts: `TraceLog` of src/mcp/trace.rs.
use plasmate.Common.{
  ℕ, ◌+◌, ◌-◌, ◌≤◌, ◌<◌, ◌≡◌, refl, Bool, not, ◌||◌, List, [], ◌∷◌, ◌++◌, arith, leb, ltb, length,
  length-append, Bool-cases, inl, inr,
}
use plasmate.Text.{Text}
use plasmate.Trace.{
  max_trace_events, max_trace_bytes, max_trace_event_bytes, saturating_add, is_traceable_action,
  TraceEvent, TraceLog, new_log, set_enabled, clear, make_room, push_event, append_event, append,
}

module _ {P : Type 0} (serialized_len : TraceEvent P → ℕ) where
  abbrev pub sum_of_bytes : List (TraceEvent P) → ℕ
  sum_of_bytes [] = 0
  sum_of_bytes (e ∷ es) = serialized_len e + sum_of_bytes es

  -- The bounds: 128 events of 48 KiB in all, with the bytes counted right.
  pub record Retained (t : TraceLog P) : Type 0 where
    pub few : length t.events ≤ max_trace_events
    pub small : t.retained_bytes ≤ max_trace_bytes
    pub counted : t.retained_bytes ≡ sum_of_bytes t.events

  record Room (size : ℕ) (out : List (TraceEvent P) × (ℕ × ℕ)) : Type 0 where
    few : length out.0 < max_trace_events
    small : out.1.0 + size ≤ max_trace_bytes
    counted : out.1.0 ≡ sum_of_bytes out.0

  make_room-Room :
      (size : ℕ) (es : List (TraceEvent P)) (bytes evicted : ℕ)
      → size ≤ max_trace_bytes
      → bytes ≡ sum_of_bytes es
      → Room size (make_room serialized_len size es bytes evicted)
  unfolding make_room
  make_room-Room size [] bytes evicted s h = record {
    few = omega arith;
    small = omega (arith, s, h);
    counted = h;
  }
  make_room-Room size (e ∷ es) bytes evicted s h =
      let rest =
        make_room-Room size es (bytes - serialized_len e) (saturating_add evicted 1) s
          (omega (arith, h)) in
      elim (Bool-cases
        (leb max_trace_events (length (e ∷ es)) || ltb max_trace_bytes (bytes + size))) [
          | inl full ↦ rw full rest
          | inr room ↦
              rw room
                (record { few = ground (arith, room); small = ground (arith, room); counted = h })
        ]

  sum_of_bytes-append :
      (es fs : List (TraceEvent P)) → sum_of_bytes (es ++ fs) ≡ sum_of_bytes es + sum_of_bytes fs
  sum_of_bytes-append [] fs = omega arith
  sum_of_bytes-append (e ∷ es) fs = omega (arith, sum_of_bytes-append es fs)

  push_event-Retained :
      (e : TraceEvent P) (t : TraceLog P)
      → serialized_len e ≤ max_trace_bytes
      → Retained t
      → Retained (push_event serialized_len e t)
  unfolding push_event
  push_event-Retained e t s r =
      let room =
        make_room-Room (serialized_len e) t.events t.retained_bytes t.evicted_events s r.counted in
      let kept =
        (make_room serialized_len (serialized_len e) t.events t.retained_bytes
          t.evicted_events).0 in
      record {
        few = omega (arith, length-append kept (e ∷ []), room.few);
        small = room.small;
        counted = omega (arith, sum_of_bytes-append kept (e ∷ []), room.counted);
      }

  append_event-Retained :
      (e : TraceEvent P) (t : TraceLog P) → Retained t → Retained (append_event serialized_len e t)
  unfolding append_event
  append_event-Retained e t r =
      elim (Bool-cases
        (ltb max_trace_event_bytes (serialized_len e) || ltb max_trace_bytes (serialized_len e))) [
          | inl large ↦
              rw (append_event, large)
                (record { few = r.few; small = r.small; counted = r.counted })
          | inr fits ↦ rw (append_event, fits) (push_event-Retained e t (ground (arith, fits)) r)
        ]

  -- A call that changes the log.
  pub data Call : Type 0 where
    enable : Bool → Call
    record_action : Text → P → Call
    clear_all : Call

  unfoldable pub call : TraceLog P → Call → TraceLog P
  call t (enable b) = set_enabled b t
  call t (record_action action content) = append serialized_len action content t
  call t clear_all = (clear t).0

  unfoldable pub run : TraceLog P → List Call → TraceLog P
  run t [] = t
  run t (c ∷ cs) = run (call t c) cs

  call-Retained : (t : TraceLog P) (c : Call) → Retained t → Retained (call t c)
  unfolding call set_enabled append clear
  call-Retained t (enable b) r = record { few = r.few; small = r.small; counted = r.counted }
  call-Retained t clear_all r = record { few = omega arith; small = omega arith; counted = refl }
  call-Retained t (record_action action content) r =
      elim (Bool-cases (not t.enabled || not (is_traceable_action action))) [
        | inl off ↦ rw (append, off) r
        | inr on ↦
            rw (append, on)
              (append_event-Retained _ _
                (record { few = r.few; small = r.small; counted = r.counted }))
      ]

  run_from-Retained : (t : TraceLog P) (cs : List Call) → Retained t → Retained (run t cs)
  unfolding run
  run_from-Retained t [] r = r
  run_from-Retained t (c ∷ cs) r = run_from-Retained (call t c) cs (call-Retained t c r)

  -- After any sequence of calls a log holds at most 128 events, which take at most 48 KiB in their
  -- serialised form, and the bytes that it reports are those of the events that it holds.
  pub run_log-Retained : (cs : List Call) → Retained (run new_log cs)
  unfolding new_log
  run_log-Retained cs =
      run_from-Retained new_log cs
        (record { few = omega arith; small = omega arith; counted = refl })
