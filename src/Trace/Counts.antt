-- ===== src/Trace/Counts.antt =====
-- No event of a trace is lost without a count: `TraceLog` of src/mcp/trace.rs.
use plasmate.Common.{
  ℕ, ◌+◌, ◌-◌, ◌≤◌, ◌<◌, ◌≡◌, refl, not, ◌||◌, List, [], ◌∷◌, arith, leb, ltb, length,
  length-append, Bool-cases, inl, inr,
}
use plasmate.Trace.{
  max_trace_events, max_trace_bytes, max_trace_event_bytes, max_u64, saturating_add,
  is_traceable_action, TraceEvent, TraceLog, new_log, set_enabled, clear, make_room, push_event,
  append_event, append,
}
use plasmate.Trace.Laws.{Call, enable, record_action, clear_all, call, run}

saturating_add-le :
    (a b : ℕ) → a ≤ max_u64 → (a ≤ saturating_add a b) × (saturating_add a b ≤ max_u64)
saturating_add-le a b h = (ground arith, ground arith)

saturating_add-lt : (a b : ℕ) → saturating_add a b < max_u64 → saturating_add a b ≡ a + b
saturating_add-lt a b h = ground arith

module _ {P : Type 0} (serialized_len : TraceEvent P → ℕ) where
  -- Each number that was given out is that of an event that is held, or was evicted, oversized or cleared.
  pub record Accounted (t : TraceLog P) : Type 0 where
    pub total :
        t.next_sequence
        ≡ 1 + length t.events + (t.evicted_events + (t.oversized_events + t.cleared_events))

  make_room-total :
      (size : ℕ) (es : List (TraceEvent P)) (bytes evicted : ℕ)
      → evicted + length es ≤ max_u64
      → length (make_room serialized_len size es bytes evicted).0
          + (make_room serialized_len size es bytes evicted).1.1
        ≡ length es + evicted
  unfolding make_room
  make_room-total size [] bytes evicted h = refl
  make_room-total size (e ∷ es) bytes evicted h =
      let more : saturating_add evicted 1 ≡ evicted + 1 = ground (arith, h) in
      let rest =
        make_room-total size es (bytes - serialized_len e) (saturating_add evicted 1)
          (omega (arith, h, more)) in
      elim (Bool-cases
        (leb max_trace_events (length (e ∷ es)) || ltb max_trace_bytes (bytes + size))) [
          | inl full ↦ rw full (omega (arith, rest, more))
          | inr room ↦ rw room refl
        ]

  append_event-Accounted :
      (e : TraceEvent P) (t : TraceLog P)
      → t.next_sequence ≤ max_u64
      → t.next_sequence
        ≡ 2 + length t.events + (t.evicted_events + (t.oversized_events + t.cleared_events))
      → Accounted (append_event serialized_len e t)
  unfolding append_event push_event
  append_event-Accounted e t m h =
      elim (Bool-cases
        (ltb max_trace_event_bytes (serialized_len e) || ltb max_trace_bytes (serialized_len e))) [
          | inl large ↦
              let more : saturating_add t.oversized_events 1 ≡ t.oversized_events + 1 =
                ground (arith, m, h) in
              rw (append_event, large) (record { total = omega (arith, h, more) })
          | inr fits ↦
              let kept =
                (make_room serialized_len (serialized_len e) t.events t.retained_bytes
                  t.evicted_events).0 in
              let room =
                make_room-total (serialized_len e) t.events t.retained_bytes t.evicted_events
                  (omega (arith, m, h)) in
              rw (append_event, fits)
                (record { total = omega (arith, h, room, length-append kept (e ∷ [])) })
        ]

  append_event-next :
      (e : TraceEvent P) (t : TraceLog P)
      → (append_event serialized_len e t).next_sequence ≡ t.next_sequence
  unfolding append_event push_event
  append_event-next e t =
      elim (Bool-cases
        (ltb max_trace_event_bytes (serialized_len e) || ltb max_trace_bytes (serialized_len e))) [
          | inl large ↦ rw (append_event, large) refl
          | inr fits ↦ rw (append_event, fits) refl
        ]

  -- The next number does not go down.
  call-next :
      (t : TraceLog P) (c : Call serialized_len)
      → t.next_sequence ≤ max_u64
      → (t.next_sequence ≤ (call serialized_len t c).next_sequence)
        × ((call serialized_len t c).next_sequence ≤ max_u64)
  unfolding call set_enabled append clear
  call-next t (enable b) h = (omega arith, h)
  call-next t clear_all h = (omega arith, h)
  call-next t (record_action action content) h =
      elim (Bool-cases (not t.enabled || not (is_traceable_action action))) [
        | inl off ↦ rw (append, off) (omega arith, h)
        | inr on ↦
            let same =
              append_event-next
                (record { sequence = t.next_sequence; action = action; content = content })
                (record t { next_sequence = saturating_add t.next_sequence 1 }) in
            rw (append, on, same) (saturating_add-le t.next_sequence 1 h)
      ]

  call-Accounted :
      (t : TraceLog P) (c : Call serialized_len)
      → (call serialized_len t c).next_sequence < max_u64
      → Accounted t
      → Accounted (call serialized_len t c)
  unfolding call set_enabled append clear
  call-Accounted t (enable b) m a = record { total = a.total }
  call-Accounted t clear_all m a =
      let more : saturating_add t.cleared_events (length t.events)
          ≡ t.cleared_events + length t.events =
        ground (arith, m, a.total) in
      record { total = omega (arith, a.total, more) }
  call-Accounted t (record_action action content) m a =
      elim (Bool-cases (not t.enabled || not (is_traceable_action action))) [
        | inl off ↦ rw (append, off) a
        | inr on ↦
            let e : TraceEvent P = record {
              sequence = t.next_sequence;
              action = action;
              content = content;
            } in
            let t' : TraceLog P = record t { next_sequence = saturating_add t.next_sequence 1 } in
            let unsaturated : (append_event serialized_len e t').next_sequence < max_u64 =
              rw (append, on) at m in
            let same = append_event-next e t' in
            let more : saturating_add t.next_sequence 1 ≡ t.next_sequence + 1 =
              saturating_add-lt t.next_sequence 1 (omega (arith, unsaturated, same)) in
            rw (append, on)
              (append_event-Accounted e t' (omega (arith, unsaturated, same))
                (omega (arith, more, a.total)))
      ]

  run-next :
      (t : TraceLog P) (cs : List (Call serialized_len))
      → t.next_sequence ≤ max_u64
      → t.next_sequence ≤ (run serialized_len t cs).next_sequence
  unfolding run
  run-next t [] h = omega arith
  run-next t (c ∷ cs) h =
      let (up, bound) = call-next t c h in
      omega (arith, up, run-next (call serialized_len t c) cs bound)

  run_from-Accounted :
      (t : TraceLog P) (cs : List (Call serialized_len))
      → t.next_sequence ≤ max_u64
      → (run serialized_len t cs).next_sequence < max_u64
      → Accounted t
      → Accounted (run serialized_len t cs)
  unfolding run
  run_from-Accounted t [] b m a = a
  run_from-Accounted t (c ∷ cs) b m a =
      let (up, bound) = call-next t c b in
      run_from-Accounted (call serialized_len t c) cs bound m
        (call-Accounted t c (omega (arith, m, run-next (call serialized_len t c) cs bound)) a)

  -- After any sequence of calls, while the counter of 64 bits has not reached its maximum, the number of
  -- the next event is one more than the events that are held, evicted, oversized and cleared together.
  pub run_log-Accounted :
      (cs : List (Call serialized_len))
      → (run serialized_len new_log cs).next_sequence < max_u64
      → Accounted (run serialized_len new_log cs)
  unfolding new_log
  run_log-Accounted cs m = run_from-Accounted new_log cs (omega arith) m (record { total = refl })
