-- ===== src/Agent/Methods.antt =====
-- The methods of `RuntimeStore` (src/agent_surface/runtime.py), each with all that it writes: the
-- clock, the tables, the trace spans, the selectors and the control log.
use Prim.Native.String.{◌++◌ as append_text}
use frontier_long_horizon_en.Prelude.{
  ℕ, ◌+◌, String, Bool, true, false, not, ◌&&◌, Option, none, some, List, [], ◌∷◌, ◌++◌, nat_eq,
  ◌==◌, if◌then◌else◌, take_text, lookup, insert, ok, err,
}
use frontier_long_horizon_en.Prelude.Exec.{pure, raise, gets, modify}
use frontier_long_horizon_en.Substrate.Tables.{JournalRow, EffectRow, Service, SpanRow}
use frontier_long_horizon_en.Substrate.Canonical.{
  Primitives, digest, event_key, effect_key, intent_key, span_key, command_payload,
}
use frontier_long_horizon_en.Substrate.Store.{max_seq, advance, append_telemetry, append_trace_span}
use frontier_long_horizon_en.Agent.Runtime.{
  Command, Event, tool_error, cutpoint_stop, transient_failure, integrity_error, Selector, Run, M,
  ◌>>=◌, ◌>>◌, find_command, find_event, find_seq, earliest, effects_of, effects_by_key,
  effect_id_of, event_id_of, has_effect, replace_key, logical_key, effect_amount,
}

-- `_advance`: the new tick.
unfoldable pub advance_run : M ℕ
unfolding advance
advance_run r = let s = advance r.store in (ok s.fake_tick, record r { store = s })

abbrev pub set_service : (Service → Service) → Run → Run
set_service f r = record r { store = record r.store { service = f r.store.service } }

abbrev pub update_service : (Service → Service) → M (Unit {0})
update_service f = modify (set_service f)

abbrev pub service_of : Run → Service
service_of r = r.store.service

-- `_control` and `_log`
unfoldable pub control : String → M (Unit {0})
unfolding append_telemetry
control message r =
    (ok tt, record r { store = append_telemetry r.store.fake_tick "control" message r.store })

unfoldable pub log_line : String → M (Unit {0})
unfolding append_telemetry advance
log_line message r =
    let s = advance r.store in
    (ok tt, record r { store = append_telemetry s.fake_tick "public" message s })

-- The number of the attempt, from the counter of the event.
abbrev pub attempt_of : Option ℕ → ℕ
attempt_of none = 1
attempt_of (some n) = n + 1

module _ (p : Primitives) where
  span_of : String → Option String → Option String → Option String → Run → SpanRow
  span_of stage event_id command_key occurrence_id r = record {
    seq = 0;
    correlation_handle = r.handle;
    span_id = digest p "span-v1" (
        p.canonical_json
          (span_key r.handle stage event_id command_key occurrence_id r.store.fake_tick));
    parent_id = none;
    workload_id = some r.workload_id;
    alias = some r.alias;
    stage = stage;
    event_id = event_id;
    command_key = command_key;
    occurrence_id = occurrence_id;
    tick = r.store.fake_tick;
  }

  selectors_after : Option String → Option String → Option String → List Selector → List Selector
  selectors_after none k o l = l
  selectors_after (some i) k o l =
      l ++ record { event_id = i; command_key = k; occurrence_id = o } ∷ []

  -- `_append_trace`
  unfoldable pub append_trace :
      String → Option String → Option String → Option String → M (Unit {0})
  unfolding span_of selectors_after append_trace_span
  append_trace stage event_id command_key occurrence_id r = (
    ok tt,
    record r {
      store = append_trace_span (span_of stage event_id command_key occurrence_id r) r.store;
      selectors = selectors_after event_id command_key occurrence_id r.selectors;
    },
  )

  abbrev pub short_id : String → String → String
  short_id prefix root = append_text prefix (take_text 32 root)

  unfoldable pub new_event_id : String → String → ℕ → String → String
  new_event_id k o tick workload =
      short_id "evt_" (digest p "event-v1" (p.canonical_json (event_key k o tick workload)))

  unfoldable pub new_effect_id : String → String → String → ℕ → String → String
  new_effect_id i o k tick workload =
      short_id "efx_" (digest p "effect-v1" (p.canonical_json (effect_key i o k tick workload)))

  unfoldable pub new_intent_id : String → String → String → String → ℕ → String → String
  new_intent_id i k o l tick workload =
      short_id "int_" (digest p "intent-v1" (p.canonical_json (intent_key i k o l tick workload)))

  unfoldable pub payload_hash : Command → String
  payload_hash c =
      digest p "payload-v1"
        (p.canonical_json (command_payload c.command_key c.occurrence_id c.alias c.amount))

  -- `_reject_conflicting_payload`
  unfoldable pub conflicts : Command → List JournalRow → Bool
  unfolding find_command
  conflicts c journal = elim (find_command c.command_key c.occurrence_id journal) [
    | none ↦ false
    | some row ↦ not (row.payload_hash == payload_hash c)
  ]

  unfoldable pub reject_conflicting_payload : Command → M (Unit {0})
  unfolding conflicts
  reject_conflicting_payload c r =
      if conflicts c r.store.service.journal
      then (err (tool_error "conflicting payload"), r)
      else (ok tt, r)

  -- s1
  unfoldable pub prepare : Command → M Command
  unfolding advance_run append_trace
  prepare c = do advance_run; append_trace "s1" none (some c.command_key) none; pure c

  abbrev pub journal_row : Command → ℕ → Run → JournalRow
  journal_row c tick r = record {
    seq = max_seq (λ (q : JournalRow). q.seq) r.store.service.journal + 1;
    event_id = new_event_id c.command_key c.occurrence_id tick r.workload_id;
    command_key = c.command_key;
    occurrence_id = c.occurrence_id;
    payload_hash = payload_hash c;
    accepted_tick = tick;
  }

  abbrev is_some_event : Option JournalRow → Bool
  is_some_event none = false
  is_some_event (some _) = true

  -- The INSERT of `append`, under the UNIQUE constraint on the event id.
  unfoldable pub insert_journal : Command → ℕ → M String
  unfolding find_event max_seq
  insert_journal c tick r =
      let row = journal_row c tick r in
      if is_some_event (find_event row.event_id r.store.service.journal)
      then (err integrity_error, r)
      else (ok row.event_id, set_service (λ v. record v { journal = v.journal ++ row ∷ [] }) r)

  -- What follows a stage: the diagnostic cutpoint at the end of s2.
  unfoldable pub s2_cutpoint : Command → String → M String
  unfolding append_trace control
  s2_cutpoint c event_id r =
      if not r.s2_cutpoint_pending
      then (ok event_id, r)
      else (do
        modify (λ q. record q { s2_cutpoint_pending = false })
        append_trace "cutpoint" (some event_id) (some c.command_key) (some c.occurrence_id)
        control (append_text "s2.exit cutpoint for " c.command_key)
        modify (λ q. record q { cutpoint_triggered = true })
        raise (cutpoint_stop (some event_id) none))
          r

  -- s2
  unfoldable pub append : Command → M String
  unfolding advance_run reject_conflicting_payload insert_journal append_trace s2_cutpoint
  append c = do
    tick ← advance_run
    reject_conflicting_payload c
    event_id ← insert_journal c tick
    append_trace "s2" (some event_id) (some c.command_key) (some c.occurrence_id)
    s2_cutpoint c event_id

  -- s3
  unfoldable pub register : Command → String → M (Unit {0})
  unfolding advance_run reject_conflicting_payload append_trace replace_key
  register c event_id = do
    advance_run
    reject_conflicting_payload c
    update_service (λ v. record v {
      command_keys =
          replace_key
            (record {
              command_key = c.command_key;
              occurrence_id = c.occurrence_id;
              event_id = event_id;
              state = "registered";
            })
            v.command_keys;
    })
    append_trace "s3" (some event_id) (some c.command_key) (some c.occurrence_id)

  event_from : Option JournalRow → M Event
  event_from none = raise (tool_error "event not found")
  event_from (some row) = do
    append_trace "s4" (some row.event_id) (some row.command_key) (some row.occurrence_id)
    pure (record {
      event_id = row.event_id;
      command_key = row.command_key;
      occurrence_id = row.occurrence_id;
      payload_hash = row.payload_hash;
      accepted_tick = row.accepted_tick;
      logical_effect_key = none;
    })

  -- s4
  unfoldable pub load : String → M Event
  unfolding advance_run find_event event_from append_trace
  load event_id = do
    advance_run
    row ← gets (λ r. find_event event_id r.store.service.journal)
    event_from row

  abbrev pub effect_row : Event → ℕ → Run → EffectRow
  effect_row e tick r = record {
    effect_id = new_effect_id e.event_id e.occurrence_id (logical_key e) tick r.workload_id;
    occurrence_id = e.occurrence_id;
    amount = effect_amount;
    kind = "settlement";
    logical_effect_key = logical_key e;
    source_event_id = e.event_id;
    committed_tick = tick;
  }

  -- The INSERT of `settle`, under the primary key.
  unfoldable pub insert_effect : Event → ℕ → M String
  unfolding has_effect
  insert_effect e tick r =
      let row = effect_row e tick r in
      if has_effect row.effect_id r.store.service.effects
      then (err integrity_error, r)
      else (ok row.effect_id, set_service (λ v. record v { effects = v.effects ++ row ∷ [] }) r)

  unfoldable pub s5_cutpoint : Event → String → M String
  unfolding append_trace control
  s5_cutpoint e effect_id r =
      if not r.s5_cutpoint_pending
      then (ok effect_id, r)
      else (do
        modify (λ q. record q { s5_cutpoint_pending = false })
        append_trace "cutpoint" (some e.event_id) (some e.command_key) (some e.occurrence_id)
        control (append_text "s5.exit cutpoint for " e.event_id)
        modify (λ q. record q { cutpoint_triggered = true })
        raise (cutpoint_stop (some e.event_id) (some effect_id)))
          r

  -- The transient failure before the effect, on the first attempt.
  unfoldable pub transient_gate : Event → ℕ → M (Unit {0})
  unfolding append_trace control
  transient_gate e attempt r =
      if not (r.transient_pending && nat_eq attempt 1)
      then (ok tt, r)
      else (do
        modify (λ q. record q { transient_pending = false })
        append_trace "transient" (some e.event_id) (some e.command_key) (some e.occurrence_id)
        control (append_text "transient failure before effect for " e.event_id)
        raise transient_failure)
          r

  -- s5
  unfoldable pub settle : Event → M String
  unfolding advance_run transient_gate insert_effect append_trace s5_cutpoint
  settle e = do
    attempt ← gets (λ r. attempt_of (lookup e.event_id r.attempts))
    modify (λ r. record r { attempts = insert e.event_id attempt r.attempts })
    tick ← advance_run
    transient_gate e attempt
    effect_id ← insert_effect e tick
    append_trace "s5" (some e.event_id) (some e.command_key) (some e.occurrence_id)
    s5_cutpoint e effect_id

  trace_s6 : Option JournalRow → M (Unit {0})
  trace_s6 none = append_trace "s6" none none none
  trace_s6 (some row) =
      append_trace "s6" (some row.event_id) (some row.command_key) (some row.occurrence_id)

  -- s6: `advance` of the cursor.
  unfoldable pub advance_cursor : ℕ → M (Unit {0})
  unfolding advance_run trace_s6 find_seq append_trace
  advance_cursor sequence = do
    advance_run
    update_service (λ v. record v { committed_seq = sequence })
    row ← gets (λ r. find_seq sequence r.store.service.journal)
    trace_s6 row

  unfoldable pub restart : M (Unit {0})
  unfolding advance_run append_trace control
  restart = do
    modify (λ r. record r { attempts = [] })
    advance_run
    append_trace "restart" none none none
    control "restart"

-- The read-only helpers.
unfoldable pub get_event_id : String → String → M (Option String)
unfolding find_command
get_event_id k o = gets (λ r. event_id_of (find_command k o r.store.service.journal))

unfoldable pub effect_exists : String → M (Option String)
unfolding effects_of earliest
effect_exists i = gets (λ r. effect_id_of (earliest (effects_of i r.store.service.effects)))

unfoldable pub effect_by_key : String → String → M (Option String)
unfolding effects_by_key earliest
effect_by_key i k = gets (λ r. effect_id_of (earliest (effects_by_key i k r.store.service.effects)))
