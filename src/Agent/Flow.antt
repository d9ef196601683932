-- ===== src/Agent/Flow.antt =====
-- The service's stages, src/event_service_substrate/public_template/service/flow.py and runtime.py,
-- and the repaired stages of src/training_ground/policies.py.
use frontier_long_horizon_en.Prelude.{ℕ, String, Option, none, some, ◌==◌, if◌then◌else◌}
use frontier_long_horizon_en.Prelude.Exec.{pure}
use frontier_long_horizon_en.Substrate.Tables.{IntentRow}
use frontier_long_horizon_en.Substrate.Canonical.{Primitives}
use frontier_long_horizon_en.Agent.Runtime.{Command, Event, M, ◌>>=◌, ◌>>◌, logical_key}
use frontier_long_horizon_en.Agent.Methods.{
  prepare, append, register, load, settle, advance_cursor, get_event_id, effect_exists,
  effect_by_key,
}
use frontier_long_horizon_en.Agent.Intents.{intent_create, intent_complete, get_intent}

-- A module `service.flow`.
pub record Flow : Type 0 where
  pub s1 : Command → M Command
  pub s2 : Command → M String
  pub s3 : Command → String → M (Unit {0})
  pub s4 : String → M Event
  pub s5 : Event → M String
  pub s6 : ℕ → M (Unit {0})

-- `service.runtime.accept` and `deliver`
unfoldable pub accept : Flow → Command → M String
accept f command = do
  prepared ← f.s1 command
  event_id ← f.s2 prepared
  f.s3 prepared event_id
  pure event_id

unfoldable pub deliver : Flow → String → ℕ → M String
deliver f event_id sequence = do
  event ← f.s4 event_id
  effect_id ← f.s5 event
  f.s6 sequence
  pure effect_id

-- `existing if existing else …`: a missing or an empty text is false.
abbrev pub or_else : Option String → M String → M String
or_else none m = m
or_else (some i) m = if i == "" then m else pure i

module _ (p : Primitives) where
  -- The baseline of the template.
  unfoldable pub template_flow : Flow
  template_flow = record {
    s1 = prepare p;
    s2 = append p;
    s3 = register p;
    s4 = load p;
    s5 = settle p;
    s6 = advance_cursor p;
  }

  -- `LOGICAL_IDENTITY_FLOW`: s2 by command and occurrence, s5 by event and logical key.
  unfoldable pub identity_s2 : Command → M String
  identity_s2 command = do
    existing ← get_event_id command.command_key command.occurrence_id
    or_else existing (append p command)

  unfoldable pub identity_s5 : Event → M String
  identity_s5 event = do
    existing ← effect_by_key event.event_id (logical_key event)
    or_else existing (settle p event)

  unfoldable pub logical_identity_flow : Flow
  unfolding identity_s2 identity_s5
  logical_identity_flow = record {
    s1 = prepare p;
    s2 = identity_s2;
    s3 = register p;
    s4 = load p;
    s5 = identity_s5;
    s6 = advance_cursor p;
  }

  -- `BROAD_EVENT_DEDUP_FLOW`: s5 by the event alone.
  unfoldable pub broad_s5 : Event → M String
  broad_s5 event = do existing ← effect_exists event.event_id; or_else existing (settle p event)

  unfoldable pub broad_event_dedup_flow : Flow
  unfolding identity_s2 broad_s5
  broad_event_dedup_flow = record {
    s1 = prepare p;
    s2 = identity_s2;
    s3 = register p;
    s4 = load p;
    s5 = broad_s5;
    s6 = advance_cursor p;
  }

  -- `INTENT_OUTBOX_FLOW`
  unfoldable pub outbox_settle : Event → String → M String
  outbox_settle event intent_id = do
    effect_id ← settle p event
    intent_complete intent_id effect_id
    pure effect_id

  -- Without an effect: a completed intent with its effect, an open one, or none yet.
  unfoldable pub outbox_without : Event → Option IntentRow → M String
  unfolding outbox_settle
  outbox_without event none = do
    intent_id ←
        intent_create p event.event_id event.command_key event.occurrence_id (logical_key event)
    outbox_settle event intent_id
  outbox_without event (some intent) =
      if intent.state == "completed"
      then or_else intent.effect_id (outbox_settle event intent.intent_id)
      else outbox_settle event intent.intent_id

  unfoldable pub outbox_close : String → Option IntentRow → M String
  outbox_close existing none = pure existing
  outbox_close existing (some intent) =
      if intent.state == "completed"
      then pure existing
      else (do intent_complete intent.intent_id existing; pure existing)

  unfoldable pub outbox_s5_from : Event → Option IntentRow → Option String → M String
  unfolding outbox_without outbox_close
  outbox_s5_from event intent none = outbox_without event intent
  outbox_s5_from event intent (some i) =
      if i == "" then outbox_without event intent else outbox_close i intent

  unfoldable pub outbox_s5 : Event → M String
  unfolding outbox_s5_from
  outbox_s5 event = do
    existing ← effect_by_key event.event_id (logical_key event)
    intent ← get_intent event.event_id (logical_key event)
    outbox_s5_from event intent existing

  unfoldable pub intent_outbox_flow : Flow
  unfolding identity_s2 outbox_s5
  intent_outbox_flow = record {
    s1 = prepare p;
    s2 = identity_s2;
    s3 = register p;
    s4 = load p;
    s5 = outbox_s5;
    s6 = advance_cursor p;
  }

-- The flows of the repository: the template's, and those of the policies.
pub data Policy : Type 0 where
  baseline logical_identity broad_event_dedup intent_outbox : Policy

unfoldable pub flow_of : Primitives → Policy → Flow
unfolding template_flow logical_identity_flow broad_event_dedup_flow intent_outbox_flow
flow_of p baseline = template_flow p
flow_of p logical_identity = logical_identity_flow p
flow_of p broad_event_dedup = broad_event_dedup_flow p
flow_of p intent_outbox = intent_outbox_flow p
