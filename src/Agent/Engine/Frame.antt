-- ===== src/Agent/Engine/Frame.antt =====
-- What no stage of a flow writes (`RuntimeStore` of src/agent_surface/runtime.py): the snapshots, the
-- recovery proofs, the deployments, the audit chain and the state of the intake.
use frontier_long_horizon_en.Prelude.{
  ℕ, String, ◌≡◌, refl, ◌==◌, Bool-cases, inl, inr, Option, none, some, List, arith,
}
use frontier_long_horizon_en.Prelude.Exec.{pure}
use frontier_long_horizon_en.Substrate.Tables.{
  SnapshotRow, ProofRow, DeploymentRow, AuditRow, IntentRow,
}
use frontier_long_horizon_en.Substrate.Store.{Store}
use frontier_long_horizon_en.Substrate.Canonical.{Primitives}
use frontier_long_horizon_en.Agent.Runtime.{Command, Event, Run, M, ◌>>=◌, logical_key}
use frontier_long_horizon_en.Agent.Methods.{
  prepare, append, register, load, settle, advance_cursor, restart, log_line, get_event_id,
  effect_by_key, effect_exists,
}
use frontier_long_horizon_en.Agent.Flow.{
  Flow, or_else, template_flow, identity_s2, identity_s5, logical_identity_flow, broad_s5,
  broad_event_dedup_flow, intent_outbox_flow, outbox_settle, outbox_without, outbox_close,
  outbox_s5_from, outbox_s5,
}
use frontier_long_horizon_en.Agent.Intents.{intent_create, intent_complete, get_intent}
use frontier_long_horizon_en.Agent.Engine.Kept.{After-bind, Keeps, KeptBy}

pub record Outside : Type 0 where
  pub snapshots : List SnapshotRow
  pub proofs : List ProofRow
  pub deployments : List DeploymentRow
  pub audit_chain : List AuditRow
  pub intake_state : String

abbrev pub outside : Store → Outside
outside s = record {
  snapshots = s.snapshots;
  proofs = s.proofs;
  deployments = s.deployments;
  audit_chain = s.audit_chain;
  intake_state = s.intake_state;
}

module _ (o : Outside) where
  abbrev pub Frames : Run → Type 0
  Frames r = outside r.store ≡ o

  module _ (p : Primitives) where
    prepare-Frames : (c : Command) → Keeps Frames (prepare p c)
    unfolding prepare
    prepare-Frames c = record { at = λ r h. ground (arith, h) }

    append-Frames : (c : Command) → Keeps Frames (append p c)
    unfolding append
    append-Frames c = record { at = λ r h. ground (arith, h) }

    settle-Frames : (e : Event) → Keeps Frames (settle p e)
    unfolding settle
    settle-Frames e = record { at = λ r h. ground (arith, h) }

    restart-Frames : Keeps Frames (restart p)
    unfolding restart
    restart-Frames = record { at = λ r h. ground (arith, h) }

    register-Frames : (c : Command) (i : String) → Keeps Frames (register p c i)
    unfolding register
    register-Frames c i = record { at = λ r h. ground (arith, h) }

    load-Frames : (i : String) → Keeps Frames (load p i)
    unfolding load
    load-Frames i = record { at = λ r h. ground (arith, h) }

    cursor-Frames : (n : ℕ) → Keeps Frames (advance_cursor p n)
    unfolding advance_cursor
    cursor-Frames n = record { at = λ r h. ground (arith, h) }

    log-Frames : (line : String) → Keeps Frames (log_line line)
    unfolding log_line
    log-Frames line = record { at = λ r h. h }

    pure-Frames : {A : Type 0} (x : A) → Keeps Frames (pure x)
    pure-Frames x = record { at = λ r h. h }

    or_else-Frames :
        (o : Option String) (m : M String) → Keeps Frames m → Keeps Frames (or_else o m)
    or_else-Frames none m km = km
    or_else-Frames (some i) m km = elim (Bool-cases (i == "")) [
      | inl e ↦ rw e km
      | inr e ↦ rw e (pure-Frames i)
    ]

    found-Frames : (k o : String) → Keeps Frames (get_event_id k o)
    unfolding get_event_id
    found-Frames k o = record { at = λ r h. h }

    settled-Frames : (i k : String) → Keeps Frames (effect_by_key i k)
    unfolding effect_by_key
    settled-Frames i k = record { at = λ r h. h }

    existing-Frames : (i : String) → Keeps Frames (effect_exists i)
    unfolding effect_exists
    existing-Frames i = record { at = λ r h. h }

    bind-Frames :
        {A B : Type 0} (m : M A) (k : A → M B)
        → Keeps Frames m
        → ((x : A) → Keeps Frames (k x))
        → Keeps Frames (m >>= k)
    bind-Frames m k km = After-bind Frames Frames Frames m k km (λ r h. h)

    identity_s2-Frames : (c : Command) → Keeps Frames (identity_s2 p c)
    unfolding identity_s2
    identity_s2-Frames c =
        bind-Frames _ _ (found-Frames c.command_key c.occurrence_id)
          (λ existing. or_else-Frames existing (append p c) (append-Frames c))

    identity_s5-Frames : (e : Event) → Keeps Frames (identity_s5 p e)
    unfolding identity_s5
    identity_s5-Frames e =
        bind-Frames _ _ (settled-Frames e.event_id (logical_key e))
          (λ existing. or_else-Frames existing (settle p e) (settle-Frames e))

    broad_s5-Frames : (e : Event) → Keeps Frames (broad_s5 p e)
    unfolding broad_s5
    broad_s5-Frames e =
        bind-Frames _ _ (existing-Frames e.event_id)
          (λ existing. or_else-Frames existing (settle p e) (settle-Frames e))

    -- A flow that prepares, registers, loads and advances by the store's own methods.
    standard-Frames :
        (f : Flow)
        → f.s1 ≡ prepare p
        → f.s3 ≡ register p
        → f.s4 ≡ load p
        → f.s6 ≡ advance_cursor p
        → ((c : Command) → Keeps Frames (f.s2 c))
        → ((e : Event) → Keeps Frames (f.s5 e))
        → KeptBy Frames p f
    standard-Frames f e1 e3 e4 e6 k2 k5 = record {
      k1 = λ c. rw e1 (prepare-Frames c);
      k2 = k2;
      k3 = λ c i. rw e3 (register-Frames c i);
      k4 = λ i. rw e4 (load-Frames i);
      k5 = k5;
      k6 = λ n. rw e6 (cursor-Frames n);
      log = log-Frames;
      restarts = restart-Frames;
      loads = load-Frames;
    }

    pub template_flow-Frames : KeptBy Frames p (template_flow p)
    unfolding template_flow
    template_flow-Frames =
        standard-Frames (template_flow p) refl refl refl refl append-Frames settle-Frames

    pub logical_identity_flow-Frames : KeptBy Frames p (logical_identity_flow p)
    unfolding logical_identity_flow
    logical_identity_flow-Frames =
        standard-Frames (logical_identity_flow p) refl refl refl refl identity_s2-Frames
          identity_s5-Frames

    pub broad_event_dedup_flow-Frames : KeptBy Frames p (broad_event_dedup_flow p)
    unfolding broad_event_dedup_flow
    broad_event_dedup_flow-Frames =
        standard-Frames (broad_event_dedup_flow p) refl refl refl refl identity_s2-Frames
          broad_s5-Frames

    intent_create-Frames : (i k o l : String) → Keeps Frames (intent_create p i k o l)
    unfolding intent_create
    intent_create-Frames i k o l = record { at = λ r h. ground (arith, h) }

    intent_complete-Frames : (i e : String) → Keeps Frames (intent_complete i e)
    unfolding intent_complete
    intent_complete-Frames i e = record { at = λ r h. ground (arith, h) }

    get_intent-Frames : (i k : String) → Keeps Frames (get_intent i k)
    unfolding get_intent
    get_intent-Frames i k = record { at = λ r h. h }

    outbox_settle-Frames : (e : Event) (i : String) → Keeps Frames (outbox_settle p e i)
    unfolding outbox_settle
    outbox_settle-Frames e i =
        bind-Frames _ _ (settle-Frames e)
          (λ x. bind-Frames _ _ (intent_complete-Frames i x) (λ _. pure-Frames x))

    outbox_without-Frames : (e : Event) (o : Option IntentRow) → Keeps Frames (outbox_without p e o)
    unfolding outbox_without
    outbox_without-Frames e none =
        bind-Frames _ _
          (intent_create-Frames e.event_id e.command_key e.occurrence_id (logical_key e))
          (outbox_settle-Frames e)
    outbox_without-Frames e (some intent) = elim (Bool-cases (intent.state == "completed")) [
      | inl d ↦ rw d (or_else-Frames intent.effect_id _ (outbox_settle-Frames e intent.intent_id))
      | inr d ↦ rw d (outbox_settle-Frames e intent.intent_id)
    ]

    outbox_close-Frames : (i : String) (o : Option IntentRow) → Keeps Frames (outbox_close p i o)
    unfolding outbox_close
    outbox_close-Frames i none = pure-Frames i
    outbox_close-Frames i (some intent) = elim (Bool-cases (intent.state == "completed")) [
      | inl d ↦ rw d (pure-Frames i)
      | inr d ↦
          rw d (bind-Frames _ _ (intent_complete-Frames intent.intent_id i) (λ _. pure-Frames i))
    ]

    outbox_s5_from-Frames :
        (e : Event) (o : Option IntentRow) (x : Option String)
        → Keeps Frames (outbox_s5_from p e o x)
    unfolding outbox_s5_from
    outbox_s5_from-Frames e o none = outbox_without-Frames e o
    outbox_s5_from-Frames e o (some i) = elim (Bool-cases (i == "")) [
      | inl d ↦ rw d (outbox_without-Frames e o)
      | inr d ↦ rw d (outbox_close-Frames i o)
    ]

    outbox_s5-Frames : (e : Event) → Keeps Frames (outbox_s5 p e)
    unfolding outbox_s5
    outbox_s5-Frames e = bind-Frames _ _ (settled-Frames e.event_id (logical_key e)) (λ x.
        bind-Frames _ _ (get_intent-Frames e.event_id (logical_key e))
          (λ o. outbox_s5_from-Frames e o x))

    pub intent_outbox_flow-Frames : KeptBy Frames p (intent_outbox_flow p)
    unfolding intent_outbox_flow
    intent_outbox_flow-Frames =
        standard-Frames (intent_outbox_flow p) refl refl refl refl identity_s2-Frames
          outbox_s5-Frames
