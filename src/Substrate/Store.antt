-- ===== src/Substrate/Store.antt =====
-- `StateStore` of src/event_service_substrate/store.py. `p` holds the external functions, `a` is
-- the store's recovery authority. The two rows of `runtime_state` are the fields `fake_tick` and
-- `intake_state`. A method that writes returns the new store; one that raises has written nothing,
-- but for the body of the transaction in `restore_snapshot` (Recovery). Proofs are in the modules
-- below.
pub mod Audit
pub mod Keys
use frontier_long_horizon_en.Prelude.{
  ℕ, ◌+◌, String, Bool, true, false, not, Option, none, some, List, [], ◌∷◌, ◌++◌, map, ltb, nat_eq,
  ◌==◌, if◌then◌else◌, last?, Result, ok, err,
}
use frontier_long_horizon_en.Substrate.Errors.{Error, runtime_error, integrity_error}
use frontier_long_horizon_en.Substrate.Tables.{
  Service, DeploymentRow, AuditRow, SnapshotRow, ProofRow, TelemetryRow, SpanRow,
}
use frontier_long_horizon_en.Substrate.Canonical.{
  Primitives, AuditFields, SnapshotFields, digest, audit_fields, service_tables, journal_table,
  effects_table, deployments_table, runtime_table, telemetry_table, audit_table, snapshots_table,
}
use frontier_long_horizon_en.Substrate.Authority.{
  RecoveryAuthority, snapshot_tag, snapshot_tag_is_valid,
}

pub record Store : Type 0 where
  pub service : Service
  pub snapshots : List SnapshotRow
  pub proofs : List ProofRow
  pub deployments : List DeploymentRow
  pub audit_chain : List AuditRow
  pub fake_tick : ℕ
  pub intake_state : String
  pub telemetry : List TelemetryRow
  pub trace_spans : List SpanRow

-- `initialize`: the empty tables, with the rows that it inserts.
abbrev pub initialize : Store
initialize = record {
  service = record {
    journal = [];
    committed_seq = 0;
    effects = [];
    intents = [];
    event_marks = [];
    command_keys = [];
  };
  snapshots = [];
  proofs = [];
  deployments = [];
  audit_chain = [];
  fake_tick = 40;
  intake_state = "open";
  telemetry = [];
  trace_spans = [];
}

-- `COALESCE(MAX(seq), 0)` over a table.
unfoldable pub max_seq {ℓ} : {A : Type ℓ} → (A → ℕ) → List A → ℕ
max_seq key [] = 0
max_seq key (r ∷ rs) = let m = max_seq key rs in if ltb m (key r) then key r else m

-- `advance()`: every caller uses the default of one transition.
unfoldable pub advance : Store → Store
advance s = record s { fake_tick = s.fake_tick + 1 }

unfoldable pub set_intake_state : String → Store → Store
set_intake_state value s = record s { intake_state = value }

unfoldable pub append_telemetry : ℕ → String → String → Store → Store
unfolding max_seq
append_telemetry tick channel message s =
    let row : TelemetryRow = record {
      seq = max_seq (λ r. r.seq) s.telemetry + 1;
      tick = tick;
      channel = channel;
      message = message;
    } in
    record s { telemetry = s.telemetry ++ row ∷ [] }

-- The span's own number is computed here, whatever `span.seq` says.
unfoldable pub append_trace_span : SpanRow → Store → Store
unfolding max_seq
append_trace_span span s =
    let row : SpanRow = record span { seq = max_seq (λ r. r.seq) s.trace_spans + 1 } in
    record s { trace_spans = s.trace_spans ++ row ∷ [] }

-- The first row with the key.
unfoldable pub find_snapshot : String → List SnapshotRow → Option SnapshotRow
find_snapshot i [] = none
find_snapshot i (r ∷ rs) = if r.snapshot_id == i then some r else find_snapshot i rs

unfoldable pub find_audit : ℕ → List AuditRow → Option AuditRow
find_audit n [] = none
find_audit n (r ∷ rs) = if nat_eq r.seq n then some r else find_audit n rs

-- The rows with `seq < n`, which the source asks for as `seq <= n - 1`.
unfoldable pub audit_before : ℕ → List AuditRow → List AuditRow
audit_before n [] = []
audit_before n (r ∷ rs) = let rest = audit_before n rs in if ltb r.seq n then r ∷ rest else rest

-- The dictionary that is hashed for a row.
abbrev pub fields_of : AuditRow → AuditFields
fields_of r = record {
  seq = r.seq;
  action_kind = r.action_kind;
  prior_root = r.prior_root;
  resulting_root = r.resulting_root;
  actor = r.actor;
  at_tick = r.at_tick;
}

abbrev pub semantic_fields : SnapshotRow → SnapshotFields
semantic_fields r = record {
  snapshot_id = r.snapshot_id;
  state_root = r.state_root;
  cursor_seq = r.cursor_seq;
  journal_root = r.journal_root;
  effect_root = r.effect_root;
  payload = r.payload;
  created_tick = r.created_tick;
}

module _ (p : Primitives) where
  unfoldable pub genesis : String
  genesis = digest p "audit-genesis-v1" []

  unfoldable pub entry_hash_of : AuditRow → String
  entry_hash_of r = digest p "audit-entry-v1" (p.canonical_json (audit_fields (fields_of r)))

  -- The root of the service tables alone.
  unfoldable pub service_root : Service → String
  service_root v =
      digest p "service-state-v1" (p.canonical_json (service_tables (p.order_service v)))

  unfoldable pub state_root : Store → String
  unfolding service_root
  state_root s = service_root s.service

  unfoldable pub deployment_root : Store → String
  deployment_root s =
      digest p "deployment-state-v1"
        (p.canonical_json (deployments_table (p.order_deployments s.deployments)))

  unfoldable pub runtime_root : Store → String
  runtime_root s =
      digest p "runtime-state-v1" (p.canonical_json (runtime_table s.fake_tick s.intake_state))

  unfoldable pub telemetry_root : Store → String
  telemetry_root s = digest p "telemetry-v1" (p.canonical_json (telemetry_table s.telemetry))

  unfoldable pub audit_root_of : List AuditRow → String
  audit_root_of rows = digest p "audit-v1" (p.canonical_json (audit_table rows))

  unfoldable pub audit_root : Store → String
  unfolding audit_root_of
  audit_root s = audit_root_of s.audit_chain

  -- `_audit_root_through(n - 1)`
  unfoldable pub audit_root_before : ℕ → Store → String
  unfolding audit_root_of audit_before
  audit_root_before n s = audit_root_of (audit_before n s.audit_chain)

  unfoldable pub snapshot_root : Store → String
  snapshot_root s =
      digest p "snapshot-semantics-v1"
        (p.canonical_json (snapshots_table (map semantic_fields (p.order_snapshots s.snapshots))))

  -- The hash that the next entry has to cite.
  unfoldable pub prior_of : List AuditRow → String
  unfolding genesis
  prior_of rows = elim (last? rows) [ none ↦ genesis | some r ↦ r.entry_hash ]

  -- The row that `append_audit` inserts.
  unfoldable pub next_entry : List AuditRow → String → String → String → ℕ → AuditRow
  unfolding prior_of max_seq entry_hash_of
  next_entry rows action_kind resulting_root actor at_tick =
      let bare : AuditRow = record {
        seq = max_seq (λ r. r.seq) rows + 1;
        action_kind = action_kind;
        prior_root = prior_of rows;
        resulting_root = resulting_root;
        actor = actor;
        entry_hash = "";
        at_tick = at_tick;
      } in
      record bare { entry_hash = entry_hash_of bare }

  unfoldable pub append_audit : String → String → String → ℕ → Store → Store
  append_audit action_kind resulting_root actor at_tick s = record s {
    audit_chain =
        s.audit_chain ++ next_entry s.audit_chain action_kind resulting_root actor at_tick ∷ [];
  }

  -- The loop of `audit_chain_valid`.
  audit_loop : String → List AuditRow → Bool
  audit_loop expected_prior [] = true
  audit_loop expected_prior (r ∷ rows) =
      let rest = audit_loop r.entry_hash rows in
      if not (r.prior_root == expected_prior)
      then false
      else if not (r.entry_hash == entry_hash_of r)
      then false
      else rest

  unfoldable pub audit_chain_valid : Store → Bool
  unfolding audit_loop genesis
  audit_chain_valid s = audit_loop genesis s.audit_chain

module _ (p : Primitives) (a : RecoveryAuthority) where
  -- The row that `create_snapshot` inserts.
  unfoldable pub snapshot_row : String → Store → SnapshotRow
  unfolding service_root
  snapshot_row snapshot_id s =
      let payload = p.canonical_json (service_tables (p.order_service s.service)) in
      let root = digest p "service-state-v1" payload in
      record {
        snapshot_id = snapshot_id;
        state_root = root;
        cursor_seq = s.service.committed_seq;
        journal_root =
            digest p "journal-v1"
              (p.canonical_json (journal_table (p.order_service s.service).journal));
        effect_root =
            digest p "effects-v1"
              (p.canonical_json (effects_table (p.order_service s.service).effects));
        payload = payload;
        auth_tag = snapshot_tag p a snapshot_id root payload s.fake_tick;
        created_tick = s.fake_tick;
      }

  unfoldable pub create_snapshot : String → Store → Result Error String × Store
  unfolding snapshot_row find_snapshot
  create_snapshot snapshot_id s = elim (find_snapshot snapshot_id s.snapshots) [
    | some _ ↦ (err integrity_error, s)
    | none ↦
        let row = snapshot_row snapshot_id s in
        (
          ok row.state_root,
          append_audit p "snapshot_create" row.state_root "controller" s.fake_tick
              (record s { snapshots = s.snapshots ++ row ∷ [] }),
        )
  ]

  unfoldable pub snapshot_is_valid : String → Store → Bool
  unfolding find_snapshot
  snapshot_is_valid snapshot_id s = elim (find_snapshot snapshot_id s.snapshots) [
    | none ↦ false
    | some r ↦
        if not (r.state_root == digest p "service-state-v1" r.payload)
        then false
        else snapshot_tag_is_valid p a snapshot_id r.state_root r.payload r.created_tick r.auth_tag
  ]

  unfoldable pub pause_intake : Store → Result Error ℕ × Store
  pause_intake s =
      if not (s.intake_state == "open")
      then (err (runtime_error "intake is not open"), s)
      else let paused = set_intake_state "paused" (advance s) in
        (
          ok paused.fake_tick,
          append_telemetry paused.fake_tick "control" "intake paused" (
              append_audit p "intake_pause" (state_root p paused) "operator" paused.fake_tick
                paused),
        )
