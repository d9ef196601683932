-- ===== src/Substrate/Tables.antt =====
-- The tables of src/event_service_substrate/store.py (`SCHEMA`), a record for each kind of row. A
-- table is the list of its rows in the order of insertion, which for the tables with a counted key
-- is the order of the key; bytes are lists of numbers.
use frontier_long_horizon_en.Prelude.{ℕ, String, List, Option}

pub record JournalRow : Type 0 where
  pub seq : ℕ
  pub event_id : String
  pub command_key : String
  pub occurrence_id : String
  pub payload_hash : String
  pub accepted_tick : ℕ

pub record EffectRow : Type 0 where
  pub effect_id : String
  pub occurrence_id : String
  pub amount : ℕ
  pub kind : String
  pub logical_effect_key : String
  pub source_event_id : String
  pub committed_tick : ℕ

pub record IntentRow : Type 0 where
  pub intent_id : String
  pub source_event_id : String
  pub command_key : String
  pub occurrence_id : String
  pub logical_effect_key : String
  pub created_tick : ℕ
  pub state : String
  pub effect_id : Option String

pub record MarkRow : Type 0 where
  pub event_id : String
  pub mark_key : String
  pub mark_state : String

pub record KeyRow : Type 0 where
  pub command_key : String
  pub occurrence_id : String
  pub event_id : String
  pub state : String

-- `SERVICE_TABLES`
pub record Service : Type 0 where
  pub journal : List JournalRow
  pub committed_seq : ℕ
  pub effects : List EffectRow
  pub intents : List IntentRow
  pub event_marks : List MarkRow
  pub command_keys : List KeyRow

pub record DeploymentRow : Type 0 where
  pub revision : String
  pub code_root : String
  pub config_root : String
  pub config_bytes : List ℕ
  pub activated_tick : ℕ
  pub status : String

pub record AuditRow : Type 0 where
  pub seq : ℕ
  pub action_kind : String
  pub prior_root : String
  pub resulting_root : String
  pub actor : String
  pub entry_hash : String
  pub at_tick : ℕ

pub record SnapshotRow : Type 0 where
  pub snapshot_id : String
  pub state_root : String
  pub cursor_seq : ℕ
  pub journal_root : String
  pub effect_root : String
  pub payload : List ℕ
  pub auth_tag : String
  pub created_tick : ℕ

-- The signed part of a row of `recovery_proofs`.
pub record ProofFields : Type 0 where
  -- `proof-` and the eight digits of this number
  pub proof_id : ℕ
  pub snapshot_id : String
  pub pre_state_root : String
  pub post_state_root : String
  pub prior_audit_root : String
  pub action_kind : String
  pub action_tick : ℕ
  pub actor_scope : String
  pub audit_seq : ℕ
  pub audit_entry_hash : String

pub record ProofRow : Type 0 where
  pub fields : ProofFields
  pub open fields use *
  pub auth_tag : String

pub record TelemetryRow : Type 0 where
  pub seq : ℕ
  pub tick : ℕ
  pub channel : String
  pub message : String

pub record SpanRow : Type 0 where
  pub seq : ℕ
  pub correlation_handle : String
  pub span_id : String
  pub parent_id : Option String
  pub workload_id : Option String
  pub alias : Option String
  pub stage : String
  pub event_id : Option String
  pub command_key : Option String
  pub occurrence_id : Option String
  pub tick : ℕ
