-- ===== src/Substrate/Canonical.antt =====
-- src/event_service_substrate/canonical.py: what is serialised, and the digests of it. The hash
-- functions, the JSON encoder and the ORDER BY of SQLite are parameters.
use mathlib.Core.List.{append_cancel_left}
use frontier_long_horizon_en.Prelude.{ℕ, String, ◌≡◌, Option, some, List, ◌∷◌, ◌++◌, codes}
use frontier_long_horizon_en.Substrate.Tables.{
  JournalRow, EffectRow, Service, DeploymentRow, AuditRow, SnapshotRow, ProofFields, TelemetryRow,
}

-- The dictionary that `append_audit` hashes.
pub record AuditFields : Type 0 where
  pub seq : ℕ
  pub action_kind : String
  pub prior_root : String
  pub resulting_root : String
  pub actor : String
  pub at_tick : ℕ

-- The columns of a snapshot that its semantic root covers: all but the tag.
pub record SnapshotFields : Type 0 where
  pub snapshot_id : String
  pub state_root : String
  pub cursor_seq : ℕ
  pub journal_root : String
  pub effect_root : String
  pub payload : List ℕ
  pub created_tick : ℕ

-- A dictionary of `tree_root`.
pub record FileEntry : Type 0 where
  pub path : String
  pub size : ℕ
  pub digest_text : String

-- The values that the package serialises, a constructor for each shape of dictionary or list.
pub data Document : Type 0 where
  audit_fields : AuditFields → Document
  service_tables : Service → Document
  journal_table : List JournalRow → Document
  effects_table : List EffectRow → Document
  deployments_table : List DeploymentRow → Document
  runtime_table : ℕ → String → Document
  telemetry_table : List TelemetryRow → Document
  audit_table : List AuditRow → Document
  snapshots_table : List SnapshotFields → Document
  -- `{"authority_scope": scope, **fields}`
  snapshot_claim : String → String → String → List ℕ → ℕ → Document
  recovery_claim : String → ProofFields → Document
  -- the lists and the dictionary of src/agent_surface/runtime.py: command key, occurrence, tick and
  -- workload; event, occurrence, logical key, tick and workload; event, command key, occurrence,
  -- logical key, tick and workload; handle, stage, event, command key, occurrence and tick; command
  -- key, occurrence, alias and amount
  event_key : String → String → ℕ → String → Document
  effect_key : String → String → String → ℕ → String → Document
  intent_key : String → String → String → String → ℕ → String → Document
  span_key : String → String → Option String → Option String → Option String → ℕ → Document
  command_payload : String → String → String → String → Document
  tree_entries : List FileEntry → Document

-- hashlib, hmac, json and the ORDER BY of sqlite3, as the package calls them.
pub record Primitives : Type 0 where
  -- hexdigest of SHA-256, and of HMAC-SHA-256 under a key
  pub sha256 : List ℕ → String
  pub hmac_sha256 : List ℕ → List ℕ → String
  -- `canonical_json`, and `json.loads` of a service payload (`none`: it raises)
  pub canonical_json : Document → List ℕ
  pub loads_service : List ℕ → Option Service
  -- `str` of a number
  pub str_of : ℕ → String
  -- the rows of each service table, ordered by all its columns
  pub order_service : Service → Service
  -- the rows of the deployments, ordered by all columns, and of the snapshots by those signed
  pub order_deployments : List DeploymentRow → List DeploymentRow
  pub order_snapshots : List SnapshotRow → List SnapshotRow

-- What the package relies on: parsing a printed document gives it back, and ordering ordered rows
-- changes nothing.
pub record IsReliable (p : Primitives) : Type 0 where
  pub loads_dumps : (s : Service) → p.loads_service (p.canonical_json (service_tables s)) ≡ some s
  pub order_idem : (s : Service) → p.order_service (p.order_service s) ≡ p.order_service s

-- No two inputs that are met have one digest, and no two documents one text.
pub record IsCollisionFree (p : Primitives) : Type 0 where
  pub sha256_inj : (a b : List ℕ) → p.sha256 a ≡ p.sha256 b → a ≡ b
  pub json_inj : (a b : Document) → p.canonical_json a ≡ p.canonical_json b → a ≡ b

-- The separator byte in front of two payloads.
cons_tail_inj : {a b : List ℕ} → ◌≡◌ {A = List ℕ} (0 ∷ a) (0 ∷ b) → a ≡ b
cons_tail_inj h = cc

module _ (p : Primitives) where
  unfoldable pub digest : String → List ℕ → String
  digest domain payload = p.sha256 (codes domain ++ (0 ∷ payload))

  -- Equal digests frame the same bytes, whatever their domains.
  pub digest_frame :
      IsCollisionFree p
      → (d e : String) (a b : List ℕ) → digest d a ≡ digest e b
      → codes d ++ (0 ∷ a) ≡ codes e ++ (0 ∷ b)
  unfolding digest
  digest_frame free d e a b h = free.sha256_inj _ _ h

  -- Under one domain, equal digests are digests of one payload.
  pub digest_inj :
      IsCollisionFree p
      → (domain : String) (a b : List ℕ) → digest domain a ≡ digest domain b
      → a ≡ b
  digest_inj free domain a b h =
      cons_tail_inj (append_cancel_left (codes domain) _ _ (digest_frame free domain domain a b h))
