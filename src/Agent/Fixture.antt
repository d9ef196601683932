-- ===== src/Agent/Fixture.antt =====
-- The seeded incident (src/event_service_substrate/instance.py): the revisions, the history of each
-- profile, and the fixture that is built of them. The files of public_template are a parameter, and
-- a file that is missing there reads as empty, where Python raises FileNotFoundError. What
-- may be seen of a fixture, and the proofs, are in the modules below.
pub mod Views
pub mod Public
pub mod Restorable
use Prim.Native.String.{◌++◌ as append_text}
use frontier_long_horizon_en.Prelude.{
  ℕ, zero, suc, ◌+◌, String, Bool, true, false, not, ◌&&◌, Option, none, some, List, [], ◌∷◌, ◌++◌,
  nat_eq, ◌==◌, if◌then◌else◌, codes, length, lookup, insert, Result, ok, err,
}
use frontier_long_horizon_en.Substrate.Tables.{
  JournalRow, EffectRow, KeyRow, DeploymentRow, TelemetryRow,
}
use frontier_long_horizon_en.Substrate.Canonical.{Primitives, digest}
use frontier_long_horizon_en.Substrate.Authority.{RecoveryAuthority}
use frontier_long_horizon_en.Substrate.Errors.{Error}
use frontier_long_horizon_en.Substrate.Store.{
  Store, initialize, advance, append_telemetry, append_audit, create_snapshot, state_root,
  deployment_root, runtime_root, telemetry_root, audit_root, snapshot_root,
}
use frontier_long_horizon_en.Agent.Session.{Workspace, config_file, code_files, read_bytes}
use frontier_long_horizon_en.Agent.Tools.{workspace_root}

-- `RuntimeError`, `ValueError` and `KeyError`, and what a method of the store raises.
pub data FixtureError : Type 0 where
  runtime_error value_error key_error : String → FixtureError
  store_error : Error → FixtureError

abbrev pub event_primary : String
event_primary = "evt_74c31f146a5d4e198f83b2d7619a0c5e"

abbrev pub event_additional : String
event_additional = "evt_c92580b73e124da59b641f037a6e82d4"

abbrev pub effect_primary : String
effect_primary = "efx_03f1ab9857434fcaaad46d5d1289ce70"

abbrev pub effect_replay : String
effect_replay = "efx_aa2874f0c5314c54b136df95e4a8207c"

abbrev pub effect_additional : String
effect_additional = "efx_d5899ca5c24e48d39f6e873ab020154b"

abbrev pub command_key : String
command_key = "cmd_8ef23dbbb32b4cb3aaeb2fb0e2a14ce1"

abbrev pub occurrence : String
occurrence = "occ_f42e1a985e8b45f3a6bc9757dd2c6409"

abbrev pub visible_log_lines : List (ℕ × String)
visible_log_lines =
    (41, "t=041 intake accepted alias=Q-41")
    ∷ (42, "t=042 delivery window opened alias=Q-41 attempt=1")
    ∷ (43, "t=043 delivery boundary interrupted alias=Q-41")
    ∷ (44, "t=044 delivery window opened alias=Q-41 attempt=1")
    ∷ (45, "t=045 settlement observed alias=Q-41 count=2")
    ∷ []

-- The bytes of lines that each end in a line feed.
abbrev pub text_lines : List String → List ℕ
text_lines [] = []
text_lines (l ∷ ls) = codes l ++ (10 ∷ text_lines ls)

-- `replace(b"\r\n", b"\n")`
abbrev pub normalized : List ℕ → List ℕ
normalized [] = []
normalized (c ∷ []) = c ∷ []
normalized (c ∷ d ∷ cs) =
    let rest = normalized (d ∷ cs) in
    if nat_eq c 13 then (if nat_eq d 10 then rest else c ∷ rest) else c ∷ rest

-- Whether the bytes are the same, by their texts.
abbrev pub same_bytes : List ℕ → List ℕ → Bool
same_bytes [] [] = true
same_bytes (b ∷ bs) (c ∷ cs) = nat_eq b c && same_bytes bs cs
same_bytes _ _ = false

-- The `_copy_workspace` of a template, for the file that it normalises.
unfoldable pub copy_workspace : Workspace → Workspace
copy_workspace template = elim (lookup config_file template) [
  | none ↦ template
  | some bytes ↦ insert config_file (normalized bytes) template
]

module _ (p : Primitives) where
  -- `_settings`
  unfoldable pub settings : ℕ → List ℕ
  settings attempt_budget = text_lines (
      "[service]"
      ∷ "intake_enabled = true"
      ∷ "settlement_enabled = true"
      ∷ append_text "attempt_budget = " (p.str_of attempt_budget)
      ∷ "transient_behavior = \"retry\""
      ∷ [])

  unfoldable pub bytes_root : List ℕ → String
  bytes_root bytes = digest p "config-v1" bytes

  abbrev pub revision_row : String → String → List ℕ → ℕ → String → DeploymentRow
  revision_row revision code_root bytes activated_tick status = record {
    revision = revision;
    code_root = code_root;
    config_root = bytes_root bytes;
    config_bytes = bytes;
    activated_tick = activated_tick;
    status = status;
  }

  -- `_register_revisions`
  unfoldable pub register_revisions : String → Store → Store
  unfolding settings bytes_root append_audit
  register_revisions source_root s =
      append_audit p "deployment_activate" (bytes_root (settings 1)) "controller" 40 (record s {
        deployments =
            s.deployments
            ++ revision_row "r0" source_root (settings 3) 39 "available"
              ∷ revision_row "r1" source_root (settings 1) 40 "active"
              ∷ revision_row "candidate" "" [] 0 "placeholder"
              ∷ [];
      })

  -- `_seed_shared_telemetry`
  unfoldable pub seed_telemetry : List (ℕ × String) → Store → Result FixtureError Store
  unfolding advance append_telemetry
  seed_telemetry [] s = ok s
  seed_telemetry ((expected_tick, line) ∷ lines) s =
      let advanced = advance s in
      let rest =
        seed_telemetry lines (append_telemetry advanced.fake_tick "public" line advanced) in
      if not (nat_eq advanced.fake_tick expected_tick)
      then err (runtime_error "incident history did not follow the declared tick schedule")
      else rest

  abbrev pub history_event : ℕ → String → ℕ → JournalRow
  history_event seq event_id accepted_tick = record {
    seq = seq;
    event_id = event_id;
    command_key = command_key;
    occurrence_id = occurrence;
    payload_hash = digest p "payload-v1" (codes "settlement:Q-41:100");
    accepted_tick = accepted_tick;
  }

  abbrev pub history_effect : String → String → ℕ → EffectRow
  history_effect effect_id event_id committed_tick = record {
    effect_id = effect_id;
    occurrence_id = occurrence;
    amount = 100;
    kind = "settlement";
    logical_effect_key = "settlement";
    source_event_id = event_id;
    committed_tick = committed_tick;
  }

  abbrev pub history_key : String → KeyRow
  history_key event_id = record {
    command_key = command_key;
    occurrence_id = occurrence;
    event_id = event_id;
    state = "registered";
  }

  -- The rows that `_seed_history` adds: an effect settled twice, or a command journalled twice.
  unfoldable pub history_rows : ℕ → Store → Result FixtureError Store
  history_rows zero s = ok (record s {
    service = record s.service {
      journal = s.service.journal ++ history_event 1 event_primary 41 ∷ [];
      command_keys = s.service.command_keys ++ history_key event_primary ∷ [];
      effects =
          s.service.effects
          ++ history_effect effect_primary event_primary 42
            ∷ history_effect effect_replay event_primary 44
            ∷ [];
      committed_seq = 1;
    };
  })
  history_rows (suc zero) s = ok (record s {
    service = record s.service {
      journal =
          s.service.journal
          ++ history_event 1 event_primary 41 ∷ history_event 2 event_additional 43 ∷ [];
      command_keys = s.service.command_keys ++ history_key event_additional ∷ [];
      effects =
          s.service.effects
          ++ history_effect effect_primary event_primary 42
            ∷ history_effect effect_additional event_additional 44
            ∷ [];
      committed_seq = 2;
    };
  })
  history_rows (suc (suc profile)) s = err (value_error "unsupported fixture profile")

  -- `_seed_history`
  unfoldable pub seed_history : ℕ → Store → Result FixtureError Store
  unfolding history_rows seed_telemetry
  seed_history profile s = elim (history_rows profile s) [
    | err e ↦ err e
    | ok seeded ↦ seed_telemetry visible_log_lines seeded
  ]

-- `ServiceFixture`
pub record Fixture : Type 0 where
  pub workspace : Workspace
  pub store : Store
  pub source_root : String

module _ (p : Primitives) (a : RecoveryAuthority) where
  -- `build_fixture` behind the check of the active configuration.
  unfoldable pub seeded : Workspace → ℕ → Result FixtureError Fixture
  unfolding register_revisions create_snapshot seed_history workspace_root
  seeded workspace profile =
      let source_root = workspace_root p workspace in
      let (snapshot, s) = create_snapshot p a "S0" (register_revisions p source_root initialize) in
      elim snapshot [
        | err e ↦ err (store_error e)
        | ok root ↦ elim (seed_history p profile s) [
          | err e ↦ err e
          | ok store ↦
              ok (record { workspace = workspace; store = store; source_root = source_root })
        ]
      ]

  -- `build_fixture`, from the files of the template.
  unfoldable pub build_fixture : Workspace → ℕ → Result FixtureError Fixture
  unfolding copy_workspace seeded settings
  build_fixture template profile =
      let workspace = copy_workspace template in
      if not (same_bytes (read_bytes config_file workspace) (settings p 1))
      then err (runtime_error "public active configuration does not match r1 artifact")
      else seeded workspace profile
