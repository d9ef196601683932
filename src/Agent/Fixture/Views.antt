-- ===== src/Agent/Fixture/Views.antt =====
-- What the public may see of a fixture (`ServiceFixture` of
-- src/event_service_substrate/instance.py). TOML and difflib are parameters.
use frontier_long_horizon_en.Prelude.{
  ℕ, String, none, some, Option, List, [], ◌∷◌, ◌==◌, if◌then◌else◌, length, Result, ok, err,
}
use frontier_long_horizon_en.Substrate.Tables.{DeploymentRow, TelemetryRow}
use frontier_long_horizon_en.Substrate.Canonical.{Primitives}
use frontier_long_horizon_en.Substrate.Store.{
  deployment_root, runtime_root, telemetry_root, audit_root, snapshot_root,
}
use frontier_long_horizon_en.Agent.Session.{Workspace, config_file, read_bytes}
use frontier_long_horizon_en.Agent.Fixture.{
  FixtureError, runtime_error, value_error, key_error, Fixture, bytes_root,
}

-- Telemetry rows of the public channel, and the rows of a revision or a status.
unfoldable pub public_messages : List TelemetryRow → List String
public_messages [] = []
public_messages (r ∷ rs) =
    let rest = public_messages rs in if r.channel == "public" then r.message ∷ rest else rest

unfoldable pub of_revision : String → List DeploymentRow → List DeploymentRow
of_revision revision [] = []
of_revision revision (r ∷ rs) =
    let rest = of_revision revision rs in if r.revision == revision then r ∷ rest else rest

unfoldable pub of_status : String → List DeploymentRow → List DeploymentRow
of_status status [] = []
of_status status (r ∷ rs) =
    let rest = of_status status rs in if r.status == status then r ∷ rest else rest

-- What `public_status` shows, but for its constant texts.
pub record PublicStatus : Type 0 where
  pub fake_tick : ℕ
  pub intake : String
  pub active_revision : String
  pub active_config_root : String
  pub attempt_budget : ℕ
  pub visible_effect_count : ℕ
  pub logs : List String
  pub source_root : String
  pub deployment_root : String
  pub runtime_root : String
  pub telemetry_root : String
  pub audit_root : String
  pub snapshot_root : String

-- tomllib, the attempt budget of a settings file (`none`: it raises), and difflib.
pub record Readers : Type 0 where
  pub attempt_budget : List ℕ → Option ℕ
  pub unified_diff : List ℕ → List ℕ → String

module _ (p : Primitives) where
  -- `_active_revision`
  unfoldable pub checked_active : List DeploymentRow → Result FixtureError DeploymentRow
  unfolding bytes_root
  checked_active (r ∷ []) =
      if r.config_root == bytes_root p r.config_bytes
      then ok r
      else err (runtime_error "active configuration root does not match its artifact")
  checked_active _ = err (runtime_error "exactly one revision must be active")

  unfoldable pub active_revision : Fixture → Result FixtureError DeploymentRow
  unfolding checked_active of_status
  active_revision x = checked_active (of_status "active" x.store.deployments)

  -- `_revision_artifact`
  unfoldable pub checked_artifact : String → List DeploymentRow → Result FixtureError DeploymentRow
  unfolding bytes_root
  checked_artifact revision (r ∷ []) =
      if r.config_root == bytes_root p r.config_bytes
      then ok r
      else err (runtime_error "deployment configuration root does not match its artifact")
  checked_artifact revision _ = err (key_error revision)

  unfoldable pub revision_artifact : String → Fixture → Result FixtureError DeploymentRow
  unfolding checked_artifact of_revision
  revision_artifact revision x =
      checked_artifact revision (of_revision revision x.store.deployments)

  module _ (q : Readers) where
    -- The dictionary of `public_status`, with the roots of `roots` but for that of the service.
    unfoldable pub status_of : Fixture → DeploymentRow → ℕ → PublicStatus
    unfolding public_messages
    status_of x r attempt_budget = record {
      fake_tick = x.store.fake_tick;
      intake = x.store.intake_state;
      active_revision = r.revision;
      active_config_root = r.config_root;
      attempt_budget = attempt_budget;
      visible_effect_count = length x.store.service.effects;
      logs = public_messages x.store.telemetry;
      source_root = x.source_root;
      deployment_root = deployment_root p x.store;
      runtime_root = runtime_root p x.store;
      telemetry_root = telemetry_root p x.store;
      audit_root = audit_root p x.store;
      snapshot_root = snapshot_root p x.store;
    }

    unfoldable pub public_status : Fixture → Result FixtureError PublicStatus
    unfolding active_revision status_of
    public_status x = elim (active_revision x) [
      | err e ↦ err e
      | ok r ↦ elim (q.attempt_budget r.config_bytes) [
        | none ↦ err (value_error "attempt_budget")
        | some n ↦ ok (status_of x r n)
      ]
    ]

    -- `revision_diff`
    unfoldable pub revision_diff : Fixture → Result FixtureError String
    unfolding revision_artifact
    revision_diff x = elim (revision_artifact "r0" x) [
      | err e ↦ err e
      | ok r0 ↦ elim (revision_artifact "r1" x) [
        | err e ↦ err e
        | ok r1 ↦ ok (q.unified_diff r0.config_bytes r1.config_bytes)
      ]
    ]

    -- What `public_bytes` prints: the files, the status and the difference.
    abbrev pub PublicView : Type 0
    PublicView = List (String × List ℕ) × (PublicStatus × String)

    unfoldable pub public_files : List String → Workspace → List (String × List ℕ)
    public_files [] w = []
    public_files (f ∷ fs) w = (f, read_bytes f w) ∷ public_files fs w

    unfoldable pub public_view : Fixture → Result FixtureError PublicView
    unfolding public_files public_status revision_diff
    public_view x = elim (public_status x) [
      | err e ↦ err e
      | ok status ↦ elim (revision_diff x) [
        | err e ↦ err e
        | ok difference ↦ ok (
          public_files
              ("service/contract.md" ∷ "service/flow.py" ∷ "service/runtime.py" ∷ config_file
                ∷ "service/store.py" ∷ [])
              x.workspace,
          (status, difference),
        )
      ]
    ]
