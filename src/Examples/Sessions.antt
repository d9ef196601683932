-- ===== src/Examples/Sessions.antt =====
-- The theorems on src/agent_surface/session.py at a whole repair: from a paused session, restore,
-- edit, deploy, pass the public workloads and resume.
use frontier_long_horizon_en.Prelude.{
  ℕ, ◌+◌, String, ◌≡◌, refl, true, false, none, some, List, [], ◌∷◌, ok, nat_eq, if◌then◌else◌,
}
use frontier_long_horizon_en.Substrate.Tables.{DeploymentRow}
use frontier_long_horizon_en.Substrate.Canonical.{
  Primitives, Document, tree_entries, FileEntry, digest,
}
use frontier_long_horizon_en.Substrate.Authority.{
  RecoveryAuthority, snapshot_tag, snapshot_tag_is_valid, recovery_tag, recovery_tag_is_valid,
}
use frontier_long_horizon_en.Substrate.Store.{
  append_audit, initialize, create_snapshot, audit_chain_valid, next_entry, snapshot_is_valid,
  state_root, find_audit, audit_root_before, audit_root,
}
use frontier_long_horizon_en.Substrate.Recovery.{recovery_provenance_exists}
use frontier_long_horizon_en.Agent.Session.{
  Session, Workspace, EngineRun, active_revision_label, config_file,
}
use frontier_long_horizon_en.Agent.Tools.{
  Action, edit, run_workload, restore, deploy, resume, perform_all, perform, all_public_pass,
  recovery_restore, recovery_resume,
}
use frontier_long_horizon_en.Agent.Tools.Passes.{passed_in, passes_are_backed}
use frontier_long_horizon_en.Agent.Tools.Restoring.{restore_takes_back_passes}
use frontier_long_horizon_en.Agent.Tools.Guards.{KeepsIntake, intake_opens_earned}

-- Primitives that can be computed with: a digest tells a directory of three bytes from other texts.
abbrev pub total : List FileEntry → ℕ
total [] = 0
total (e ∷ es) = e.size + total es

abbrev pub ending : List ℕ → String
ending [] = "empty"
ending (n ∷ []) = if nat_eq n 3 then "three" else "other"
ending (n ∷ m ∷ l) = ending (m ∷ l)

abbrev short_text : Document → List ℕ
short_text (tree_entries es) = total es ∷ []
short_text _ = []

abbrev pub measuring : Primitives
measuring = record {
  sha256 = ending;
  hmac_sha256 = λ k l. "tag";
  canonical_json = short_text;
  loads_service = λ l. some initialize.service;
  str_of = λ n. "n";
  order_service = λ v. v;
  order_deployments = λ v. v;
  order_snapshots = λ v. v;
}

abbrev pub authority : RecoveryAuthority
authority = record { key = []; scope = "scope"; actor_scope = "operator" }

abbrev pub row : String → String → DeploymentRow
row revision status = record {
  revision = revision;
  code_root = "";
  config_root = "";
  config_bytes = [];
  activated_tick = 0;
  status = status;
}

abbrev pub files : Workspace
files = ("service/flow.py", 1 ∷ 2 ∷ []) ∷ (config_file, 3 ∷ []) ∷ []

abbrev pub start : Session
start = record {
  session_id = "session";
  store = record (create_snapshot measuring authority "S0" initialize).1 {
    intake_state = "paused";
    deployments = row "r0" "available" ∷ row "r1" "active" ∷ row "candidate" "placeholder" ∷ [];
  };
  active = files;
  candidate = files;
  initial = files;
  workload_history = [];
  public_workload_pass = [];
  trace_epoch = 1;
}

abbrev pub passing : EngineRun
passing c s =
    (ok (record { workload_id = c.workload_id; outcome = "pass"; active_config_root = "" }), s)

passing-KeepsIntake : KeepsIntake passing
passing-KeepsIntake = record { kept = λ c s. refl }

abbrev pub repair : List Action
repair =
    restore "S0"
    ∷ edit (some "service/flow.py") (1 ∷ 2 ∷ 3 ∷ [])
    ∷ deploy
    ∷ run_workload "P1" none
    ∷ run_workload "P2" none
    ∷ run_workload "P3" none
    ∷ resume
    ∷ []

repaired_is_open :
    (perform_all measuring authority passing repair start).store.intake_state ≡ "open"
unfolding perform_all perform audit_chain_valid create_snapshot next_entry digest snapshot_is_valid
    snapshot_tag_is_valid snapshot_tag state_root recovery_tag_is_valid recovery_tag find_audit
    audit_root_before audit_root
repaired_is_open = refl

intake_opens_earned_example :
    (recovery_provenance_exists measuring authority
        (perform_all measuring authority passing repair start).store
      ≡ true)
    × (active_revision_label (perform_all measuring authority passing repair start).store
        ≡ ok "candidate")
    × (all_public_pass measuring (perform_all measuring authority passing repair start) ≡ true)
intake_opens_earned_example =
    intake_opens_earned measuring authority passing passing-KeepsIntake repair start refl
      repaired_is_open

passes_are_backed_example :
    passed_in "P1" (perform_all measuring authority passing repair start).workload_history ≡ true
unfolding perform_all perform audit_chain_valid create_snapshot next_entry digest snapshot_is_valid
    snapshot_tag_is_valid snapshot_tag state_root recovery_tag_is_valid recovery_tag find_audit
    audit_root_before audit_root
passes_are_backed_example =
    passes_are_backed measuring authority passing repair start "three" "P1" refl refl

abbrev pub after_restore : Session
after_restore = (recovery_restore measuring authority "S0" start).1

pub restore_returns : recovery_restore measuring authority "S0" start ≡ (ok "other", after_restore)
unfolding recovery_restore append_audit audit_chain_valid create_snapshot next_entry digest
    snapshot_is_valid snapshot_tag_is_valid snapshot_tag state_root recovery_tag_is_valid
    recovery_tag find_audit audit_root_before audit_root
restore_returns = refl

restore_takes_back_passes_example :
    (all_public_pass measuring after_restore ≡ false)
    × ((m : ℕ) (u : Session) → recovery_resume measuring authority after_restore ≡ (ok m, u) → ⊥)
restore_takes_back_passes_example =
    restore_takes_back_passes measuring authority "S0" start "other" after_restore restore_returns
