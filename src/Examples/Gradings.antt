-- ===== src/Examples/Gradings.antt =====
-- The theorems on `Verifier.grade` of src/strict_verifier/verifier.py at an episode that repairs
-- everything, and at the same episode without a key for its transcript.
use frontier_long_horizon_en.Prelude.{[], none, refl, some, true, ◌↔◌, ◌∷◌, ◌≡◌}
use frontier_long_horizon_en.Substrate.Canonical.{digest}
use frontier_long_horizon_en.Substrate.Authority.{
  snapshot_tag, snapshot_tag_is_valid, recovery_tag, recovery_tag_is_valid,
}
use frontier_long_horizon_en.Substrate.Store.{
  append_audit, set_intake_state, Store, create_snapshot, initialize, audit_chain_valid,
  snapshot_is_valid, next_entry, state_root, audit_root,
}
use frontier_long_horizon_en.Substrate.Recovery.{restore_snapshot, recovery_proof_for_snapshot}
use frontier_long_horizon_en.Agent.Session.{Workspace, config_file}
use frontier_long_horizon_en.Ground.Transcript.{add_step, to_list, new_transcript}
use frontier_long_horizon_en.Ground.Transcript.RoundTrip.{
  verify_transcript-to_list, record_all, step_call,
}
use frontier_long_horizon_en.Verifier.Workspaces.{
  config_root, touches_privileged, all_files, candidate_is_deployed, workspace_root,
}
use frontier_long_horizon_en.Verifier.Checks.{
  within_limits, uses_prohibited, tools_used, Materials, authenticated,
}
use frontier_long_horizon_en.Verifier.Replay.{
  prepare_store, service_is_available, deployment_matches, run_group,
}
use frontier_long_horizon_en.Verifier.Workloads.{member_b_workloads, member_workloads}
use frontier_long_horizon_en.Verifier.Grade.{grade}
use frontier_long_horizon_en.Agent.Tools as Tools
use frontier_long_horizon_en.Verifier.Grade.Stages.{receipts}
use frontier_long_horizon_en.Verifier.Grade.Full.{Deserves, full_score_iff}
use frontier_long_horizon_en.Verifier.Grade.Abuse.{abuse_earns_nothing}
use frontier_long_horizon_en.Examples.Instances.{spelled_hashing}
use frontier_long_horizon_en.Examples.Transcripts.{claim, arguments, key}
use frontier_long_horizon_en.Examples.Sessions.{measuring, authority, passing, row}

abbrev workspace : Workspace
workspace =
    ("service/contract.md", [])
    ∷ ("service/flow.py", 1 ∷ 2 ∷ [])
    ∷ ("service/runtime.py", [])
    ∷ ("service/store.py", [])
    ∷ (config_file, 3 ∷ [])
    ∷ []

-- The store of a session that has restored S0, deployed and resumed.
abbrev recovered : Store
recovered =
    record (restore_snapshot measuring authority "S0"
      (record (create_snapshot measuring authority "S0" initialize).1 {
        intake_state = "paused";
      })).1 {
        intake_state = "open";
        deployments =
            record (row "candidate" "active") { code_root = "other"; config_root = "three" } ∷ [];
      }

abbrev pub episode : Materials
episode = record {
  session_is_dir = true;
  fixture_is_dir = true;
  active = some workspace;
  candidate = some workspace;
  paths = "session/active/service/flow.py" ∷ [];
  metadata_session_id = none;
  fixture_store = some recovered;
  verifier_is_file = true;
  workloads_is_file = true;
  profile = 1;
  authority = authority;
  action_limit = 128;
  byte_limit = 2000000;
  claim = claim;
  transcript_key = some key;
  transcript = to_list spelled_hashing (
      record_all spelled_hashing (step_call (record arguments { tool = "telemetry.logs" }) ∷ [])
        (new_transcript "1.0" claim key));
}

abbrev unsigned : Materials
unsigned = record episode { transcript_key = none }

episode_is_authenticated : authenticated spelled_hashing measuring episode ≡ true
unfolding authenticated
episode_is_authenticated =
    verify_transcript-to_list spelled_hashing "1.0" claim key
      (step_call (record arguments { tool = "telemetry.logs" }) ∷ [])

episode_tools : tools_used spelled_hashing measuring episode ≡ "telemetry.logs" ∷ []
unfolding tools_used to_list record_all add_step
episode_tools = rw episode_is_authenticated

episode_deserves : Deserves spelled_hashing measuring passing episode
unfolding within_limits uses_prohibited touches_privileged all_files to_list record_all add_step
    candidate_is_deployed workspace_root Tools.workspace_root Tools.config_root config_root digest
    audit_chain_valid restore_snapshot create_snapshot append_audit next_entry snapshot_is_valid
    snapshot_tag_is_valid snapshot_tag state_root recovery_proof_for_snapshot recovery_tag_is_valid
    recovery_tag prepare_store set_intake_state member_workloads receipts run_group
    service_is_available deployment_matches audit_root
episode_deserves = record {
  session_found = refl;
  fixture_found = refl;
  is_authenticated = episode_is_authenticated;
  is_bounded = refl;
  investigates = rw episode_tools;
  diagnoses = rw episode_tools;
  prohibits = rw episode_tools;
  untouched = refl;
  has_verifier = refl;
  has_workloads = refl;
  is_prepared = refl;
  is_deployed = refl;
  store = recovered;
  store_found = refl;
  audited = refl;
  snapshotted = refl;
  proved = refl;
  restores = refl;
  workspace = workspace;
  workspace_found = refl;
  configured = refl;
  members = member_b_workloads;
  members_found = refl;
  pass = (refl, (refl, (refl, (refl, (refl, (refl, (refl, (refl, (refl, (refl, (refl, tt)))))))))));
  available = refl;
  deployed = refl;
}

episode_score : (grade spelled_hashing measuring passing episode).score ≡ 100
episode_score = (full_score_iff spelled_hashing measuring passing episode).1 episode_deserves

full_score_iff_example :
    ((grade spelled_hashing measuring passing episode).score ≡ 100)
    ↔ Deserves spelled_hashing measuring passing episode
full_score_iff_example = full_score_iff spelled_hashing measuring passing episode

abuse_earns_nothing_example : (grade spelled_hashing measuring passing unsigned).score ≡ 0
unfolding authenticated
abuse_earns_nothing_example = abuse_earns_nothing spelled_hashing measuring passing unsigned refl
