-- ===== src/Verifier/Grade.antt =====
-- `Verifier.grade` of src/strict_verifier/verifier.py: the predicates of an episode from its
-- directories and its transcript, and the result. The candidate's own code, which the engine runs,
-- is the parameter `run`. Not modelled: the dictionary `details`, which nothing reads. Proofs are in
-- the modules below.
pub mod Stages
pub mod Facts
pub mod Ends
pub mod Full
pub mod Abuse
use frontier_long_horizon_en.Prelude.{
  ℕ, String, Option, List, true, false, not, ◌&&◌, ◌||◌, none, some, [], leb, ltb, if◌then◌else◌,
  Dict, insert,
}
use frontier_long_horizon_en.Substrate.Canonical.{Primitives}
use frontier_long_horizon_en.Substrate.Store.{Store, set_intake_state}
use frontier_long_horizon_en.Ground.Transcript.{Hashing}
use frontier_long_horizon_en.Agent.Session.{Workspace, Receipt, EngineRun, public_workloads}
use frontier_long_horizon_en.Verifier.Reward.{Predicates, calculate_reward}
use frontier_long_horizon_en.Verifier.Workloads.{
  Workload, shared_hidden_workloads, member_workloads, without_cutpoint,
}
use frontier_long_horizon_en.Verifier.Workspaces.{is_file}
use frontier_long_horizon_en.Verifier.Checks.{
  Materials, flag, set_when, default_predicates, static_checks,
}
use frontier_long_horizon_en.Verifier.Replay.{
  Replay, Roots, run_group, service_is_available, state_checks, store_roots, workspace_roots,
  recovery_checks, prepare_store,
}

module _ (h : Hashing) (p : Primitives) (run : EngineRun) (m : Materials) where
  -- What `replay` leaves where an exception ends it before the roots of the store are read.
  abbrev pub ended : Dict Receipt → Predicates → Replay
  ended results d = record {
    predicates = insert "valid_episode" false d;
    workload_results = results;
    roots = workspace_roots p m;
  }

  -- From `member_workloads` on, which raises for a profile without workloads.
  unfoldable pub replay_members :
      Option (List Workload) → Workspace → Dict Receipt → Store → Predicates → Replay
  unfolding run_group service_is_available state_checks store_roots workspace_roots
  replay_members none w r2 s2 d2 = ended r2 d2
  replay_members (some members) w r2 s2 d2 =
      let (member_pass, r3, s3) = run_group run m w members r2 s2 in
      let d3 = insert "member_hidden_workloads_pass" member_pass d2 in
      let opened = set_intake_state "open" s3 in
      let d4 = insert "final_service_available" (service_is_available r3) d3 in
      record {
        predicates = state_checks p m opened d4;
        workload_results = r3;
        roots = store_roots p m opened (workspace_roots p m);
      }

  -- The runs on an engine over `w`.
  unfoldable pub replay_with : Workspace → Store → Predicates → Replay
  unfolding run_group replay_members member_workloads
  replay_with w s d0 =
      let (public_pass, r1, s1) = run_group run m w (without_cutpoint public_workloads) [] s in
      let d1 = insert "public_workloads_pass" public_pass d0 in
      let (shared_pass, r2, s2) =
        run_group run m w (without_cutpoint shared_hidden_workloads) r1 s1 in
      let d2 = insert "shared_hidden_workloads_pass" shared_pass d1 in
      replay_members (member_workloads m.profile) w r2 s2 d2

  -- The constructor of the engine reads the settings of the active workspace.
  unfoldable pub replay_active : Option Workspace → Store → Predicates → Replay
  unfolding replay_with is_file workspace_roots
  replay_active none t d = ended [] d
  replay_active (some w) t d =
      if is_file "service/settings.toml" (some w) then replay_with w t d else ended [] d

  unfoldable pub replay_store : Option Store → Predicates → Replay
  unfolding replay_active recovery_checks prepare_store workspace_roots
  replay_store none d0 = ended [] d0
  replay_store (some s) d0 =
      let d1 = recovery_checks p m s d0 in
      let (fine, t) = prepare_store p m s in
      replay_active m.active t (set_when (not fine) "authenticated_recovery" false d1)

  -- The `try` statement. The file of the store may be missing.
  unfoldable pub replay : Predicates → Replay
  unfolding replay_store
  replay d = replay_store m.fixture_store d

  unfoldable pub provenance_check : Predicates → Predicates
  provenance_check d =
      insert "integrity_provenance_pass"
        (flag "audit_chain_valid" d
          && (flag "snapshot_valid" d
              && (flag "recovery_proof" d
                  && (flag "deployment_provenance" d
                      && (flag "state_root_integrity" d
                          && (flag "transcript_integrity" d
                              && (flag "bounded_resources" d
                                  && flag "no_direct_privileged_state_access" d)))))))
        d

  unfoldable pub graded_replay : Replay
  unfolding static_checks replay provenance_check
  graded_replay =
      let started = insert "valid_episode" true default_predicates in
      let r = replay (static_checks h p m started) in
      record r { predicates = provenance_check r.predicates }

-- `Result`, without the details. The score is in hundredths.
pub record Grading : Type 0 where
  pub score : ℕ
  pub verdict : String
  pub predicates : Predicates
  pub workload_results : Dict Receipt
  pub roots : Roots

unfoldable pub verdict_of : ℕ → String
verdict_of score = if leb 100 score then "pass" else if ltb 0 score then "partial" else "fail"

unfoldable pub finalize : Predicates → Grading
unfolding calculate_reward
finalize d = record {
  score = calculate_reward d;
  verdict = "fail";
  predicates = d;
  workload_results = [];
  roots = [];
}

unfoldable pub grade : Hashing → Primitives → EngineRun → Materials → Grading
unfolding finalize graded_replay verdict_of
grade h p run m =
    if not m.session_is_dir || not m.fixture_is_dir
    then finalize (insert "valid_episode" false default_predicates)
    else let r = graded_replay h p run m in
      record {
        score = calculate_reward r.predicates;
        verdict = verdict_of (calculate_reward r.predicates);
        predicates = r.predicates;
        workload_results = r.workload_results;
        roots = r.roots;
      }
