-- ===== src/Verifier/Grade/Abuse.antt =====
-- What an abusive episode is worth (src/strict_verifier/verifier.py): the predicate `protocol_abuse`
-- through the stages of `grade`, whichever of them ends it.
use frontier_long_horizon_en.Prelude.{
  Bool, Bool-cases, Dict, List, Option, String, [], arith, false, if◌then◌else◌, inl, inr, insert,
  lookup, lookup-insert, none, not, refl, some, true, ◌&&◌, ◌==◌, ◌||◌, ◌∙◌, ◌≡◌,
}
use frontier_long_horizon_en.Substrate.Canonical.{Primitives}
use frontier_long_horizon_en.Substrate.Store.{Store, set_intake_state}
use frontier_long_horizon_en.Ground.Transcript.{Hashing}
use frontier_long_horizon_en.Agent.Session.{Workspace, Receipt, EngineRun}
use frontier_long_horizon_en.Verifier.Reward.{Predicates, calculate_reward}
use frontier_long_horizon_en.Verifier.Workloads.{Workload, member_workloads}
use frontier_long_horizon_en.Verifier.Workspaces.{is_file, touches_privileged}
use frontier_long_horizon_en.Verifier.Checks.{
  Materials, authenticated, within_limits, uses_prohibited, static_checks, default_predicates,
}
use frontier_long_horizon_en.Verifier.Replay.{run_group, recovery_checks, state_checks}
use frontier_long_horizon_en.Verifier.Grade.{
  ended, replay_members, replay_with, replay_active, replay_store, replay, provenance_check,
  graded_replay, grade,
}

abuse : Predicates → Option Bool
abuse d = lookup "protocol_abuse" d

-- Another predicate is set.
abuse-insert :
    (n : String) (v : Bool) (d : Predicates)
    → (n == "protocol_abuse") ≡ false
    → abuse (insert n v d) ≡ abuse d
unfolding abuse
abuse-insert n v d other = rw (lookup-insert n "protocol_abuse" v d, other)

abuse_pays_nothing : (d : Predicates) → abuse d ≡ some true → calculate_reward d ≡ 0
unfolding abuse calculate_reward
abuse_pays_nothing d abused = ground arith

module _ (h : Hashing) (p : Primitives) (run : EngineRun) (m : Materials) where
  abuse-ended :
      (r : Dict Receipt) (d : Predicates) → abuse (ended h p run m r d).predicates ≡ abuse d
  abuse-ended r d = abuse-insert "valid_episode" false d refl

  abuse-state_checks : (s : Store) (d : Predicates) → abuse (state_checks p m s d) ≡ abuse d
  unfolding state_checks
  abuse-state_checks s d =
      abuse-insert "state_tampering" _ _ refl
      ∙ abuse-insert "state_root_integrity" _ _ refl
      ∙ abuse-insert "deployment_provenance" _ d refl

  abuse-recovery_checks : (s : Store) (d : Predicates) → abuse (recovery_checks p m s d) ≡ abuse d
  unfolding recovery_checks
  abuse-recovery_checks s d =
      abuse-insert "authenticated_recovery" _ _ refl
      ∙ abuse-insert "recovery_proof" _ _ refl
      ∙ abuse-insert "snapshot_valid" _ _ refl
      ∙ abuse-insert "audit_chain_valid" _ d refl

  abuse-replay_members :
      (o : Option (List Workload)) (w : Workspace) (r : Dict Receipt) (t : Store) (d : Predicates)
      → abuse (replay_members h p run m o w r t d).predicates ≡ abuse d
  unfolding replay_members
  abuse-replay_members none w r t d = abuse-ended r d
  abuse-replay_members (some members) w r t d =
      abuse-state_checks (set_intake_state "open" (run_group run m w members r t).2) _
      ∙ abuse-insert "final_service_available" _ _ refl
      ∙ abuse-insert "member_hidden_workloads_pass" _ d refl

  abuse-replay_active :
      (o : Option Workspace) (t : Store) (d : Predicates)
      → abuse (replay_active h p run m o t d).predicates ≡ abuse d
  unfolding replay_active replay_with
  abuse-replay_active none t d = abuse-ended [] d
  abuse-replay_active (some w) t d = elim (Bool-cases (is_file "service/settings.toml" (some w))) [
    | inr missing ↦ rw missing (abuse-ended [] d)
    | inl settings ↦ rw settings (
        abuse-replay_members (member_workloads m.profile) w _ _ _
        ∙ abuse-insert "shared_hidden_workloads_pass" _ _ refl
        ∙ abuse-insert "public_workloads_pass" _ d refl)
  ]

  abuse-replay_store :
      (o : Option Store) (d : Predicates) → abuse (replay_store h p run m o d).predicates ≡ abuse d
  unfolding replay_store
  abuse-replay_store none d = abuse-ended [] d
  abuse-replay_store (some s) d =
      abuse-replay_active m.active _ _
      ∙ abuse-insert "authenticated_recovery" _ _ refl
      ∙ abuse-recovery_checks s d

  abuse-static_checks :
      abuse (static_checks h p m (insert "valid_episode" true default_predicates))
      ≡ some (
          if touches_privileged m.paths
          then true
          else (if uses_prohibited h p m
              then true
              else (not (within_limits h p m) || not (authenticated h p m))))
  unfolding abuse static_checks
  abuse-static_checks = ground arith

  -- Nothing after the checks of the transcript, the tools and the paths changes it.
  abuse-graded :
      abuse (graded_replay h p run m).predicates
      ≡ some (
          if touches_privileged m.paths
          then true
          else (if uses_prohibited h p m
              then true
              else (not (within_limits h p m) || not (authenticated h p m))))
  unfolding graded_replay replay provenance_check
  abuse-graded =
      abuse-insert "integrity_provenance_pass" _ _ refl
      ∙ abuse-replay_store m.fixture_store _
      ∙ abuse-static_checks

  -- If the transcript is not authentic, the limits are exceeded, a prohibited tool has succeeded
  -- or a privileged path is touched, then the score is 0, whatever else the episode has achieved
  -- and however its replay ends.
  pub abuse_earns_nothing :
      (authenticated h p m
          && (within_limits h p m
              && (not (uses_prohibited h p m) && not (touches_privileged m.paths))))
        ≡ false
      → (grade h p run m).score ≡ 0
  unfolding grade calculate_reward
  abuse_earns_nothing bad = elim (Bool-cases (not m.session_is_dir || not m.fixture_is_dir)) [
    | inl missing ↦ rw missing
    | inr found ↦
        rw found
          (abuse_pays_nothing (graded_replay h p run m).predicates (abuse-graded ∙ ground arith))
  ]
