-- ===== src/Verifier/Grade/Stages.antt =====
-- The grade of an episode whose store, workspace and workloads are there
-- (src/strict_verifier/verifier.py): the stages of `grade` without its early ends, and the groups of
-- workloads as one list.
use frontier_long_horizon_en.Prelude.{
  Bool, true, false, not, ◌&&◌, ◌≡◌, refl, ap, ◌∙◌, Option, some, List, [], ◌∷◌, ◌++◌, All, arith,
  eq_iff, ◌==◌, Dict, insert,
}
use frontier_long_horizon_en.Substrate.Canonical.{Primitives}
use frontier_long_horizon_en.Substrate.Store.{Store, set_intake_state}
use frontier_long_horizon_en.Ground.Transcript.{Hashing}
use frontier_long_horizon_en.Agent.Session.{Workspace, Receipt, EngineRun, public_workloads}
use frontier_long_horizon_en.Verifier.Reward.{Predicates}
use frontier_long_horizon_en.Verifier.Workloads.{
  Workload, shared_hidden_workloads, member_workloads, without_cutpoint,
}
use frontier_long_horizon_en.Verifier.Workspaces.{is_file}
use frontier_long_horizon_en.Verifier.Checks.{
  Materials, set_when, default_predicates, static_checks,
}
use frontier_long_horizon_en.Verifier.Replay.{
  Replay, run_group, run_workload, service_is_available, state_checks, recovery_checks,
  prepare_store,
}
use frontier_long_horizon_en.Verifier.Grade.{
  replay_with, replay_members, replay_active, replay_store, replay, provenance_check, graded_replay,
}

-- The public, the shared and the member's workloads, in the order in which they are run.
abbrev pub all_workloads : List Workload → List Workload
all_workloads members =
    without_cutpoint public_workloads ++ (without_cutpoint shared_hidden_workloads ++ members)

and_assoc : (a b c : Bool) → (a && (b && c)) ≡ ((a && b) && c)
and_assoc a b c = ground arith

module _ (run : EngineRun) (m : Materials) (w : Workspace) where
  pub run_group-append :
      (xs ys : List Workload) (r : Dict Receipt) (s : Store)
      → run_group run m w (xs ++ ys) r s ≡ (
          let (a, r1, s1) = run_group run m w xs r s in
          let (b, r2, s2) = run_group run m w ys r1 s1 in (a && b, r2, s2))
  unfolding run_group
  run_group-append [] ys r s = refl
  run_group-append ((i, c) ∷ xs) ys r s =
      let (receipt, t) = run_workload run m w (i, c) s in
      rw (
        run_group-append xs ys (insert i receipt r) t,
        and_assoc (receipt.outcome == "pass") (run_group run m w xs (insert i receipt r) t).0,
      )

  -- The receipts of a list of workloads, run one after the other.
  unfoldable pub receipts : List Workload → Store → List Receipt
  receipts [] s = []
  receipts (x ∷ xs) s = let (receipt, t) = run_workload run m w x s in receipt ∷ receipts xs t

  pub run_group-passes :
      (xs : List Workload) (r : Dict Receipt) (s : Store)
      → (run_group run m w xs r s).0 ≡ true
      → All (λ (q : Receipt). q.outcome ≡ "pass") (receipts xs s)
  unfolding run_group receipts
  run_group-passes [] r s h = tt
  run_group-passes ((i, c) ∷ xs) r s h =
      let (receipt, t) = run_workload run m w (i, c) s in
      (
        ground (arith, eq_iff receipt.outcome "pass"),
        run_group-passes xs (insert i receipt r) t (ground arith),
      )

  pub passes-run_group :
      (xs : List Workload) (r : Dict Receipt) (s : Store)
      → All (λ (q : Receipt). q.outcome ≡ "pass") (receipts xs s)
      → (run_group run m w xs r s).0 ≡ true
  unfolding run_group receipts
  passes-run_group [] r s h = refl
  passes-run_group ((i, c) ∷ xs) r s h =
      let (receipt, t) = run_workload run m w (i, c) s in
      ground
        (arith, eq_iff receipt.outcome "pass", passes-run_group xs (insert i receipt r) t h.1, h.0)

-- The grade where nothing ends it early: `w` is the active workspace, with its settings, and
-- `members` are the workloads of the profile.
module _ (h : Hashing) (p : Primitives) (run : EngineRun) (m : Materials) (w : Workspace)
    (s : Store) (members : List Workload) where
  unfoldable pub static : Predicates
  unfolding static_checks
  static = static_checks h p m (insert "valid_episode" true default_predicates)

  unfoldable pub prepared : Store
  prepared = (prepare_store p m s).1

  -- The three groups, run one after the other.
  unfoldable pub group_1 : Bool × Dict Receipt × Store
  unfolding prepared
  group_1 = run_group run m w (without_cutpoint public_workloads) [] prepared

  unfoldable pub group_2 : Bool × Dict Receipt × Store
  unfolding group_1
  group_2 = run_group run m w (without_cutpoint shared_hidden_workloads) group_1.1 group_1.2

  unfoldable pub group_3 : Bool × Dict Receipt × Store
  unfolding group_2
  group_3 = run_group run m w members group_2.1 group_2.2

  unfoldable pub final_store : Store
  unfolding group_3
  final_store = set_intake_state "open" group_3.2

  unfoldable pub full_predicates : Predicates
  unfolding static group_1 group_2 group_3 final_store provenance_check state_checks recovery_checks
  full_predicates =
      let d1 = recovery_checks p m s static in
      let d2 = set_when (not (prepare_store p m s).0) "authenticated_recovery" false d1 in
      let d3 = insert "public_workloads_pass" group_1.0 d2 in
      let d4 = insert "shared_hidden_workloads_pass" group_2.0 d3 in
      let d5 = insert "member_hidden_workloads_pass" group_3.0 d4 in
      let d6 = insert "final_service_available" (service_is_available group_3.1) d5 in
      provenance_check h p run m (state_checks p m final_store d6)

  replay_members-some :
      (d : Predicates)
      → is_file "service/settings.toml" (some w) ≡ true
      → member_workloads m.profile ≡ some members
      → replay_active h p run m (some w) prepared d
        ≡ replay_members h p run m (some members) w group_2.1 group_2.2 (
            insert "shared_hidden_workloads_pass" group_2.0
              (insert "public_workloads_pass" group_1.0 d))
  unfolding replay_active replay_with group_2 group_1
  replay_members-some d settings profile = rw settings (
      ap
        (λ o. replay_members h p run m o w group_2.1 group_2.2 (
          insert "shared_hidden_workloads_pass" group_2.0
            (insert "public_workloads_pass" group_1.0 d)))
        profile)

  pub graded_replay-full :
      m.fixture_store ≡ some s
      → m.active ≡ some w
      → is_file "service/settings.toml" (some w) ≡ true
      → member_workloads m.profile ≡ some members
      → (graded_replay h p run m).predicates ≡ full_predicates
  unfolding graded_replay replay full_predicates replay_store replay_members static group_3
      final_store
  graded_replay-full stored active settings profile =
      let d =
        set_when (not (prepare_store p m s).0) "authenticated_recovery" false
          (recovery_checks p m s static) in
      ap
        (λ (o : Option Store).
          provenance_check h p run m (replay_store h p run m o static).predicates)
        stored
      ∙ ap
          (λ (o : Option Workspace).
            provenance_check h p run m (replay_active h p run m o prepared d).predicates)
          active
      ∙ ap (λ (r : Replay). provenance_check h p run m r.predicates)
          (replay_members-some d settings profile)
