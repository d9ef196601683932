-- ===== src/Verifier/Grade/Full.antt =====
-- When an episode is given the full reward (src/strict_verifier/verifier.py).
use mathlib.Core.Path.{subst}
use frontier_long_horizon_en.Prelude.{
  All, Bool-cases, List, [], arith, false, inl, inr, lookup, some, sym, true, ◌↔◌, ◌∙◌, ◌≡◌, ◌≢◌,
}
use frontier_long_horizon_en.Substrate.Canonical.{Primitives}
use frontier_long_horizon_en.Substrate.Store.{Store, audit_chain_valid, snapshot_is_valid}
use frontier_long_horizon_en.Substrate.Recovery.{recovery_proof_for_snapshot}
use frontier_long_horizon_en.Ground.Transcript.{Hashing}
use frontier_long_horizon_en.Agent.Session.{Workspace, Receipt, EngineRun}
use frontier_long_horizon_en.Verifier.Reward.{Predicates, mandatory_true, calculate_reward}
use frontier_long_horizon_en.Verifier.Reward.Gate.{Holds, full_reward_iff}
use frontier_long_horizon_en.Verifier.Workloads.{Workload, member_workloads}
use frontier_long_horizon_en.Verifier.Workspaces.{
  is_file, all_files, workspace_root, candidate_is_deployed, touches_privileged,
}
use frontier_long_horizon_en.Verifier.Checks.{
  diagnostic_tools, Materials, meets, is_empty, authenticated, within_limits, tools_used,
  uses_prohibited, candidate_files,
}
use frontier_long_horizon_en.Verifier.Replay.{
  run_group, service_is_available, prepare_store, deployment_matches,
}
use frontier_long_horizon_en.Verifier.Grade.{grade}
use frontier_long_horizon_en.Verifier.Grade.Stages.{all_workloads, receipts, graded_replay-full}
use frontier_long_horizon_en.Verifier.Grade.Facts.{from_store, from_files, from_runs, earned}
use frontier_long_horizon_en.Verifier.Grade.Ends.{graded, graded_cases}

module _ (h : Hashing) (p : Primitives) (run : EngineRun) (m : Materials) where
  -- What the verifier asks of an episode that has earned the full reward.
  pub record Deserves : Type 0 where
    pub session_found : m.session_is_dir ≡ true
    pub fixture_found : m.fixture_is_dir ≡ true
    -- the transcript is authentic, within the limits, with a diagnosis and no prohibited tool
    pub is_authenticated : authenticated h p m ≡ true
    pub is_bounded : within_limits h p m ≡ true
    pub investigates : is_empty (tools_used h p m) ≡ false
    pub diagnoses : meets (tools_used h p m) diagnostic_tools ≡ true
    pub prohibits : uses_prohibited h p m ≡ false
    -- nothing privileged is touched
    pub untouched : touches_privileged m.paths ≡ false
    pub has_verifier : m.verifier_is_file ≡ true
    pub has_workloads : m.workloads_is_file ≡ true
    -- the candidate is complete, and is what is deployed
    pub is_prepared : all_files (candidate_files h p m) m.candidate ≡ true
    pub is_deployed :
        candidate_is_deployed (workspace_root p m.active) (workspace_root p m.candidate) ≡ true
    -- the store was recovered, and is recovered again
    pub store : Store
    pub store_found : m.fixture_store ≡ some store
    pub audited : audit_chain_valid p store ≡ true
    pub snapshotted : snapshot_is_valid p m.authority "S0" store ≡ true
    pub proved : recovery_proof_for_snapshot p m.authority "S0" store ≡ true
    pub restores : (prepare_store p m store).0 ≡ true
    -- all workloads pass on it, one after the other, and the service and the deployment are there
    pub workspace : Workspace
    pub workspace_found : m.active ≡ some workspace
    pub configured : is_file "service/settings.toml" (some workspace) ≡ true
    pub members : List Workload
    pub members_found : member_workloads m.profile ≡ some members
    pub pass :
        All
          (λ (r : Receipt). r.outcome ≡ "pass")
          (receipts run m workspace (all_workloads members) (prepare_store p m store).1)
    pub available :
        service_is_available
          (run_group run m workspace (all_workloads members) [] (prepare_store p m store).1).1
        ≡ true
    pub deployed :
        deployment_matches p m
          (run_group run m workspace (all_workloads members) [] (prepare_store p m store).1).2
        ≡ true

  -- An episode is graded in full only if it deserves it.
  deserves :
      (All (Holds (graded h p run m)) mandatory_true)
      → m.session_is_dir ≡ true
      → m.fixture_is_dir ≡ true
      → Deserves
  deserves all session fixture = elim (graded_cases h p run m) [
    | inl invalid ↦ cc (invalid, all.0)
    | inr r ↦
        let same =
          graded_replay-full h p run m r.workspace r.store r.members r.store_found r.workspace_found
            r.configured r.members_found in
        let all' = subst (λ (d : Predicates). All (Holds d) mandatory_true) same all in
        let f = from_files h p run m r.workspace r.store r.members all' in
        let g = from_store h p run m r.workspace r.store r.members all' in
        let q = from_runs h p run m r.workspace r.store r.members all' in
        record {
          session_found = session;
          fixture_found = fixture;
          is_authenticated = f.is_authenticated;
          is_bounded = f.is_bounded;
          investigates = f.investigates;
          diagnoses = f.diagnoses;
          prohibits = f.prohibits;
          untouched = f.untouched;
          has_verifier = f.has_verifier;
          has_workloads = f.has_workloads;
          is_prepared = f.is_prepared;
          is_deployed = q.is_deployed;
          store = r.store;
          store_found = r.store_found;
          audited = g.audited;
          snapshotted = g.snapshotted;
          proved = g.proved;
          restores = g.restores;
          workspace = r.workspace;
          workspace_found = r.workspace_found;
          configured = r.configured;
          members = r.members;
          members_found = r.members_found;
          pass = q.pass;
          available = q.available;
          deployed = q.deployed;
        }
  ]

  from_facts :
      (d : Deserves)
      → All (Holds (graded h p run m)) mandatory_true
        × (lookup "protocol_abuse" (graded h p run m) ≡ some false)
  from_facts d =
      let same =
        graded_replay-full h p run m d.workspace d.store d.members d.store_found d.workspace_found
          d.configured d.members_found in
      subst
        (λ (q : Predicates).
          All (Holds q) mandatory_true × (lookup "protocol_abuse" q ≡ some false))
        (sym same)
        (earned h p run m d.workspace d.store d.members
          (record {
            is_authenticated = d.is_authenticated;
            is_bounded = d.is_bounded;
            investigates = d.investigates;
            diagnoses = d.diagnoses;
            prohibits = d.prohibits;
            untouched = d.untouched;
            has_verifier = d.has_verifier;
            has_workloads = d.has_workloads;
            is_prepared = d.is_prepared;
          })
          (record {
            restores = d.restores;
            audited = d.audited;
            snapshotted = d.snapshotted;
            proved = d.proved;
          })
          (record {
            pass = d.pass;
            available = d.available;
            is_deployed = d.is_deployed;
            deployed = d.deployed;
          }))

  -- A grade above zero is that of the predicates of both directories.
  score_of :
      (m.session_is_dir ≡ true)
      → (m.fixture_is_dir ≡ true)
      → (grade h p run m).score ≡ calculate_reward (graded h p run m)
  unfolding grade
  score_of session fixture = rw (session, fixture)

  directories : (grade h p run m).score ≢ 0 → (m.session_is_dir ≡ true) × (m.fixture_is_dir ≡ true)
  unfolding grade calculate_reward
  directories earned_some = elim (Bool-cases m.session_is_dir) [
    | inr missing ↦ absurd (earned_some (rw missing))
    | inl session ↦ elim (Bool-cases m.fixture_is_dir) [
      | inr missing ↦ absurd (earned_some (rw (session, missing)))
      | inl fixture ↦ (session, fixture)
    ]
  ]

  -- An episode is given the full score exactly if it deserves it: both directories are there; the
  -- transcript is authentic, within the limits, shows a diagnosis and no prohibited tool; nothing
  -- privileged is touched; the candidate is complete and deployed; the store's audit chain,
  -- snapshot and recovery proof hold and the snapshot is restored again; and then all public,
  -- shared and member workloads pass, one after the other, on that store.
  pub full_score_iff : ((grade h p run m).score ≡ 100) ↔ Deserves
  full_score_iff = (
    λ full.
        let (session, fixture) = directories (λ zero. omega (arith, full, zero)) in
        deserves ((full_reward_iff (graded h p run m)).0 (sym (score_of session fixture) ∙ full)).0
          session fixture,
    λ d.
        score_of d.session_found d.fixture_found
        ∙ (full_reward_iff (graded h p run m)).1 (from_facts d),
  )
