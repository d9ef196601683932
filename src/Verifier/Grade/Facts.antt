-- ===== src/Verifier/Grade/Facts.antt =====
-- What the predicates of `grade` say (src/strict_verifier/verifier.py), where nothing ends it early:
-- the facts that the mandatory ones rest on, and that these facts make all of them.
use mathlib.Core.Bool.{false≢true}
use frontier_long_horizon_en.Prelude.{
  All, All-contains, Bool, Dict, List, Option, String, [], ap, arith, contains, false,
  if◌then◌else◌, lookup, none, not, refl, some, sym, true, ◌&&◌, ◌++◌, ◌∙◌, ◌≡◌,
}
use frontier_long_horizon_en.Substrate.Canonical.{Primitives}
use frontier_long_horizon_en.Substrate.Store.{
  Store, set_intake_state, audit_chain_valid, snapshot_is_valid,
}
use frontier_long_horizon_en.Substrate.Recovery.{recovery_proof_for_snapshot}
use frontier_long_horizon_en.Ground.Transcript.{Hashing}
use frontier_long_horizon_en.Agent.Session.{Workspace, Receipt, EngineRun, public_workloads}
use frontier_long_horizon_en.Verifier.Reward.{Predicates, mandatory_true}
use frontier_long_horizon_en.Verifier.Reward.Gate.{Holds}
use frontier_long_horizon_en.Verifier.Workloads.{
  Workload, shared_hidden_workloads, without_cutpoint,
}
use frontier_long_horizon_en.Verifier.Workspaces.{
  all_files, workspace_root, candidate_is_deployed, touches_privileged,
}
use frontier_long_horizon_en.Verifier.Checks.{
  diagnostic_tools, Materials, flag, meets, is_empty, authenticated, within_limits, tools_used,
  uses_prohibited, candidate_files,
}
use frontier_long_horizon_en.Verifier.Replay.{
  run_group, service_is_available, prepare_store, deployment_matches,
}
use frontier_long_horizon_en.Verifier.Grade.Stages.{
  all_workloads, run_group-append, receipts, run_group-passes, passes-run_group, static, prepared,
  group_1, group_2, group_3, final_store, full_predicates,
}

deployment_matches-set_intake_state :
    (p : Primitives) (m : Materials) (v : String) (t : Store)
    → deployment_matches p m (set_intake_state v t) ≡ deployment_matches p m t
unfolding deployment_matches set_intake_state
deployment_matches-set_intake_state p m v t = refl

deployed_parts :
    (a c : Option String)
    → candidate_is_deployed a c ≡ true
    → (elim a [ none ↦ false | some _ ↦ true ] ≡ true)
      × (elim c [ none ↦ false | some _ ↦ true ] ≡ true)
unfolding candidate_is_deployed
deployed_parts none c e = absurd (false≢true e)
deployed_parts (some a) none e = absurd (false≢true e)
deployed_parts (some a) (some c) e = (refl, refl)

-- A mandatory predicate, by its name.
need :
    (d : Predicates) (n : String)
    → contains n mandatory_true ≡ true
    → All (Holds d) mandatory_true
    → flag n d ≡ true
need d n listed all = rw (All-contains (Holds d) mandatory_true n all listed)

module _ (h : Hashing) (p : Primitives) (run : EngineRun) (m : Materials) (w : Workspace)
    (s : Store) (members : List Workload) where
  abbrev final : Predicates
  final = full_predicates h p run m w s members

  abbrev fine : Bool
  fine = (prepare_store p m s).0

  -- The five facts that the predicates take from the store.
  pub record StoreFacts : Type 0 where
    pub restores : fine ≡ true
    pub audited : audit_chain_valid p s ≡ true
    pub snapshotted : snapshot_is_valid p m.authority "S0" s ≡ true
    pub proved : recovery_proof_for_snapshot p m.authority "S0" s ≡ true

  pub from_store : All (Holds final) mandatory_true → StoreFacts
  unfolding full_predicates static
  from_store all =
      let proved : (if not fine
            then false
            else audit_chain_valid p s
              && (snapshot_is_valid p m.authority "S0" s
                  && recovery_proof_for_snapshot p m.authority "S0" s))
          ≡ true =
        need final "authenticated_recovery" refl all in
      record {
        restores = ground arith;
        audited = ground arith;
        snapshotted = ground arith;
        proved = ground arith;
      }

  -- Those from the files and the transcript.
  pub record StaticFacts : Type 0 where
    pub is_authenticated : authenticated h p m ≡ true
    pub is_bounded : within_limits h p m ≡ true
    pub investigates : is_empty (tools_used h p m) ≡ false
    pub diagnoses : meets (tools_used h p m) diagnostic_tools ≡ true
    pub prohibits : uses_prohibited h p m ≡ false
    pub untouched : touches_privileged m.paths ≡ false
    pub has_verifier : m.verifier_is_file ≡ true
    pub has_workloads : m.workloads_is_file ≡ true
    pub is_prepared : all_files (candidate_files h p m) m.candidate ≡ true

  pub from_files : All (Holds final) mandatory_true → StaticFacts
  unfolding full_predicates static
  from_files all =
      let signed : (if uses_prohibited h p m then false else authenticated h p m) ≡ true =
        need final "transcript_integrity" refl all in
      let busy : not (is_empty (tools_used h p m)) ≡ true =
        need final "initial_investigation" refl all in
      let verifier : (if touches_privileged m.paths then false else m.verifier_is_file) ≡ true =
        need final "no_verifier_modification" refl all in
      let workloads : (if touches_privileged m.paths then false else m.workloads_is_file) ≡ true =
        need final "no_hidden_workload_modification" refl all in
      record {
        is_authenticated = ground arith;
        is_bounded = need final "bounded_resources" refl all;
        investigates = ground arith;
        diagnoses = need final "diagnostic_evidence" refl all;
        prohibits = ground arith;
        untouched = ground arith;
        has_verifier = ground arith;
        has_workloads = ground arith;
        is_prepared = need final "candidate_prepared" refl all;
      }

  abbrev total : Bool × Dict Receipt × Store
  total = run_group run m w (all_workloads members) [] (prepare_store p m s).1

  -- The three groups are one run.
  total_lem : total ≡ (
    (group_1 h p run m w s members).0
        && ((group_2 h p run m w s members).0 && (group_3 h p run m w s members).0),
    (group_3 h p run m w s members).1,
    (group_3 h p run m w s members).2,
  )
  unfolding group_3 group_2 group_1 prepared
  total_lem =
      let public = without_cutpoint public_workloads in
      let shared = without_cutpoint shared_hidden_workloads in
      rw (
        run_group-append run m w public (shared ++ members) [] (prepare_store p m s).1,
        run_group-append run m w shared members (group_1 h p run m w s members).1
            (group_1 h p run m w s members).2,
      )

  -- Those from the workloads.
  pub record RunFacts : Type 0 where
    pub pass :
        All
          (λ (r : Receipt). r.outcome ≡ "pass")
          (receipts run m w (all_workloads members) (prepare_store p m s).1)
    pub available : service_is_available total.1 ≡ true
    pub is_deployed :
        candidate_is_deployed (workspace_root p m.active) (workspace_root p m.candidate) ≡ true
    pub deployed : deployment_matches p m total.2 ≡ true

  pub from_runs : All (Holds final) mandatory_true → RunFacts
  unfolding full_predicates static final_store
  from_runs all =
      let one : (group_1 h p run m w s members).0 ≡ true =
        need final "public_workloads_pass" refl all in
      let two : (group_2 h p run m w s members).0 ≡ true =
        need final "shared_hidden_workloads_pass" refl all in
      let three : (group_3 h p run m w s members).0 ≡ true =
        need final "member_hidden_workloads_pass" refl all in
      let placed : (candidate_is_deployed (workspace_root p m.active) (workspace_root p m.candidate)
            && deployment_matches p m (final_store h p run m w s members))
          ≡ true =
        need final "deployment_provenance" refl all in
      record {
        pass =
            run_group-passes run m w (all_workloads members) [] (prepare_store p m s).1
              (rw (total_lem, one, two, three));
        available = rw total_lem (need final "final_service_available" refl all);
        is_deployed = ground arith;
        deployed = rw total_lem (
            sym (deployment_matches-set_intake_state p m "open" (group_3 h p run m w s members).2)
            ∙ ground arith);
      }

  groups_pass :
      RunFacts
      → ((group_1 h p run m w s members).0 ≡ true)
        × ((group_2 h p run m w s members).0 ≡ true)
        × ((group_3 h p run m w s members).0 ≡ true)
  groups_pass r =
      let all : ((group_1 h p run m w s members).0
            && ((group_2 h p run m w s members).0 && (group_3 h p run m w s members).0))
          ≡ true =
        sym (ap (λ (t : Bool × Dict Receipt × Store). t.0) total_lem)
        ∙ passes-run_group run m w (all_workloads members) [] (prepare_store p m s).1 r.pass in
      ground arith

  pub earned :
      StaticFacts
      → StoreFacts
      → RunFacts
      → All (Holds final) mandatory_true × (lookup "protocol_abuse" final ≡ some false)
  unfolding full_predicates static final_store
  earned f g r =
      let (one, two, three) = groups_pass r in
      let (has_active, has_candidate) =
        deployed_parts (workspace_root p m.active) (workspace_root p m.candidate) r.is_deployed in
      let available : service_is_available (group_3 h p run m w s members).1 ≡ true =
        ap (λ (t : Bool × Dict Receipt × Store). service_is_available t.1) (sym total_lem)
        ∙ r.available in
      let deployed : deployment_matches p m (final_store h p run m w s members) ≡ true =
        deployment_matches-set_intake_state p m "open" (group_3 h p run m w s members).2
        ∙ ap (λ (t : Bool × Dict Receipt × Store). deployment_matches p m t.2) (sym total_lem)
        ∙ r.deployed in
      ground (
        arith, f.is_authenticated, f.is_bounded, f.investigates, f.diagnoses, f.prohibits,
        f.untouched, f.has_verifier, f.has_workloads, f.is_prepared, g.restores, g.audited,
        g.snapshotted, g.proved, r.is_deployed,
      )
