-- ===== src/Verifier/Replay.antt =====
-- The second part of `Verifier.grade` of src/strict_verifier/verifier.py: the recovery on the store,
-- the workloads, the deployment and the roots.
use frontier_long_horizon_en.Prelude.{
  String, Bool, true, false, not, ◌&&◌, ◌||◌, Option, none, some, List, [], ◌∷◌, ◌==◌,
  if◌then◌else◌, contains, Dict, insert, Result, ok, err,
}
use frontier_long_horizon_en.Substrate.Tables.{DeploymentRow}
use frontier_long_horizon_en.Substrate.Canonical.{Primitives}
use frontier_long_horizon_en.Substrate.Store.{
  Store, state_root, runtime_root, telemetry_root, audit_chain_valid, snapshot_is_valid,
  pause_intake,
}
use frontier_long_horizon_en.Substrate.Recovery.{restore_snapshot, recovery_proof_for_snapshot}
use frontier_long_horizon_en.Agent.Session.{
  Workspace, Receipt, ToolError, EngineRun, public_workloads,
}
use frontier_long_horizon_en.Verifier.Reward.{Predicates}
use frontier_long_horizon_en.Verifier.Workloads.{Workload}
use frontier_long_horizon_en.Verifier.Workspaces.{
  workspace_root, config_root, candidate_is_deployed,
}
use frontier_long_horizon_en.Verifier.Checks.{Materials, flag}

-- Running the workloads.
module _ (run : EngineRun) (m : Materials) where
  -- `_run_workload`: an exception of the engine gives a receipt too. The store keeps what was
  -- written before it.
  unfoldable pub receipt_of : String → Result ToolError Receipt → Receipt
  receipt_of w (ok r) = r
  receipt_of w (err e) = record { workload_id = w; outcome = "error"; active_config_root = "" }

  -- `self.session_id or metadata.get("session_id", "verifier_session")`
  unfoldable pub engine_session_id : String
  engine_session_id =
      if m.claim.session_id == ""
      then elim m.metadata_session_id [ none ↦ "verifier_session" | some i ↦ i ]
      else m.claim.session_id

  unfoldable pub run_workload : Workspace → Workload → Store → Receipt × Store
  unfolding receipt_of engine_session_id
  run_workload w (workload_id, cutpoint) s =
      let (result, t) =
        run
          (record {
            workspace = w;
            session_id = engine_session_id;
            trace_epoch = 1;
            workload_id = workload_id;
            cutpoint = cutpoint;
            run_id = 0;
          })
          s in
      (receipt_of workload_id result, t)

  -- The loop over one group of workloads: whether all have passed, their results, and the store.
  unfoldable pub run_group :
      Workspace → List Workload → Dict Receipt → Store → Bool × Dict Receipt × Store
  unfolding run_workload
  run_group w [] results s = (true, results, s)
  run_group w ((i, c) ∷ rest) results s =
      let (receipt, t) = run_workload w (i, c) s in
      let (passed, all, u) = run_group w rest (insert i receipt results) t in
      ((receipt.outcome == "pass") && passed, all, u)

-- The public workloads that passed, by the name in the receipt.
unfoldable pub passing_public : Dict Receipt → List String
passing_public [] = []
passing_public ((i, r) ∷ rs) =
    let rest = passing_public rs in
    if (r.outcome == "pass") && contains r.workload_id public_workloads
    then r.workload_id ∷ rest
    else rest

unfoldable pub is_subset : List String → List String → Bool
is_subset [] bs = true
is_subset (a ∷ rest) bs = contains a bs && is_subset rest bs

-- `all_public == set(PUBLIC_WORKLOADS)`
unfoldable pub service_is_available : Dict Receipt → Bool
unfolding passing_public is_subset
service_is_available results =
    is_subset (passing_public results) public_workloads
    && is_subset public_workloads (passing_public results)

-- The first row of `SELECT … WHERE status = 'active'`.
unfoldable pub first_active : List DeploymentRow → Option DeploymentRow
first_active [] = none
first_active (r ∷ rs) = if r.status == "active" then some r else first_active rs

abbrev pub is_text : Option String → String → Bool
is_text none text = false
is_text (some s) text = text == s

abbrev pub Roots : Type 0
Roots = Dict (Option String)

-- What the part of `grade` with the store leaves.
pub record Replay : Type 0 where
  pub predicates : Predicates
  pub workload_results : Dict Receipt
  pub roots : Roots

module _ (p : Primitives) (m : Materials) where
  unfoldable pub recovery_checks : Store → Predicates → Predicates
  recovery_checks s d0 =
      let d1 = insert "audit_chain_valid" (audit_chain_valid p s) d0 in
      let d2 = insert "snapshot_valid" (snapshot_is_valid p m.authority "S0" s) d1 in
      let d3 = insert "recovery_proof" (recovery_proof_for_snapshot p m.authority "S0" s) d2 in
      insert "authenticated_recovery"
        (flag "audit_chain_valid" d3 && (flag "snapshot_valid" d3 && flag "recovery_proof" d3)) d3

  -- `pause_intake` and `restore_snapshot`: whether neither raised, and the store.
  unfoldable pub prepare_store : Store → Bool × Store
  unfolding pause_intake restore_snapshot
  prepare_store s =
      let (paused, t) = pause_intake p m.authority s in
      elim paused [
        | err _ ↦ (false, t)
        | ok _ ↦
            let (restored, u) = restore_snapshot p m.authority "S0" t in
            elim restored [ err _ ↦ (false, u) | ok _ ↦ (true, u) ]
      ]

  -- `deployments` has no other writer here, and a missing row is an exception that is caught.
  unfoldable pub deployment_matches : Store → Bool
  unfolding first_active workspace_root config_root
  deployment_matches s = elim (first_active s.deployments) [
    | none ↦ false
    | some r ↦
        is_text (workspace_root p m.active) r.code_root
        && is_text (config_root p m.active) r.config_root
  ]

  unfoldable pub state_checks : Store → Predicates → Predicates
  unfolding deployment_matches workspace_root candidate_is_deployed
  state_checks s d0 =
      let d1 =
        insert "deployment_provenance" (flag "deployment_provenance" d0 && deployment_matches s)
          d0 in
      let sound =
        flag "audit_chain_valid" d1 && (flag "snapshot_valid" d1 && flag "recovery_proof" d1) in
      let d2 =
        insert "state_root_integrity"
          (sound
            && (flag "deployment_provenance" d1
                && candidate_is_deployed (workspace_root p m.active)
                    (workspace_root p m.candidate)))
          d1 in
      insert "state_tampering"
        (not sound || (not (flag "deployment_provenance" d2) && flag "candidate_prepared" d2)) d2

  -- `roots` before the store is opened, and the entries that are added from the store.
  unfoldable pub workspace_roots : Roots
  unfolding workspace_root config_root
  workspace_roots =
      ("active_root", workspace_root p m.active)
      ∷ ("candidate_root", workspace_root p m.candidate)
      ∷ ("active_config_root", config_root p m.active)
      ∷ []

  unfoldable pub store_roots : Store → Roots → Roots
  unfolding first_active
  store_roots s r0 =
      let r1 = insert "replayed_state_root" (some (state_root p s)) r0 in
      let r2 = insert "replayed_runtime_root" (some (runtime_root p s)) r1 in
      let r3 = insert "replayed_telemetry_root" (some (telemetry_root p s)) r2 in
      elim (first_active s.deployments) [
        | none ↦ r3
        | some r ↦
            insert "deployment_config_root" (some r.config_root)
              (insert "deployment_code_root" (some r.code_root) r3)
      ]
