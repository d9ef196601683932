-- ===== src/Agent/Tools.antt =====
-- The tools of `AgentSession` (src/agent_surface/session.py) that change the session, each with its
-- guards in the order of the source. `recovery_restore` takes the store as it stands for the last
-- commit: the writes of a run that raised count as kept. Proofs are in the modules below.
pub mod Guards
pub mod Served
pub mod Passes
pub mod Restoring
use frontier_long_horizon_en.Prelude.{
  ℕ, ◌+◌, String, Bool, true, false, not, ◌&&◌, Option, none, some, List, [], ◌∷◌, ◌++◌, length,
  ◌==◌, if◌then◌else◌, Dict, lookup, insert, contains, Result, ok, err,
}
use frontier_long_horizon_en.Substrate.Tables.{DeploymentRow}
use frontier_long_horizon_en.Substrate.Canonical.{Primitives, FileEntry, tree_entries, digest}
use frontier_long_horizon_en.Substrate.Authority.{RecoveryAuthority}
use frontier_long_horizon_en.Substrate.Store.{
  Store, advance, set_intake_state, append_telemetry, append_audit, state_root, deployment_root,
  pause_intake,
}
use frontier_long_horizon_en.Substrate.Recovery.{restore_snapshot, recovery_provenance_exists}
use frontier_long_horizon_en.Agent.Session.{
  Workspace, config_file, code_files, read_bytes, Receipt, Session, ToolError, Tool, EngineCall,
  EngineRun, public_workloads, all_public, passes_at, remove, message_of, active_revision_label,
  find_revisions, set_available, activate_at, activate, replace_artifact,
}

-- The calls that change a session.
pub data Action : Type 0 where
  edit : Option String → List ℕ → Action
  run_workload : String → Option String → Action
  pause : Action
  restore : String → Action
  rollback : String → Action
  deploy : Action
  resume : Action

-- `_require_intake_paused`, in front of the rest of a tool.
abbrev pub when_paused : {A : Type 0} → Tool A → Tool A
when_paused rest s =
    if not (s.store.intake_state == "paused") then (err "intake must be paused", s) else rest s

-- `_write_metadata` reads the label, which raises if no revision is the only active one.
abbrev pub after_metadata :
    {A : Type 0} → Result ToolError String → A → Session → Result ToolError A × Session
after_metadata (err e) a s = (err e, s)
after_metadata (ok _) a s = (ok a, record s { trace_epoch = s.trace_epoch + 1 })

module _ (p : Primitives) where
  entries_of : List String → Workspace → List FileEntry
  unfolding read_bytes
  entries_of [] w = []
  entries_of (f ∷ fs) w =
      let bytes = read_bytes f w in
      record { path = f; size = length bytes; digest_text = digest p "file-v1" bytes }
      ∷ entries_of fs w

  -- `tree_root` over `CODE_FILES`
  unfoldable pub workspace_root : Workspace → String
  unfolding entries_of
  workspace_root w = digest p "tree-v1" (p.canonical_json (tree_entries (entries_of code_files w)))

  unfoldable pub config_root : Workspace → String
  unfolding read_bytes
  config_root w = digest p "config-v1" (read_bytes config_file w)

  -- `workspace.edit`, from the path that `_resolve_path` makes of the argument: `none` if its test
  -- fails.
  unfoldable pub workspace_edit : Option String → List ℕ → Tool (String × String)
  unfolding workspace_root config_root
  workspace_edit none bytes s = (err "path outside workspace", s)
  workspace_edit (some path) bytes s =
      let edited = insert path bytes s.candidate in
      (ok (workspace_root edited, config_root edited), record s { candidate = edited })

  -- What `runtime_run` keeps of a receipt.
  unfoldable pub record_receipt : String → Receipt → Session → Session
  record_receipt root r s =
      let passes = passes_at root s.public_workload_pass in
      record s {
        workload_history = s.workload_history ++ r ∷ [];
        public_workload_pass =
            if contains r.workload_id public_workloads && (r.outcome == "pass")
            then insert root
                (if contains r.workload_id passes then passes else r.workload_id ∷ passes)
                s.public_workload_pass
            else s.public_workload_pass;
      }

  unfoldable pub keep_run :
      Session → Result ToolError Receipt × Store → Result ToolError Receipt × Session
  unfolding record_receipt config_root
  keep_run s (err e, store) = (err e, record s { store = store })
  keep_run s (ok r, store) =
      (ok r, record_receipt (config_root s.active) r (record s { store = store }))

  unfoldable pub starts_hidden : String → Bool
  starts_hidden (String.◌∷◌ c (String.◌∷◌ d rest)) = String.◌∷◌ c (String.◌∷◌ d String.[]) == "H-"
  starts_hidden _ = false

  module _ (run : EngineRun) where
    unfoldable pub call_of : String → Option String → Session → EngineCall
    call_of workload_id cutpoint s = record {
      workspace = s.active;
      session_id = s.session_id;
      trace_epoch = s.trace_epoch;
      workload_id = workload_id;
      cutpoint = cutpoint;
      run_id = length s.workload_history;
    }

    unfoldable pub run_with : String → Option String → Tool Receipt
    unfolding keep_run call_of
    run_with workload_id cutpoint s = keep_run s (run (call_of workload_id cutpoint s) s.store)

    unfoldable pub run_checked : String → Option String → Tool Receipt
    unfolding run_with starts_hidden
    run_checked workload_id cutpoint s =
        if starts_hidden workload_id
        then (err "unknown workload or missing cutpoint", s)
        else run_with workload_id cutpoint s

    unfoldable pub runtime_run : String → Option String → Tool Receipt
    unfolding run_checked
    runtime_run workload_id cutpoint = when_paused (run_checked workload_id cutpoint)

  module _ (a : RecoveryAuthority) where
    unfoldable pub recovery_pause : Tool ℕ
    unfolding pause_intake
    recovery_pause s =
        let (result, store) = pause_intake p a s.store in
        elim result [
          | err e ↦ (err (message_of e), record s { store = store })
          | ok tick ↦ (ok tick, record s { store = store })
        ]

    unfoldable pub restore_with : String → Tool String
    unfolding restore_snapshot config_root remove
    restore_with snapshot_id s =
        let (result, store) = restore_snapshot p a snapshot_id s.store in
        elim result [
          | err e ↦ (err (message_of e), record s { store = store })
          | ok root ↦ (
            ok root,
            record s {
              store = store;
              public_workload_pass = remove (config_root s.active) s.public_workload_pass;
              trace_epoch = s.trace_epoch + 1;
            },
          )
        ]

    unfoldable pub recovery_restore : String → Tool String
    unfolding restore_with
    recovery_restore snapshot_id = when_paused (restore_with snapshot_id)

  unfoldable pub rollback_to : DeploymentRow → Tool (String × String)
  unfolding advance set_available activate_at append_audit deployment_root active_revision_label
      workspace_root config_root
  rollback_to row s =
      if not (digest p "config-v1" row.config_bytes == row.config_root)
      then (err "config root mismatch", s)
      else let active = insert config_file row.config_bytes s.initial in
        let ticked = advance s.store in
        let moved : Store = record ticked {
          deployments =
              activate_at row.revision ticked.fake_tick (set_available s.store.deployments);
        } in
        let audited =
          append_audit p "deployment_rollback" (deployment_root p moved) "operator" moved.fake_tick
            moved in
        after_metadata (active_revision_label audited) (workspace_root active, config_root active)
          (record s { store = audited; active = active })

  unfoldable pub rollback_one : List DeploymentRow → Tool (String × String)
  unfolding rollback_to
  rollback_one (row ∷ []) s = rollback_to row s
  rollback_one _ s = (err "unknown revision", s)

  unfoldable pub rollback_checked : String → Tool (String × String)
  unfolding rollback_one find_revisions
  rollback_checked revision s =
      if not (contains revision ("r0" ∷ "r1" ∷ []))
      then (err "rollback supports r0 or r1", s)
      else rollback_one (find_revisions revision s.store.deployments) s

  unfoldable pub release_rollback : String → Tool (String × String)
  unfolding rollback_checked
  release_rollback revision = when_paused (rollback_checked revision)

  unfoldable pub deploy_candidate : Tool (String × String)
  unfolding advance set_available activate replace_artifact append_audit deployment_root
      active_revision_label workspace_root config_root read_bytes
  deploy_candidate s =
      let source = workspace_root s.candidate in
      let config = config_root s.candidate in
      if (source == workspace_root s.active) && (config == config_root s.active)
      then (err "no candidate changes to deploy", s)
      else let ticked = advance s.store in
        let moved : Store = record ticked {
          deployments = activate "candidate" (
              set_available (
                replace_artifact "candidate" source config (read_bytes config_file s.candidate)
                  ticked.fake_tick s.store.deployments));
        } in
        let audited =
          append_audit p "deployment_activate" (deployment_root p moved) "operator" moved.fake_tick
            moved in
        after_metadata (active_revision_label audited) (source, config)
          (record s { store = audited; active = s.candidate })

  unfoldable pub release_deploy : Tool (String × String)
  unfolding deploy_candidate
  release_deploy = when_paused deploy_candidate

  -- The public workloads that passed under the active configuration.
  unfoldable pub all_public_pass : Session → Bool
  unfolding all_public config_root
  all_public_pass s = all_public (passes_at (config_root s.active) s.public_workload_pass)

  -- The field `incident` of `release_status`.
  unfoldable pub incident : Session → String
  unfolding all_public_pass
  incident s = if (s.store.intake_state == "open") && all_public_pass s then "closed" else "open"

  -- Without the guards: the writes of `recovery_resume`.
  unfoldable pub resumed : Store → Store
  unfolding advance set_intake_state append_audit append_telemetry
  resumed s =
      let opened = set_intake_state "open" (advance s) in
      append_telemetry opened.fake_tick "control" "intake resumed"
        (append_audit p "intake_resume" (state_root p opened) "operator" opened.fake_tick opened)

  module _ (a : RecoveryAuthority) where
    unfoldable pub resume_labelled : Result ToolError String → Tool ℕ
    unfolding recovery_provenance_exists all_public_pass resumed advance active_revision_label
    resume_labelled (err e) s = (err e, s)
    resume_labelled (ok label) s =
        if not (label == "candidate")
        then (err "resume requires a deployed candidate", s)
        else if not (recovery_provenance_exists p a s.store)
        then (err "recovery provenance missing", s)
        else if not (all_public_pass s)
        then (err "public workloads not passed", s)
        else after_metadata (active_revision_label (resumed s.store)) (advance s.store).fake_tick
            (record s { store = resumed s.store })

    unfoldable pub resume_checked : Tool ℕ
    unfolding resume_labelled active_revision_label
    resume_checked s = resume_labelled (active_revision_label s.store) s

    unfoldable pub recovery_resume : Tool ℕ
    unfolding resume_checked
    recovery_resume = when_paused resume_checked

    -- A call of one of these tools, and the session that it leaves.
    module _ (run : EngineRun) where
      unfoldable pub perform : Action → Session → Session
      unfolding workspace_edit runtime_run recovery_pause recovery_restore release_rollback
          release_deploy recovery_resume
      perform (edit path bytes) s = (workspace_edit path bytes s).1
      perform (run_workload workload_id cutpoint) s = (runtime_run run workload_id cutpoint s).1
      perform pause s = (recovery_pause a s).1
      perform (restore snapshot_id) s = (recovery_restore a snapshot_id s).1
      perform (rollback revision) s = (release_rollback revision s).1
      perform deploy s = (release_deploy s).1
      perform resume s = (recovery_resume s).1

      -- A sequence of calls, from the left.
      unfoldable pub perform_all : List Action → Session → Session
      unfolding perform
      perform_all [] s = s
      perform_all (x ∷ xs) s = perform_all xs (perform x s)
