-- ===== src/Agent/Tools/Served.antt =====
-- The session's calls of the engine (`runtime_run` of src/agent_surface/session.py) with the engine
-- of src/agent_surface/runtime.py, for workspaces that hold a flow of the repository.
use frontier_long_horizon_en.Prelude.{ℕ, ◌≡◌, refl, ap, true, List, Result, ok, err}
use frontier_long_horizon_en.Substrate.Canonical.{Primitives}
use frontier_long_horizon_en.Substrate.Authority.{RecoveryAuthority}
use frontier_long_horizon_en.Substrate.Recovery.{recovery_provenance_exists}
use frontier_long_horizon_en.Agent.Runtime.{Stop, tool_error}
use frontier_long_horizon_en.Agent.Flow.{Policy, flow_of}
use frontier_long_horizon_en.Agent.Engine.Frame.{Outside}
use frontier_long_horizon_en.Agent.Trace.{Codecs, TraceAuthority}
use frontier_long_horizon_en.Agent.Session.{
  Workspace, Receipt, Session, ToolError, EngineCall, EngineRun, active_revision_label,
}
use frontier_long_horizon_en.Agent.Tools.{Action, perform_all, config_root, all_public_pass}
use frontier_long_horizon_en.Agent.Tools.Guards.{KeepsIntake, intake_opens_earned}
use frontier_long_horizon_en.Agent.Workloads.{WorkloadReceipt}
use frontier_long_horizon_en.Agent.Runs.{Settings, Engine, run}
use frontier_long_horizon_en.Agent.Runs.Effects.{outside-run}

-- What the caller of the tool reads of an exception; one that is no ToolError is not passed on.
unfoldable pub stop_text : Stop → ToolError
stop_text (tool_error message) = message
stop_text _ = "tool execution failed"

unfoldable pub as_receipt : Result Stop WorkloadReceipt → Result ToolError Receipt
unfolding stop_text
as_receipt (err stop) = err (stop_text stop)
as_receipt (ok w) = ok (record {
  workload_id = w.workload_id;
  outcome = w.outcome;
  active_config_root = w.active_config_root;
})

module _ (p : Primitives) (x : Codecs) (profile : ℕ) (trace_authority : TraceAuthority)
    (settings_in : Workspace → Settings) (policy_in : Workspace → Policy) where
  -- The engine that `runtime_run` makes.
  unfoldable pub engine_of : EngineCall → Engine
  unfolding config_root flow_of
  engine_of c = record {
    profile = profile;
    trace_authority = trace_authority;
    session_id = c.session_id;
    trace_epoch = c.trace_epoch;
    active_config_root = config_root p c.workspace;
    settings = settings_in c.workspace;
    service = ok (flow_of p (policy_in c.workspace));
  }

  unfoldable pub served : EngineRun
  unfolding engine_of as_receipt run
  served c s =
      let (result, store) = run p x (engine_of c) c.workload_id c.cutpoint c.run_id s in
      (as_receipt result, store)

  served-KeepsIntake : KeepsIntake served
  unfolding served engine_of
  served-KeepsIntake = record {
    kept = λ c s.
        ap (λ (o : Outside). o.intake_state)
          (outside-run p x (engine_of c) (policy_in c.workspace) c.workload_id c.cutpoint c.run_id s
            refl);
  }

  -- With the engine of the repository, whatever settings the workspaces hold, and whichever flow
  -- of the repository each of them holds: from a paused session, whatever calls follow, the intake
  -- is open only if the latest recovery proof authenticates, the candidate is the one active
  -- revision, and the three public workloads have passed under the active configuration.
  pub served_intake_opens_earned :
      (a : RecoveryAuthority) (xs : List Action) (s : Session)
      → s.store.intake_state ≡ "paused"
      → (perform_all p a served xs s).store.intake_state ≡ "open"
      → (recovery_provenance_exists p a (perform_all p a served xs s).store ≡ true)
        × (active_revision_label (perform_all p a served xs s).store ≡ ok "candidate")
        × (all_public_pass p (perform_all p a served xs s) ≡ true)
  served_intake_opens_earned a xs s paused opened =
      intake_opens_earned p a served served-KeepsIntake xs s paused opened
