-- ===== src/Agent/Probes/Hidden.antt =====
-- `_run_hidden_workload` of `RuntimeEngine` (src/agent_surface/runtime.py): which name runs which
-- workload. Proofs are in the modules below.
pub mod Contract
pub mod Kept
use frontier_long_horizon_en.Prelude.{ℕ, String, List, [], ◌∷◌, ◌==◌, if◌then◌else◌, join, ok, err}
use frontier_long_horizon_en.Substrate.Canonical.{Primitives}
use frontier_long_horizon_en.Agent.Runtime.{tool_error, Run, M}
use frontier_long_horizon_en.Agent.Flow.{Flow}
use frontier_long_horizon_en.Agent.Workloads.{WorkloadReceipt}
use frontier_long_horizon_en.Agent.Probes.Effects.{run_a1, run_a2, run_a3, run_a4}
use frontier_long_horizon_en.Agent.Probes.Commands.{run_b1, run_b2, run_b3, run_b4}
use frontier_long_horizon_en.Agent.Probes.Recovered.{run_s1, run_s2, run_trans, run_s3}

module _ (p : Primitives) (f : Flow) where
  abbrev pub Branch : Type 0
  Branch = String × (String → ℕ → M WorkloadReceipt)

  abbrev pub branches : List Branch
  branches =
      ("H-A1", run_a1 p f)
      ∷ ("H-A2", run_a2 p f)
      ∷ ("H-B1", run_b1 p f)
      ∷ ("H-B2", run_b2 p f)
      ∷ ("H-A3", run_a3 p f)
      ∷ ("H-A4", run_a4 p f)
      ∷ ("H-B3", run_b3 p f)
      ∷ ("H-B4", run_b4 p f)
      ∷ ("H-S1", run_s1 p f)
      ∷ ("H-S2", run_s2 p f)
      ∷ ("H-TRANS", run_trans p f)
      ∷ ("H-S3", run_s3 p f)
      ∷ []

  -- The chain of tests on the name.
  unfoldable pub run_branch : List Branch → String → ℕ → M WorkloadReceipt
  run_branch [] active_config_root budget r =
      (err (tool_error (join ("unsupported hidden workload " ∷ r.workload_id ∷ []))), r)
  run_branch ((name, workload) ∷ bs) active_config_root budget r =
      if r.workload_id == name
      then workload active_config_root budget r
      else run_branch bs active_config_root budget r

  unfoldable pub run_hidden_workload : String → ℕ → M WorkloadReceipt
  unfolding run_branch
  run_hidden_workload = run_branch branches
