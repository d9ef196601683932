-- ===== src/Examples/Passing.antt =====
-- A passing workload (src/agent_surface/runtime.py), run on an empty store after a transient failure.
use frontier_long_horizon_en.Prelude.{◌≡◌, refl, none, true, ok, arith, inr}
use frontier_long_horizon_en.Substrate.Store.{initialize}
use frontier_long_horizon_en.Agent.Runtime.{Run, new_run}
use frontier_long_horizon_en.Agent.Flow.{logical_identity_flow}
use frontier_long_horizon_en.Agent.Workloads.{WorkloadReceipt, run_public_workload}
use frontier_long_horizon_en.Agent.Workloads.Passing.{repaired_flow_passes}
use frontier_long_horizon_en.Examples.Instances.{spelled}

repaired_flow_passes_example :
    (w : WorkloadReceipt) × (r : Run) × (run_public_workload spelled
        (logical_identity_flow spelled)
        "root"
        3
        (new_run initialize 0 none "P2" "Q-41" "handle" true)
      ≡ (ok w, r))
    × (w.outcome ≡ "pass")
repaired_flow_passes_example =
    repaired_flow_passes spelled "root" 3 initialize 0 "P2" "Q-41" "handle" true (omega arith) refl
      refl (inr refl)
