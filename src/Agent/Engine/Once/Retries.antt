-- ===== src/Agent/Engine/Once/Retries.antt =====
-- `RuntimeEngine` (src/agent_surface/runtime.py) with a flow whose stages keep the rows unique: the
-- retries after a cutpoint or a transient failure do not duplicate.
use frontier_long_horizon_en.Prelude.{ℕ, String, Bool}
use frontier_long_horizon_en.Substrate.Canonical.{Primitives}
use frontier_long_horizon_en.Agent.Runtime.{Command, Run}
use frontier_long_horizon_en.Agent.Methods.{service_of}
use frontier_long_horizon_en.Agent.Flow.{logical_identity_flow}
use frontier_long_horizon_en.Agent.Engine.{accept_command, deliver_event}
use frontier_long_horizon_en.Agent.Engine.Once.{IsOnce}
use frontier_long_horizon_en.Agent.Engine.Once.Stages.{OnceIn, logical_identity_flow-KeepsOnce}
use frontier_long_horizon_en.Agent.Engine.Kept.{accept_command-Kept, deliver_event-Kept}

-- In the repaired flow, from a run with at most one journal row for each command and occurrence,
-- at most one effect for each event and key, and no empty id, the acceptance of a command, its
-- retry after a cutpoint included, leaves such a run.
pub accept_command-IsOnce :
    (p : Primitives) (c : Command) (r : Run)
    → IsOnce (service_of r)
    → IsOnce (service_of (accept_command (logical_identity_flow p) c r).1)
accept_command-IsOnce p c =
    (accept_command-Kept OnceIn p (logical_identity_flow p) (logical_identity_flow-KeepsOnce p)
      c).at

-- In the repaired flow, from a run with at most one journal row for each command and occurrence,
-- at most one effect for each event and key, and no empty id, a delivery leaves such a run,
-- whatever cutpoints, restarts, transient failures and retries it goes through and whether it
-- returns or raises.
pub deliver_event-IsOnce :
    (p : Primitives) (i : String) (n budget : ℕ) (retry : Bool) (r : Run)
    → IsOnce (service_of r)
    → IsOnce (service_of (deliver_event p (logical_identity_flow p) i n budget retry r).1)
deliver_event-IsOnce p i n budget retry =
    (deliver_event-Kept OnceIn p (logical_identity_flow p) (logical_identity_flow-KeepsOnce p) i n
      budget retry).at
