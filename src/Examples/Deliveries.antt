-- ===== src/Examples/Deliveries.antt =====
-- The theorems on `RuntimeEngine` (src/agent_surface/runtime.py) at a new run and a command.
use frontier_long_horizon_en.Prelude.{◌≢◌, true, false, none, some, [], arith}
use frontier_long_horizon_en.Substrate.Store.{initialize}
use frontier_long_horizon_en.Agent.Runtime.{Command, Run}
use frontier_long_horizon_en.Agent.Methods.{service_of}
use frontier_long_horizon_en.Agent.Flow.{template_flow, logical_identity_flow}
use frontier_long_horizon_en.Agent.Engine.{accept_command, deliver_loop, deliver_event}
use frontier_long_horizon_en.Agent.Engine.Termination.{deliver_loop_returns}
use frontier_long_horizon_en.Agent.Engine.Flows.{template_flow-CutsOnce}
use frontier_long_horizon_en.Agent.Engine.Once.{IsOnce}
use frontier_long_horizon_en.Agent.Engine.Once.Retries.{accept_command-IsOnce, deliver_event-IsOnce}
use frontier_long_horizon_en.Examples.Instances.{spelled}

abbrev command : Command
command = record { command_key = "K-1"; occurrence_id = "occ-1"; alias = "canary"; amount = "100" }

-- A run of profile 1 whose cutpoint at the end of s2 is pending.
abbrev pub cut_run : Run
cut_run = record {
  store = initialize;
  workload_id = "w-1";
  cutpoint = some "s2.exit";
  alias = "canary";
  handle = "handle";
  start_tick = 40;
  attempts = [];
  cutpoint_triggered = false;
  s2_cutpoint_pending = true;
  s5_cutpoint_pending = true;
  transient_pending = true;
  selectors = [];
}

pub new-IsOnce : IsOnce (service_of cut_run)
new-IsOnce = record {
  commands = λ k o. omega arith;
  effects = λ i k. omega arith;
  events_named = tt;
  effects_named = tt;
}

accepted-IsOnce :
    IsOnce (service_of (accept_command (logical_identity_flow spelled) command cut_run).1)
accepted-IsOnce = accept_command-IsOnce spelled command cut_run new-IsOnce

abbrev accepted : Run
accepted = (accept_command (logical_identity_flow spelled) command cut_run).1

deliver_event-IsOnce_example :
    IsOnce (
      service_of
        (deliver_event spelled (logical_identity_flow spelled) "evt_1" 1 2 true accepted).1)
deliver_event-IsOnce_example =
    deliver_event-IsOnce spelled "evt_1" 1 2 true accepted accepted-IsOnce

deliver_loop_returns_example :
    deliver_loop spelled (template_flow spelled) 6 "evt_1" 1 2 true 0 cut_run ≢ none
deliver_loop_returns_example =
    deliver_loop_returns spelled (template_flow spelled) (template_flow-CutsOnce spelled) 6 "evt_1"
      1 2 true 0 cut_run (omega arith)
