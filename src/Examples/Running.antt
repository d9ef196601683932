-- ===== src/Examples/Running.antt =====
-- The theorems on runs, hidden workloads and diagnostics (src/agent_surface/runtime.py) at a store
-- without rows.
use frontier_long_horizon_en.Substrate.Canonical.{digest}
use frontier_long_horizon_en.Agent.Methods.{
  prepare, get_event_id, append, register, payload_hash, new_event_id, load, effect_by_key, settle,
  advance_cursor, new_effect_id,
}
use frontier_long_horizon_en.Agent.Probes.Effects.{run_a2}
use frontier_long_horizon_en.Prelude.{
  ◌*◌, ◌≡◌, ◌≢◌, refl, Bool, true, false, none, some, [], ok, err, Result, arith,
}
use frontier_long_horizon_en.Substrate.Store.{Store, initialize}
use frontier_long_horizon_en.Agent.Runtime.{Stop, Run, effect_amount}
use frontier_long_horizon_en.Agent.Flow.{logical_identity_flow, intent_outbox, flow_of, deliver}
use frontier_long_horizon_en.Agent.Engine.Once.{IsOnce}
use frontier_long_horizon_en.Agent.Engine.Frame.{outside}
use frontier_long_horizon_en.Agent.Trace.{Grant, validate, grant_of}
use frontier_long_horizon_en.Agent.Workloads.{WorkloadReceipt}
use frontier_long_horizon_en.Agent.Probes.Diagnostics.{run_cutpoint_diagnostic}
use frontier_long_horizon_en.Agent.Probes.Hidden.{run_hidden_workload}
use frontier_long_horizon_en.Agent.Probes.Hidden.Contract.{
  expected_effects, hidden_pass_meets_contract,
}
use frontier_long_horizon_en.Agent.Runs.{Engine, budget, run}
use frontier_long_horizon_en.Agent.Runs.Capability.{run_handle_is_authorised}
use frontier_long_horizon_en.Agent.Runs.Effects.{run-IsOnce, outside-run}
use frontier_long_horizon_en.Examples.Serving.{stamping}
use frontier_long_horizon_en.Examples.Capabilities.{
  readable, readable-IsReliable, authority, context,
}
use frontier_long_horizon_en.Examples.Deliveries.{new-IsOnce}

-- A run with two events of one key, and a diagnostic that stops after its effect.
abbrev shared_run : Run
shared_run = record {
  store = initialize;
  workload_id = "H-A2";
  cutpoint = none;
  alias = "H-A2";
  handle = "handle";
  start_tick = 40;
  attempts = [];
  cutpoint_triggered = false;
  s2_cutpoint_pending = false;
  s5_cutpoint_pending = false;
  transient_pending = false;
  selectors = [];
}

abbrev stopped_run : Run
stopped_run = record shared_run {
  workload_id = "D1";
  alias = "D1";
  cutpoint = some "s5.exit";
  s5_cutpoint_pending = true;
}

abbrev shared_receipt : WorkloadReceipt
shared_receipt = record {
  workload_id = "H-A2";
  cutpoint = none;
  handle = "handle";
  alias = "H-A2";
  start_tick = 40;
  end_tick = 52;
  event_count = 2;
  effect_count = 2;
  net_effect_count = 200;
  cursor_seq = 2;
  outcome = "pass";
  active_config_root = "root";
}

abbrev shared : Result Stop WorkloadReceipt × Run
shared = run_hidden_workload stamping (logical_identity_flow stamping) "root" 3 shared_run

abbrev stopped : Result Stop WorkloadReceipt × Run
stopped = run_cutpoint_diagnostic stamping (logical_identity_flow stamping) "root" 3 stopped_run

abbrev stopped_receipt : WorkloadReceipt
stopped_receipt = record shared_receipt {
  workload_id = "D1";
  alias = "D1";
  cutpoint = some "s5.exit";
  end_tick = 49;
  event_count = 1;
  effect_count = 1;
  net_effect_count = 100;
  cursor_seq = 1;
  outcome = "cutpoint";
}

shared-shared_receipt : shared ≡ (ok shared_receipt, shared.1)
unfolding run_hidden_workload run_a2 logical_identity_flow prepare get_event_id append register
    payload_hash digest new_event_id deliver load effect_by_key settle new_effect_id advance_cursor
shared-shared_receipt = refl

stopped-stopped_receipt : stopped ≡ (ok stopped_receipt, stopped.1)
unfolding run_cutpoint_diagnostic logical_identity_flow prepare get_event_id append register
    payload_hash digest new_event_id deliver load effect_by_key settle new_effect_id advance_cursor
stopped-stopped_receipt = refl

hidden_pass_meets_contract_example :
    (shared_receipt.effect_count ≡ expected_effects "H-A2")
    × (shared_receipt.net_effect_count ≡ expected_effects "H-A2" * effect_amount)
hidden_pass_meets_contract_example =
    hidden_pass_meets_contract stamping (logical_identity_flow stamping) "root" 3 shared_run
      shared.1 shared_receipt shared-shared_receipt refl

abbrev engine : Engine
engine = record {
  profile = 1;
  trace_authority = authority;
  session_id = "session";
  trace_epoch = 2;
  active_config_root = "root";
  settings = budget 3;
  service = ok (logical_identity_flow stamping);
}

run-IsOnce_example : IsOnce (run stamping readable engine "H-S3" none 0 initialize).1.service
run-IsOnce_example = run-IsOnce stamping readable engine "H-S3" none 0 initialize refl new-IsOnce

abbrev outbox_engine : Engine
outbox_engine = record engine { service = ok (flow_of stamping intent_outbox) }

outside-run_example :
    outside (run stamping readable outbox_engine "D1" (some "s2.exit") 4 initialize).1
    ≡ outside initialize
outside-run_example =
    outside-run stamping readable outbox_engine intent_outbox "D1" (some "s2.exit") 4 initialize
      refl

abbrev ran : Result Stop WorkloadReceipt × Store
ran = run stamping readable engine "P1" none 0 initialize

abbrev received : Result Stop WorkloadReceipt → WorkloadReceipt
received (ok w) = w
received (err e) = shared_receipt

abbrev returns : Result Stop WorkloadReceipt → Bool
returns (ok w) = true
returns (err e) = false

ran_returns : returns ran.0 ≡ true
unfolding run logical_identity_flow prepare get_event_id append register payload_hash digest
    new_event_id deliver load effect_by_key settle new_effect_id advance_cursor
ran_returns = refl

received_again :
    (o : Result Stop WorkloadReceipt × Store) → returns o.0 ≡ true → o ≡ (ok (received o.0), o.1)
received_again (ok w, s) h = refl
received_again (err e, s) h = ground (arith, h)

ran-received : ran ≡ (ok (received ran.0), ran.1)
ran-received = received_again ran ran_returns

run_handle_is_authorised_example :
    ((given : Grant) × (validate readable authority
          (received ran.0).handle
          "session"
          2
          "journal"
          none
        ≡ ok given))
    × (validate readable authority (received ran.0).handle "session" 3 "journal" none
        ≢ ok (grant_of context))
run_handle_is_authorised_example =
    run_handle_is_authorised stamping readable engine "P1" none 0 initialize ran.1 (received ran.0)
      "journal" 3 (grant_of context) readable-IsReliable ran-received refl (omega arith)
