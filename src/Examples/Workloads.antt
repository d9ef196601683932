-- ===== src/Examples/Workloads.antt =====
-- The theorems on the public workloads of src/agent_surface/runtime.py at a run of P1.
use frontier_long_horizon_en.Prelude.{
  ◌≡◌, ◌↔◌, refl, none, some, [], ◌∷◌, length, true, false, Result, ok, List,
}
use frontier_long_horizon_en.Substrate.Store.{initialize}
use frontier_long_horizon_en.Agent.Runtime.{Command, Run, Stop}
use frontier_long_horizon_en.Agent.Methods.{
  new_event_id, load, effect_by_key, settle, advance_cursor, prepare, get_event_id, append,
  register, payload_hash,
}
use frontier_long_horizon_en.Substrate.Canonical.{Primitives, digest}
use frontier_long_horizon_en.Agent.Flow.{logical_identity_flow, deliver}
use frontier_long_horizon_en.Agent.Workloads.{
  Scope, WorkloadReceipt, run_public_workload, public_commands, pairs, validate_durable_outcome,
}
use frontier_long_horizon_en.Agent.Workloads.Outcome.{IsDurable, outcome_pass_iff}
use frontier_long_horizon_en.Agent.Workloads.Receipts.{public_pass-IsDurable}

-- Texts that are enough for one command.
abbrev plain : Primitives
plain = record {
  sha256 = λ bytes. "0123";
  hmac_sha256 = λ key bytes. "4567";
  canonical_json = λ d. [];
  loads_service = λ s. none;
  str_of = λ n. "number";
  order_service = λ v. v;
  order_deployments = λ v. v;
  order_snapshots = λ v. v;
}

abbrev first_run : Run
first_run = record {
  store = initialize;
  workload_id = "P1";
  cutpoint = none;
  alias = "P1";
  handle = "handle";
  start_tick = 40;
  attempts = [];
  cutpoint_triggered = false;
  s2_cutpoint_pending = false;
  s5_cutpoint_pending = false;
  transient_pending = true;
  selectors = [];
}

abbrev finished : Result Stop WorkloadReceipt × Run
finished = run_public_workload plain (logical_identity_flow plain) "root" 3 first_run

-- The receipt of that run: the transient failure is retried, and the effect is there once.
abbrev receipt : WorkloadReceipt
receipt = record {
  workload_id = "P1";
  cutpoint = none;
  handle = "handle";
  alias = "P1";
  start_tick = 40;
  end_tick = 52;
  event_count = 1;
  effect_count = 1;
  net_effect_count = 100;
  cursor_seq = 1;
  outcome = "pass";
  active_config_root = "root";
}

finished-receipt : finished ≡ (ok receipt, finished.1)
unfolding run_public_workload logical_identity_flow prepare get_event_id append register
    payload_hash digest new_event_id deliver load effect_by_key settle advance_cursor
finished-receipt = refl

abbrev first_command : Scope
first_command = ("cmd_routine_redelivery", "occ_routine_redelivery") ∷ []

outcome_pass_iff_example :
    ((validate_durable_outcome 1 1 first_command finished.1.store).outcome ≡ "pass")
    ↔ IsDurable first_command finished.1.store 1 1
outcome_pass_iff_example = outcome_pass_iff first_command finished.1.store 1 1

public_pass-IsDurable_example :
    (commands : List Command) × ((public_commands plain (logical_identity_flow plain) "P1" "P1"
        ≡ some commands)
      × IsDurable
          (pairs plain (logical_identity_flow plain) commands)
          finished.1.store
          (length commands)
          (length commands))
public_pass-IsDurable_example =
    public_pass-IsDurable plain (logical_identity_flow plain) "root" 3 first_run finished.1 receipt
      finished-receipt refl
