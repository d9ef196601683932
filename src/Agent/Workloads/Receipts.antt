-- ===== src/Agent/Workloads/Receipts.antt =====
-- What the receipt of a public workload says of the store that the run leaves
-- (`_run_public_workload` of src/agent_surface/runtime.py).
use frontier_long_horizon_en.Prelude.{
  ℕ, ◌≡◌, String, Option-cases, some, List, arith, length, ok, inl, inr,
}
use frontier_long_horizon_en.Prelude.Exec.{gets}
use frontier_long_horizon_en.Substrate.Canonical.{Primitives}
use frontier_long_horizon_en.Agent.Runtime.{Command, Run, ◌>>=◌}
use frontier_long_horizon_en.Agent.Flow.{Flow}
use frontier_long_horizon_en.Agent.Workloads.{
  WorkloadReceipt, accept_all, deliver_all, pairs, public_commands, public_receipt, run_commands,
  run_public_workload, build_receipt,
}
use frontier_long_horizon_en.Agent.Workloads.Returns.{bind_returned, gets_returned}
use frontier_long_horizon_en.Agent.Workloads.Outcome.{IsDurable, outcome_pass_iff}

module _ (p : Primitives) (f : Flow) (active_config_root : String) (budget : ℕ) where
  run_commands_receipt :
      (commands : List Command) (r r' : Run) (w : WorkloadReceipt)
      → run_commands p f active_config_root budget commands r ≡ (ok w, r')
      → w ≡ public_receipt p f active_config_root commands r'
  unfolding run_commands
  run_commands_receipt commands r r' w h =
      let accepted =
        bind_returned
          (λ ids. deliver_all p f budget ids >>= λ _.
            gets (public_receipt p f active_config_root commands))
          (accept_all p f commands r) w r' h in
      (gets_returned (deliver_all p f budget accepted.0)
        (λ _. public_receipt p f active_config_root commands) accepted.1.0 r' w accepted.1.1.1).1

  -- For any flow: if a public workload returns a receipt with the outcome `pass`, then its name is
  -- that of a list of commands, and in the store that it leaves the journal has as many rows for
  -- their keys and occurrences as there are commands, as many effects are there for the events of
  -- these rows, each of the effect amount, and the cursor is at or past each of these rows.
  pub public_pass-IsDurable :
      (r r' : Run) (w : WorkloadReceipt)
      → run_public_workload p f active_config_root budget r ≡ (ok w, r')
      → w.outcome ≡ "pass"
      → (commands : List Command) × ((public_commands p f r.workload_id r.alias ≡ some commands)
          × IsDurable (pairs p f commands) r'.store (length commands) (length commands))
  unfolding run_public_workload public_receipt build_receipt
  public_pass-IsDurable r r' w h passed =
      elim (Option-cases (public_commands p f r.workload_id r.alias)) [
        | inl none_such ↦ ground (arith, none_such, h)
        | inr (commands, found) ↦
            let same =
              run_commands_receipt commands r r' w (rw (run_public_workload, found) at h) in
            (
              commands,
              (
                found,
                (outcome_pass_iff (pairs p f commands) r'.store (length commands)
                      (length commands)).0
                    (rw same at passed),
              ),
            )
      ]
