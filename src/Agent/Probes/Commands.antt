-- ===== src/Agent/Probes/Commands.antt =====
-- The hidden workloads H-B1 to H-B4 of `RuntimeEngine` (src/agent_surface/runtime.py): commands that
-- are journalled once, whatever is retried.
use frontier_long_horizon_en.Prelude.{
  ℕ, String, ◌&&◌, List, [], ◌∷◌, nat_eq, ◌==◌, if◌then◌else◌, length, Result, ok, err,
}
use frontier_long_horizon_en.Prelude.Exec.{pure, raise, gets}
use frontier_long_horizon_en.Substrate.Tables.{JournalRow}
use frontier_long_horizon_en.Substrate.Canonical.{Primitives}
use frontier_long_horizon_en.Agent.Runtime.{Command, Stop, tool_error, Run, M, ◌>>=◌, ◌>>◌}
use frontier_long_horizon_en.Agent.Flow.{Flow}
use frontier_long_horizon_en.Agent.Engine.{accept_command}
use frontier_long_horizon_en.Agent.Workloads.{WorkloadReceipt}
use frontier_long_horizon_en.Agent.Probes.{
  pair_of, verdict_text, counted_receipt, effect_count_for_rows, rows_receipt, with_command,
  accept_each, rows_for, deliver_rows, accept_and_deliver,
}

unfoldable pub rows_of_key : String → List JournalRow → List JournalRow
rows_of_key k [] = []
rows_of_key k (r ∷ rs) =
    let rest = rows_of_key k rs in if r.command_key == k then r ∷ rest else rest

-- `except ToolError`
unfoldable pub ignore_tool_error : Result Stop String → M (Unit {0})
ignore_tool_error (ok i) = pure tt
ignore_tool_error (err (tool_error message)) = pure tt
ignore_tool_error (err e) = raise e

-- The conflicting command of H-B3 delivers nothing.
unfoldable pub conflict_receipt : String → List JournalRow → Run → WorkloadReceipt
unfolding counted_receipt
conflict_receipt active_config_root rows r =
    counted_receipt active_config_root (length rows) 0 (verdict_text (nat_eq (length rows) 1)) r

-- H-B4 counts the accepted ids, and is judged by the rows of the key.
unfoldable pub repeat_receipt : String → List String → List JournalRow → Run → WorkloadReceipt
unfolding counted_receipt effect_count_for_rows
repeat_receipt active_config_root ids rows r =
    let effects = effect_count_for_rows rows r in
    counted_receipt active_config_root (length ids) effects
      (verdict_text (nat_eq (length rows) 2 && nat_eq effects 2)) r

module _ (p : Primitives) (f : Flow) where
  -- One occurrence, accepted as often as it is listed.
  unfoldable pub b1_steps : ℕ → Command → M (List JournalRow)
  unfolding accept_and_deliver
  b1_steps budget command = accept_and_deliver p f budget (command ∷ []) (pair_of command)

  unfoldable pub run_b1 : String → ℕ → M WorkloadReceipt
  unfolding b1_steps rows_receipt
  run_b1 active_config_root budget = do
    rows ← with_command p f "cmd_b_idempotent_retry" "occ_b_retry" (b1_steps budget)
    gets (rows_receipt active_config_root 1 rows)

  unfoldable pub b2_steps : ℕ → Command → M (List JournalRow)
  unfolding accept_and_deliver
  b2_steps budget command = accept_and_deliver p f budget (command ∷ command ∷ []) (pair_of command)

  unfoldable pub run_b2 : String → ℕ → M WorkloadReceipt
  unfolding b2_steps rows_receipt
  run_b2 active_config_root budget = do
    rows ← with_command p f "cmd_b_same_occurrence" "occ_b_same" (b2_steps budget)
    gets (rows_receipt active_config_root 1 rows)

  -- The command with the other amount, accepted or rejected.
  unfoldable pub accept_conflicting : Command → M (Unit {0})
  unfolding accept_command ignore_tool_error
  accept_conflicting second r =
      let (result, r') = accept_command f second r in ignore_tool_error result r'

  unfoldable pub b3_steps : M (List JournalRow)
  unfolding accept_command accept_conflicting
  b3_steps = do
    event_id ←
        with_command p f "cmd_b_conflict" "occ_b_conflict"
          (λ c. accept_command f (record c { amount = "100" }))
    with_command p f "cmd_b_conflict" "occ_b_conflict"
        (λ c. accept_conflicting (record c { amount = "101" }))
    rows_for p f (("cmd_b_conflict", "occ_b_conflict") ∷ [])

  unfoldable pub run_b3 : String → ℕ → M WorkloadReceipt
  unfolding b3_steps conflict_receipt
  run_b3 active_config_root budget = do
    rows ← b3_steps
    gets (conflict_receipt active_config_root rows)

  unfoldable pub b4_steps : ℕ → M (List String × List JournalRow)
  unfolding accept_each rows_of_key deliver_rows
  b4_steps budget = do
    ids ← with_command p f "cmd_b_legit_repeat" "occ_b_legit_first" (λ first.
        with_command p f "cmd_b_legit_repeat" "occ_b_legit_second"
          (λ second. accept_each p f (first ∷ second ∷ [])))
    rows ← gets (λ r. rows_of_key "cmd_b_legit_repeat" r.store.service.journal)
    deliver_rows p f budget rows
    pure (ids, rows)

  unfoldable pub run_b4 : String → ℕ → M WorkloadReceipt
  unfolding b4_steps repeat_receipt
  run_b4 active_config_root budget = do
    found ← b4_steps budget
    gets (repeat_receipt active_config_root found.0 found.1)
