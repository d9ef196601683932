-- ===== src/Agent/Probes/Diagnostics.antt =====
-- The cutpoint diagnostics of `RuntimeEngine` (src/agent_surface/runtime.py): one command, accepted
-- and delivered in a run that stops at a cutpoint.
use frontier_long_horizon_en.Prelude.{
  ℕ, ◌+◌, String, false, none, some, List, [], ◌∷◌, ltb, ◌==◌, if◌then◌else◌, length, join, err,
}
use frontier_long_horizon_en.Prelude.Exec.{pure, gets}
use frontier_long_horizon_en.Substrate.Tables.{JournalRow}
use frontier_long_horizon_en.Substrate.Store.{max_seq}
use frontier_long_horizon_en.Substrate.Canonical.{Primitives}
use frontier_long_horizon_en.Agent.Runtime.{Command, tool_error, Run, M, ◌>>=◌, ◌>>◌, effects_of}
use frontier_long_horizon_en.Agent.Flow.{Flow}
use frontier_long_horizon_en.Agent.Engine.{accept_command, deliver_event}
use frontier_long_horizon_en.Agent.Workloads.{
  WorkloadReceipt, sequence_of, log_accepted, log_window,
}
use frontier_long_horizon_en.Agent.Probes.{counted_receipt, effect_count_for_rows, with_command}

unfoldable pub rows_from : ℕ → List JournalRow → List JournalRow
rows_from n [] = []
rows_from n (r ∷ rs) = let rest = rows_from n rs in if ltb r.seq n then rest else r ∷ rest

-- The receipt of a diagnostic: its outcome says whether the cutpoint was reached.
unfoldable pub diagnostic_receipt : String → ℕ → ℕ → Run → WorkloadReceipt
unfolding counted_receipt
diagnostic_receipt active_config_root events effects r =
    counted_receipt active_config_root events effects
      (if r.cutpoint_triggered then "cutpoint" else "diagnostic") r

unfoldable pub s5_receipt : String → String → Run → WorkloadReceipt
unfolding diagnostic_receipt effects_of
s5_receipt active_config_root event_id r =
    diagnostic_receipt active_config_root 1 (length (effects_of event_id r.store.service.effects)) r

unfoldable pub s2_receipt : String → List JournalRow → Run → WorkloadReceipt
unfolding diagnostic_receipt effect_count_for_rows
s2_receipt active_config_root rows r =
    diagnostic_receipt active_config_root (length rows) (effect_count_for_rows rows r) r

module _ (p : Primitives) (f : Flow) where
  -- The branch of `s5.exit`, up to its receipt.
  unfoldable pub s5_steps : ℕ → Command → M String
  unfolding accept_command deliver_event sequence_of log_window
  s5_steps budget command = do
    event_id ← accept_command f command
    sequence ← sequence_of p f event_id
    log_window p f
    settled ← deliver_event p f event_id sequence budget false
    pure event_id

  unfoldable pub deliver_logged : ℕ → List JournalRow → M (Unit {0})
  unfolding deliver_event log_window
  deliver_logged budget [] = pure tt
  deliver_logged budget (row ∷ rows) = do
    log_window p f
    settled ← deliver_event p f row.event_id row.seq budget false
    deliver_logged budget rows

  -- The branch of `s2.exit`, up to its receipt.
  unfoldable pub s2_steps : ℕ → Command → M (List JournalRow)
  unfolding accept_command max_seq rows_from deliver_logged log_accepted
  s2_steps budget command = do
    start_seq ← gets (λ r. max_seq (λ (q : JournalRow). q.seq) r.store.service.journal + 1)
    event_id ← accept_command f command
    log_accepted p f
    rows ← gets (λ r. rows_from start_seq r.store.service.journal)
    deliver_logged budget rows
    pure rows

  unfoldable pub run_s5_diagnostic : String → ℕ → M WorkloadReceipt
  unfolding s5_steps s5_receipt
  run_s5_diagnostic active_config_root budget = do
    event_id ← with_command p f "cmd_diagnostic_s5" "occ_diagnostic_s5" (s5_steps budget)
    gets (s5_receipt active_config_root event_id)

  unfoldable pub run_s2_diagnostic : String → ℕ → M WorkloadReceipt
  unfolding s2_steps s2_receipt
  run_s2_diagnostic active_config_root budget = do
    rows ← with_command p f "cmd_diagnostic" "occ_diagnostic" (s2_steps budget)
    gets (s2_receipt active_config_root rows)

  -- `_run_cutpoint_diagnostic`
  unfoldable pub run_cutpoint_diagnostic : String → ℕ → M WorkloadReceipt
  unfolding run_s5_diagnostic run_s2_diagnostic
  run_cutpoint_diagnostic active_config_root budget r = elim r.cutpoint [
    | none ↦ (err (tool_error "unsupported cutpoint None"), r)
    | some c ↦
        if c == "s5.exit"
        then run_s5_diagnostic active_config_root budget r
        else if c == "s2.exit"
        then run_s2_diagnostic active_config_root budget r
        else (err (tool_error (join ("unsupported cutpoint " ∷ c ∷ []))), r)
  ]
