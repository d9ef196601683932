-- ===== src/Agent/Probes/Recovered.antt =====
-- The hidden workloads H-S1, H-S2, H-TRANS and H-S3 of `RuntimeEngine`
-- (src/agent_surface/runtime.py), which both profiles share.
use frontier_long_horizon_en.Prelude.{ℕ, String, true, false, List, [], ◌∷◌}
use frontier_long_horizon_en.Prelude.Exec.{pure, gets}
use frontier_long_horizon_en.Substrate.Tables.{JournalRow}
use frontier_long_horizon_en.Substrate.Canonical.{Primitives}
use frontier_long_horizon_en.Agent.Runtime.{Command, M, ◌>>=◌, ◌>>◌}
use frontier_long_horizon_en.Agent.Methods.{restart}
use frontier_long_horizon_en.Agent.Flow.{Flow}
use frontier_long_horizon_en.Agent.Engine.{accept_command, deliver_event}
use frontier_long_horizon_en.Agent.Workloads.{Scope, WorkloadReceipt}
use frontier_long_horizon_en.Agent.Probes.{
  pair_of, rows_receipt, validated_receipt, with_command, accept_each, rows_for, deliver_each,
  accept_and_deliver, accept_and_deliver_one,
}

-- The scopes that are validated.
abbrev pub recovery_pairs : Scope
recovery_pairs =
    ("cmd_s_recovery_first", "occ_s_recovery_first")
    ∷ ("cmd_s_recovery_second", "occ_s_recovery_second")
    ∷ []

abbrev pub compat_pairs : Scope
compat_pairs = ("cmd_s_compat", "occ_s_compat") ∷ []

abbrev pub transient_pairs : Scope
transient_pairs = ("cmd_s_transient", "occ_s_transient") ∷ []

module _ (p : Primitives) (f : Flow) where
  unfoldable pub s1_steps : ℕ → M (Unit {0})
  unfolding accept_each deliver_each
  s1_steps budget = do
    ids ← with_command p f "cmd_s_recovery_first" "occ_s_recovery_first" (λ first.
        with_command p f "cmd_s_recovery_second" "occ_s_recovery_second"
          (λ second. accept_each p f (first ∷ second ∷ [])))
    deliver_each p f budget ids

  unfoldable pub run_s1 : String → ℕ → M WorkloadReceipt
  unfolding s1_steps validated_receipt
  run_s1 active_config_root budget = do
    done ← s1_steps budget
    gets (validated_receipt active_config_root 2 recovery_pairs)

  unfoldable pub s2_compat_steps : ℕ → Command → M (List JournalRow)
  unfolding accept_and_deliver
  s2_compat_steps budget command =
      accept_and_deliver p f budget (command ∷ command ∷ command ∷ []) (pair_of command)

  unfoldable pub run_s2 : String → ℕ → M WorkloadReceipt
  unfolding s2_compat_steps validated_receipt
  run_s2 active_config_root budget = do
    rows ← with_command p f "cmd_s_compat" "occ_s_compat" (s2_compat_steps budget)
    gets (validated_receipt active_config_root 1 compat_pairs)

  unfoldable pub run_trans : String → ℕ → M WorkloadReceipt
  unfolding accept_and_deliver_one validated_receipt
  run_trans active_config_root budget = do
    event_id ←
        with_command p f "cmd_s_transient" "occ_s_transient"
          (accept_and_deliver_one p f budget true)
    gets (validated_receipt active_config_root 1 transient_pairs)

  -- Two deliveries of the first row, if there is one, with a restart between them.
  unfoldable pub deliver_twice : ℕ → String → List JournalRow → M (Unit {0})
  unfolding deliver_event restart
  deliver_twice budget event_id [] = pure tt
  deliver_twice budget event_id (row ∷ rows) = do
    once ← deliver_event p f event_id row.seq budget false
    restart p
    again ← deliver_event p f event_id row.seq budget false
    pure tt

  unfoldable pub s3_steps : ℕ → Command → M (List JournalRow)
  unfolding accept_command restart deliver_twice
  s3_steps budget command = do
    first_event_id ← accept_command f command
    restart p
    second_event_id ← accept_command f command
    rows ← rows_for p f (pair_of command)
    deliver_twice budget first_event_id rows
    pure rows

  unfoldable pub run_s3 : String → ℕ → M WorkloadReceipt
  unfolding s3_steps rows_receipt
  run_s3 active_config_root budget = do
    rows ← with_command p f "cmd_s_interleaved" "occ_s_interleaved" (s3_steps budget)
    gets (rows_receipt active_config_root 1 rows)
