-- ===== src/Agent/Probes/Effects.antt =====
-- The hidden workloads H-A1 to H-A4 of `RuntimeEngine` (src/agent_surface/runtime.py): effects that
-- are settled once, whatever is redelivered.
use Prim.Native.String.{compare}
use Prim.Native.Nat.{Ordering}
use frontier_long_horizon_en.Prelude.{
  ℕ, String, Bool, false, ◌&&◌, some, List, [], ◌∷◌, nat_eq, ◌==◌, length, join,
}
use frontier_long_horizon_en.Prelude.Exec.{pure, gets}
use frontier_long_horizon_en.Substrate.Tables.{JournalRow, EffectRow}
use frontier_long_horizon_en.Substrate.Canonical.{Primitives}
use frontier_long_horizon_en.Agent.Runtime.{Command, Run, M, ◌>>=◌, ◌>>◌, effects_of}
use frontier_long_horizon_en.Agent.Methods.{log_line, load}
use frontier_long_horizon_en.Agent.Flow.{Flow}
use frontier_long_horizon_en.Agent.Engine.{deliver_event, tick_text}
use frontier_long_horizon_en.Agent.Workloads.{Scope, WorkloadReceipt, settlement_count}
use frontier_long_horizon_en.Agent.Probes.{
  pair_of, verdict_text, counted_receipt, rows_receipt, with_command, accept_each, rows_for,
  accept_and_deliver, accept_and_deliver_one,
}

-- The logical keys of the effects of an event, as `ORDER BY logical_effect_key` lists them.
unfoldable pub insert_key : String → List String → List String
insert_key k [] = k ∷ []
insert_key k (j ∷ js) =
    let rest = insert_key k js in elim (compare k j) [ Ordering.gt ↦ j ∷ rest | _ ↦ k ∷ j ∷ js ]

unfoldable pub sorted_keys : List EffectRow → List String
unfolding insert_key
sorted_keys [] = []
sorted_keys (r ∷ rs) = insert_key r.logical_effect_key (sorted_keys rs)

-- `keys == ["notify", "settlement"]`
unfoldable pub are_notify_and_settlement : List String → Bool
are_notify_and_settlement (a ∷ b ∷ []) = (a == "notify") && (b == "settlement")
are_notify_and_settlement _ = false

unfoldable pub keys_receipt : String → List String → Run → WorkloadReceipt
unfolding counted_receipt are_notify_and_settlement
keys_receipt active_config_root keys r =
    counted_receipt active_config_root 1 (length keys)
      (verdict_text (are_notify_and_settlement keys)) r

unfoldable pub restart_receipt : String → ℕ → Run → WorkloadReceipt
unfolding counted_receipt
restart_receipt active_config_root effects r =
    counted_receipt active_config_root 1 effects (verdict_text (nat_eq effects 1)) r

-- The scope of H-A2.
abbrev pub shared_pairs : Scope
shared_pairs = ("cmd_a_shared_key", "occ_a_first") ∷ ("cmd_a_shared_key", "occ_a_second") ∷ []

module _ (p : Primitives) (f : Flow) where
  unfoldable pub log_delivered : String → M (Unit {0})
  unfolding log_line
  log_delivered event_id r =
      log_line (join ("t=" ∷ tick_text p r ∷ " hidden effect delivered " ∷ event_id ∷ [])) r

  unfoldable pub deliver_reported : ℕ → List JournalRow → M (Unit {0})
  unfolding deliver_event log_delivered
  deliver_reported budget [] = pure tt
  deliver_reported budget (row ∷ rows) = do
    settled ← deliver_event p f row.event_id row.seq budget false
    log_delivered row.event_id
    deliver_reported budget rows

  unfoldable pub a1_steps : ℕ → Command → M (List JournalRow)
  unfolding accept_each deliver_reported
  a1_steps budget command = do
    ids ← accept_each p f (command ∷ [])
    rows ← rows_for p f (pair_of command)
    deliver_reported budget rows
    pure rows

  unfoldable pub run_a1 : String → ℕ → M WorkloadReceipt
  unfolding a1_steps rows_receipt
  run_a1 active_config_root budget = do
    rows ← with_command p f "cmd_a_effect_ack" "occ_a_effect_ack" (a1_steps budget)
    gets (rows_receipt active_config_root 1 rows)

  unfoldable pub a2_steps : ℕ → M (List JournalRow)
  unfolding accept_and_deliver
  a2_steps budget = with_command p f "cmd_a_shared_key" "occ_a_first" (λ first.
      with_command p f "cmd_a_shared_key" "occ_a_second"
        (λ second. accept_and_deliver p f budget (first ∷ second ∷ []) shared_pairs))

  unfoldable pub run_a2 : String → ℕ → M WorkloadReceipt
  unfolding a2_steps rows_receipt
  run_a2 active_config_root budget = do
    rows ← a2_steps budget
    gets (rows_receipt active_config_root 2 rows)

  -- The effect `notify` is settled by a call of s5 itself.
  unfoldable pub a3_steps : ℕ → Command → M (List String)
  unfolding accept_and_deliver_one load effects_of sorted_keys
  a3_steps budget command = do
    event_id ← accept_and_deliver_one p f budget false command
    event ← load p event_id
    settled ← f.s5 (record event { logical_effect_key = some "notify" })
    gets (λ r. sorted_keys (effects_of event_id r.store.service.effects))

  unfoldable pub run_a3 : String → ℕ → M WorkloadReceipt
  unfolding a3_steps keys_receipt
  run_a3 active_config_root budget = do
    keys ← with_command p f "cmd_a_logical_multi" "occ_a_logical_multi" (a3_steps budget)
    gets (keys_receipt active_config_root keys)

  unfoldable pub a4_steps : ℕ → Command → M ℕ
  unfolding accept_and_deliver_one settlement_count
  a4_steps budget command = do
    event_id ← accept_and_deliver_one p f budget false command
    gets (λ r. settlement_count event_id r.store.service.effects)

  unfoldable pub run_a4 : String → ℕ → M WorkloadReceipt
  unfolding a4_steps restart_receipt
  run_a4 active_config_root budget = do
    effects ← with_command p f "cmd_a_restart_retry" "occ_a_restart_retry" (a4_steps budget)
    gets (restart_receipt active_config_root effects)
