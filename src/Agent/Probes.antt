-- ===== src/Agent/Probes.antt =====
-- What the diagnostics and the hidden workloads of `RuntimeEngine` (src/agent_surface/runtime.py)
-- share: commands, deliveries of journal rows, and the receipts that count. Rows are listed in the
-- order of the tables, in which `seq` grows. The workloads are in the modules below.
pub mod Diagnostics
pub mod Effects
pub mod Commands
pub mod Recovered
pub mod Hidden
pub mod Kept
use frontier_long_horizon_en.Prelude.{
  ℕ, ◌+◌, ◌*◌, String, Bool, true, false, ◌&&◌, Option, none, some, List, [], ◌∷◌, nat_eq, ◌==◌,
  if◌then◌else◌, length, contains, join, ok, err,
}
use frontier_long_horizon_en.Prelude.Exec.{pure, raise, gets}
use frontier_long_horizon_en.Substrate.Tables.{JournalRow, EffectRow}
use frontier_long_horizon_en.Substrate.Canonical.{Primitives}
use frontier_long_horizon_en.Agent.Runtime.{Command, Run, M, ◌>>=◌, ◌>>◌, effect_amount}
use frontier_long_horizon_en.Agent.Methods.{log_line}
use frontier_long_horizon_en.Agent.Flow.{Flow}
use frontier_long_horizon_en.Agent.Engine.{accept_command, deliver_event, tick_text}
use frontier_long_horizon_en.Agent.Workloads.{
  Scope, Validation, WorkloadReceipt, build_receipt, command_for, sequence_of,
  journal_rows_for_scope, effect_rows_for_events, event_ids, validate_durable_outcome,
}

-- The scope of one command.
abbrev pub pair_of : Command → Scope
pair_of c = (c.command_key, c.occurrence_id) ∷ []

-- `_effect_count_for_rows`
unfoldable pub effect_count_for_rows : List JournalRow → Run → ℕ
unfolding effect_rows_for_events
effect_count_for_rows rows r =
    length (effect_rows_for_events (event_ids rows) r.store.service.effects)

abbrev pub verdict_text : Bool → String
verdict_text passed = if passed then "pass" else "fail"

-- A receipt with these counts and outcome, and the net amount of the effects.
unfoldable pub counted_receipt : String → ℕ → ℕ → String → Run → WorkloadReceipt
unfolding build_receipt
counted_receipt active_config_root events effects outcome r =
    build_receipt active_config_root
      (record {
        event_count = events;
        effect_count = effects;
        net_effect_count = effects * effect_amount;
        outcome = outcome;
      })
      r

-- The receipt of a workload that passes with as many rows, and as many effects of them, as expected.
unfoldable pub rows_receipt : String → ℕ → List JournalRow → Run → WorkloadReceipt
unfolding counted_receipt effect_count_for_rows
rows_receipt active_config_root expected rows r =
    let effects = effect_count_for_rows rows r in
    counted_receipt active_config_root (length rows) effects
      (verdict_text (nat_eq (length rows) expected && nat_eq effects expected)) r

-- The receipt of a workload that is judged by `_validate_durable_outcome`.
unfoldable pub validated_receipt : String → ℕ → Scope → Run → WorkloadReceipt
unfolding build_receipt validate_durable_outcome
validated_receipt active_config_root expected scope r =
    build_receipt active_config_root (validate_durable_outcome expected expected scope r.store) r

module _ (p : Primitives) (f : Flow) where
  -- The command of a workload, with the alias of the run.
  abbrev pub with_command : {A : Type 0} → String → String → (Command → M A) → M A
  with_command key occurrence k r = k (command_for p f key occurrence r.alias) r

  unfoldable pub accept_each : List Command → M (List String)
  unfolding accept_command
  accept_each [] = pure []
  accept_each (c ∷ cs) = do
    event_id ← accept_command f c
    rest ← accept_each cs
    pure (event_id ∷ rest)

  abbrev pub rows_for : Scope → M (List JournalRow)
  rows_for scope = gets (λ r. journal_rows_for_scope scope r.store.service.journal)

  unfoldable pub deliver_rows : ℕ → List JournalRow → M (Unit {0})
  unfolding deliver_event
  deliver_rows budget [] = pure tt
  deliver_rows budget (row ∷ rows) = do
    settled ← deliver_event p f row.event_id row.seq budget false
    deliver_rows budget rows

  -- The deliveries of an accepted event: its row has to be there.
  unfoldable pub deliver_accepted : ℕ → Bool → String → M String
  unfolding sequence_of deliver_event
  deliver_accepted budget retry event_id = do
    sequence ← sequence_of p f event_id
    deliver_event p f event_id sequence budget retry

  unfoldable pub deliver_each : ℕ → List String → M (Unit {0})
  unfolding deliver_accepted
  deliver_each budget [] = pure tt
  deliver_each budget (i ∷ is) = do
    settled ← deliver_accepted budget false i
    deliver_each budget is

  -- Accept the commands, look for their rows, deliver these.
  unfoldable pub accept_and_deliver : ℕ → List Command → Scope → M (List JournalRow)
  unfolding accept_each deliver_rows journal_rows_for_scope
  accept_and_deliver budget commands scope = do
    ids ← accept_each commands
    rows ← rows_for scope
    deliver_rows budget rows
    pure rows

  unfoldable pub accept_and_deliver_one : ℕ → Bool → Command → M String
  unfolding accept_command deliver_accepted
  accept_and_deliver_one budget retry c = do
    event_id ← accept_command f c
    settled ← deliver_accepted budget retry event_id
    pure event_id
