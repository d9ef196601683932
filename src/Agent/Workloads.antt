-- ===== src/Agent/Workloads.antt =====
-- The public workloads of `RuntimeEngine` (src/agent_surface/runtime.py): the queries on what has
-- become durable, the verdict, the receipt and the run. Rows are listed in the order of the tables,
-- since only numbers and sums are made of them. Proofs are in the modules below.
pub mod Outcome
pub mod Returns
pub mod Passing
pub mod Receipts
use frontier_long_horizon_en.Prelude.{
  ℕ, ◌+◌, ◌*◌, String, Bool, true, false, ◌&&◌, ◌||◌, Option, none, some, List, [], ◌∷◌, map, ltb,
  leb, nat_eq, ◌==◌, if◌then◌else◌, length, contains, join, ok, err, Result,
}
use frontier_long_horizon_en.Prelude.Exec.{pure, raise, gets}
use frontier_long_horizon_en.Substrate.Tables.{JournalRow, EffectRow}
use frontier_long_horizon_en.Substrate.Canonical.{Primitives}
use frontier_long_horizon_en.Substrate.Store.{Store}
use frontier_long_horizon_en.Agent.Runtime.{
  Command, Stop, tool_error, Run, M, ◌>>=◌, ◌>>◌, find_event, effect_amount,
}
use frontier_long_horizon_en.Agent.Methods.{log_line}
use frontier_long_horizon_en.Agent.Flow.{Flow}
use frontier_long_horizon_en.Agent.Engine.{accept_command, deliver_event, tick_text}

-- The scope of a query: pairs of a command key and an occurrence.
abbrev pub Scope : Type 0
Scope = List (String × String)

unfoldable pub in_scope : Scope → JournalRow → Bool
in_scope [] r = false
in_scope ((k, o) ∷ ps) r = ((r.command_key == k) && (r.occurrence_id == o)) || in_scope ps r

-- `_journal_rows_for_scope`, for pairs.
unfoldable pub journal_rows_for_scope : Scope → List JournalRow → List JournalRow
unfolding in_scope
journal_rows_for_scope scope [] = []
journal_rows_for_scope scope (r ∷ rs) =
    let rest = journal_rows_for_scope scope rs in if in_scope scope r then r ∷ rest else rest

abbrev pub event_ids : List JournalRow → List String
event_ids [] = []
event_ids (r ∷ rs) = r.event_id ∷ event_ids rs

-- `_effect_rows_for_events`
unfoldable pub effect_rows_for_events : List String → List EffectRow → List EffectRow
effect_rows_for_events ids [] = []
effect_rows_for_events ids (r ∷ rs) =
    let rest = effect_rows_for_events ids rs in
    if contains r.source_event_id ids then r ∷ rest else rest

unfoldable pub net_amount : List EffectRow → ℕ
net_amount [] = 0
net_amount (r ∷ rs) = r.amount + net_amount rs

-- `max(…, default=0)`
unfoldable pub max_delivered_seq : List JournalRow → ℕ
max_delivered_seq [] = 0
max_delivered_seq (r ∷ rs) = let m = max_delivered_seq rs in if ltb m r.seq then r.seq else m

unfoldable pub amounts_ok : List EffectRow → Bool
amounts_ok [] = true
amounts_ok (r ∷ rs) = nat_eq r.amount effect_amount && amounts_ok rs

pub record Validation : Type 0 where
  pub event_count : ℕ
  pub effect_count : ℕ
  pub net_effect_count : ℕ
  pub outcome : String

-- `_validate_durable_outcome`
unfoldable pub validate_durable_outcome : ℕ → ℕ → Scope → Store → Validation
unfolding journal_rows_for_scope effect_rows_for_events net_amount max_delivered_seq amounts_ok
validate_durable_outcome expected_events expected_effects scope s =
    let rows = journal_rows_for_scope scope s.service.journal in
    let effects = effect_rows_for_events (event_ids rows) s.service.effects in
    let net = net_amount effects in
    record {
      event_count = length rows;
      effect_count = length effects;
      net_effect_count = net;
      outcome =
          if nat_eq (length rows) expected_events
            && (nat_eq (length effects) expected_effects
                && (amounts_ok effects
                    && (nat_eq net (expected_effects * effect_amount)
                        && leb (max_delivered_seq rows) s.service.committed_seq)))
          then "pass"
          else "fail";
    }

-- `_effect_count_for_event_keys`, of one event and the key `settlement`.
unfoldable pub settlement_count : String → List EffectRow → ℕ
settlement_count i [] = 0
settlement_count i (r ∷ rs) =
    let rest = settlement_count i rs in
    if (r.source_event_id == i) && (r.logical_effect_key == "settlement") then rest + 1 else rest

-- `_build_receipt`
pub record WorkloadReceipt : Type 0 where
  pub workload_id : String
  pub cutpoint : Option String
  pub handle : String
  pub alias : String
  pub start_tick : ℕ
  pub end_tick : ℕ
  pub event_count : ℕ
  pub effect_count : ℕ
  pub net_effect_count : ℕ
  pub cursor_seq : ℕ
  pub outcome : String
  pub active_config_root : String

unfoldable pub build_receipt : String → Validation → Run → WorkloadReceipt
build_receipt active_config_root v r = record {
  workload_id = r.workload_id;
  cutpoint = r.cutpoint;
  handle = r.handle;
  alias = r.alias;
  start_tick = r.start_tick;
  end_tick = r.store.fake_tick;
  event_count = v.event_count;
  effect_count = v.effect_count;
  net_effect_count = v.net_effect_count;
  cursor_seq = r.store.service.committed_seq;
  outcome = v.outcome;
  active_config_root = active_config_root;
}

module _ (p : Primitives) (f : Flow) where
  -- The commands of a workload.
  abbrev pub command_for : String → String → String → Command
  command_for key occurrence alias = record {
    command_key = key;
    occurrence_id = occurrence;
    alias = alias;
    amount = p.str_of effect_amount;
  }

  unfoldable pub public_commands : String → String → Option (List Command)
  public_commands workload_id alias =
      if workload_id == "P1"
      then some (command_for "cmd_routine_redelivery" "occ_routine_redelivery" alias ∷ [])
      else if workload_id == "P2"
      then some (command_for "cmd_transient_effect" "occ_transient_effect" alias ∷ [])
      else if workload_id == "P3"
      then some (
          command_for "cmd_unique_1" "occ_unique_1" alias
          ∷ command_for "cmd_unique_2" "occ_unique_2" alias
          ∷ command_for "cmd_unique_3" "occ_unique_3" alias
          ∷ [])
      else none

  abbrev pub pairs : List Command → Scope
  pairs [] = []
  pairs (c ∷ cs) = (c.command_key, c.occurrence_id) ∷ pairs cs

  unfoldable pub log_accepted : M (Unit {0})
  unfolding log_line
  log_accepted r =
      log_line (join ("t=" ∷ tick_text p r ∷ " intake accepted alias=" ∷ r.alias ∷ [])) r

  unfoldable pub log_window : M (Unit {0})
  unfolding log_line
  log_window r =
      log_line
        (join
          ("t=" ∷ tick_text p r ∷ " delivery window opened alias=" ∷ r.alias ∷ " attempt=1" ∷ []))
        r

  unfoldable pub accept_all : List Command → M (List String)
  unfolding accept_command log_accepted
  accept_all [] = pure []
  accept_all (c ∷ cs) = do
    event_id ← accept_command f c
    log_accepted
    rest ← accept_all cs
    pure (event_id ∷ rest)

  unfoldable pub sequence_of : String → M ℕ
  unfolding find_event
  sequence_of i r = elim (find_event i r.store.service.journal) [
    | none ↦ (err (tool_error "event not in journal"), r)
    | some row ↦ (ok row.seq, r)
  ]

  -- `_public_canary_line`
  unfoldable pub log_canary : String → M (Unit {0})
  unfolding log_line settlement_count
  log_canary i r =
      log_line
        (join (
          "t="
          ∷ tick_text p r
          ∷ " settlement observed alias="
          ∷ r.alias
          ∷ " count="
          ∷ p.str_of (settlement_count i r.store.service.effects)
          ∷ []))
        r

  unfoldable pub deliver_all : ℕ → List String → M (Unit {0})
  unfolding sequence_of deliver_event log_window log_canary
  deliver_all budget [] = pure tt
  deliver_all budget (i ∷ is) = do
    sequence ← sequence_of i
    (λ r.
        log_line
          (join
            ("t=" ∷ tick_text p r ∷ " delivery window opened alias=" ∷ r.alias ∷ " attempt=1" ∷ []))
          r)
    settled ← deliver_event p f i sequence budget true
    log_canary i
    deliver_all budget is

  -- What follows the deliveries.
  unfoldable pub public_receipt : String → List Command → Run → WorkloadReceipt
  unfolding validate_durable_outcome build_receipt
  public_receipt active_config_root commands r =
      build_receipt active_config_root
        (validate_durable_outcome (length commands) (length commands) (pairs commands) r.store) r

  -- `_run_public_workload`
  unfoldable pub run_commands : String → ℕ → List Command → M WorkloadReceipt
  unfolding accept_all deliver_all public_receipt
  run_commands active_config_root budget commands = do
    ids ← accept_all commands
    deliver_all budget ids
    gets (public_receipt active_config_root commands)

  unfoldable pub run_public_workload : String → ℕ → M WorkloadReceipt
  unfolding public_commands run_commands
  run_public_workload active_config_root budget r = elim (public_commands r.workload_id r.alias) [
    | none ↦ (err (tool_error (join ("unknown public workload " ∷ r.workload_id ∷ []))), r)
    | some commands ↦ run_commands active_config_root budget commands r
  ]
