-- ===== src/Agent/Engine.antt =====
-- `RuntimeEngine` of src/agent_surface/runtime.py: acceptance and delivery with their retries, and
-- the counts and the receipt of a workload.
pub mod Termination
pub mod Flows
pub mod Kept
pub mod Frame
pub mod Once
use frontier_long_horizon_en.Prelude.{
  ℕ, zero, suc, ◌+◌, ◌*◌, String, Bool, true, false, not, Result, ◌&&◌, ◌||◌, Option, none, some,
  List, [], ◌∷◌, ◌++◌, map, ltb, leb, nat_eq, ◌==◌, if◌then◌else◌, length, contains, join, ok, err,
}
use frontier_long_horizon_en.Prelude.Exec.{pure, raise, gets}
use frontier_long_horizon_en.Substrate.Tables.{JournalRow, EffectRow}
use frontier_long_horizon_en.Substrate.Canonical.{Primitives}
use frontier_long_horizon_en.Agent.Runtime.{
  Command, Event, Stop, tool_error, cutpoint_stop, transient_failure, integrity_error, out_of_fuel,
  Run, M, ◌>>=◌, ◌>>◌, find_event, effect_amount,
}
use frontier_long_horizon_en.Agent.Methods.{log_line, restart}
use frontier_long_horizon_en.Agent.Flow.{Flow, accept, deliver}

-- The handler of `_accept_command`: after a cutpoint the client retries, and the id of the first
-- attempt is returned. Every caller leaves `retry_after_s2_cutpoint` at True.
unfoldable pub after_accept : Flow → Command → Stop → M String
unfolding accept
after_accept f command (cutpoint_stop none _) = pure ""
after_accept f command (cutpoint_stop (some event_id) _) = do accept f command; pure event_id
after_accept f command e = raise e

unfoldable pub accept_command : Flow → Command → M String
unfolding after_accept
accept_command f command r =
    let (result, r') = accept f command r in
    elim result [ ok i ↦ (ok i, r') | err e ↦ after_accept f command e r' ]

abbrev pub tick_text : Primitives → Run → String
tick_text p r = p.str_of r.store.fake_tick

module _ (p : Primitives) (f : Flow) where
  unfoldable pub log_interrupted : M (Unit {0})
  unfolding log_line
  log_interrupted r =
      log_line
        (join ("t=" ∷ tick_text p r ∷ " delivery boundary interrupted alias=" ∷ r.alias ∷ [])) r

  -- The `except` clauses of a round of `_deliver_event`; `again` goes round with a new counter.
  abbrev pub Delivery : Type 0
  Delivery = Option (Result Stop String × Run)

  unfoldable pub after_delivery :
      (ℕ → Run → Delivery) → ℕ → Bool → ℕ → Result Stop String → Run → Delivery
  unfolding log_interrupted restart
  after_delivery again budget retry attempts (ok effect_id) r = some (ok effect_id, r)
  after_delivery again budget retry attempts (err transient_failure) r =
      let logged = (log_interrupted r).1 in
      elim (not retry || leb budget (attempts + 1)) [
        | true ↦ some (err (tool_error "transient effect exceeded attempt budget"), logged)
        | false ↦ again (attempts + 1) logged
      ]
  after_delivery again budget retry attempts (err (cutpoint_stop _ _)) r = again 0 (restart p r).1
  after_delivery again budget retry attempts (err e) r = some (err e, r)

  -- The `while` loop, on fuel: `none` means that the fuel ran out. `attempts` is the counter before
  -- the test.
  unfoldable pub deliver_loop : ℕ → String → ℕ → ℕ → Bool → ℕ → Run → Delivery
  unfolding after_delivery
  deliver_loop zero event_id sequence budget retry attempts r = none
  deliver_loop (suc fuel) event_id sequence budget retry attempts r =
      let (result, r') = deliver f event_id sequence r in
      elim (ltb attempts budget) [
        | false ↦ some (err (tool_error "delivery exceeded attempt budget"), r)
        | true ↦
            after_delivery (deliver_loop fuel event_id sequence budget retry) budget retry attempts
              result r'
      ]

  -- The fuel is enough: `deliver_loop_returns` in the module below.
  unfoldable pub deliver_event : String → ℕ → ℕ → Bool → M String
  unfolding deliver_loop
  deliver_event event_id sequence budget retry r =
      elim (deliver_loop (budget + budget + 2) event_id sequence budget retry 0 r) [
        | none ↦ (err out_of_fuel, r)
        | some done ↦ done
      ]
