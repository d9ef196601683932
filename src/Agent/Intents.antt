-- ===== src/Agent/Intents.antt =====
-- The intent and mark methods of `RuntimeStore` (src/agent_surface/runtime.py), which the outbox
-- repair uses.
use frontier_long_horizon_en.Prelude.{
  ℕ, String, Bool, ◌&&◌, Option, none, some, List, [], ◌∷◌, ◌++◌, ltb, ◌==◌, if◌then◌else◌, ok, err,
}
use frontier_long_horizon_en.Prelude.Exec.{gets}
use frontier_long_horizon_en.Substrate.Tables.{IntentRow, MarkRow}
use frontier_long_horizon_en.Substrate.Canonical.{Primitives}
use frontier_long_horizon_en.Agent.Runtime.{Run, M, ◌>>=◌, ◌>>◌, integrity_error}
use frontier_long_horizon_en.Agent.Methods.{advance_run, set_service, update_service, new_intent_id}

abbrev has_intent : String → List IntentRow → Bool
has_intent i [] = Bool.false
has_intent i (r ∷ rs) = if r.intent_id == i then Bool.true else has_intent i rs

-- `UPDATE intents SET state = 'completed', effect_id = ? WHERE intent_id = ?`
unfoldable pub complete_rows : String → String → List IntentRow → List IntentRow
complete_rows i e [] = []
complete_rows i e (r ∷ rs) =
    (if r.intent_id == i then record r { state = "completed"; effect_id = some e } else r)
    ∷ complete_rows i e rs

unfoldable pub replace_mark : MarkRow → List MarkRow → List MarkRow
replace_mark m [] = m ∷ []
replace_mark m (r ∷ rs) =
    let rest = replace_mark m rs in
    if (r.event_id == m.event_id) && (r.mark_key == m.mark_key) then rest else r ∷ rest

-- The row with the greatest tick for the event and the key; of equal ticks the first.
unfoldable pub latest_intent : String → String → List IntentRow → Option IntentRow
latest_intent i k [] = none
latest_intent i k (r ∷ rs) =
    let rest = latest_intent i k rs in
    if (r.source_event_id == i) && (r.logical_effect_key == k)
    then elim rest [
      | none ↦ some r
      | some q ↦ if ltb r.created_tick q.created_tick then some q else some r
    ]
    else rest

module _ (p : Primitives) where
  abbrev intent_row : String → String → String → String → ℕ → Run → IntentRow
  intent_row i k o l tick r = record {
    intent_id = new_intent_id p i k o l tick r.workload_id;
    source_event_id = i;
    command_key = k;
    occurrence_id = o;
    logical_effect_key = l;
    created_tick = tick;
    state = "created";
    effect_id = none;
  }

  insert_intent : String → String → String → String → ℕ → M String
  insert_intent i k o l tick r =
      let row = intent_row i k o l tick r in
      if has_intent row.intent_id r.store.service.intents
      then (err integrity_error, r)
      else (ok row.intent_id, set_service (λ v. record v { intents = v.intents ++ row ∷ [] }) r)

  unfoldable pub intent_create : String → String → String → String → M String
  unfolding advance_run insert_intent
  intent_create i k o l = do tick ← advance_run; insert_intent i k o l tick

unfoldable pub intent_complete : String → String → M (Unit {0})
unfolding advance_run complete_rows
intent_complete i e = do
  advance_run
  update_service (λ v. record v { intents = complete_rows i e v.intents })

unfoldable pub mark_event : String → String → String → M (Unit {0})
unfolding advance_run replace_mark
mark_event i k state = do
  advance_run
  update_service (λ v. record v {
    event_marks =
        replace_mark (record { event_id = i; mark_key = k; mark_state = state }) v.event_marks;
  })

unfoldable pub get_intent : String → String → M (Option IntentRow)
unfolding latest_intent
get_intent i k = gets (λ r. latest_intent i k r.store.service.intents)
