-- ===== src/Agent/Workloads/Passing/Delivering.antt =====
-- One delivery of the one event in the journal (src/agent_surface/runtime.py): it settles the event,
-- or the transient failure stops it with nothing settled.
use frontier_long_horizon_en.Prelude.{
  ℕ, ◌+◌, String, ◌≡◌, refl, Bool, true, false, none, some, List, [], ◌∷◌, ok, err, ◌∙◌,
}
use frontier_long_horizon_en.Prelude.Exec.{pure}
use frontier_long_horizon_en.Substrate.Tables.{EffectRow}
use frontier_long_horizon_en.Substrate.Canonical.{Primitives}
use frontier_long_horizon_en.Agent.Runtime.{
  ◌>>=◌, ◌>>◌, Run, Command, M, Event, effect_amount, transient_failure,
}
use frontier_long_horizon_en.Agent.Methods.{
  advance_run, append_trace, load, settle, advance_cursor, effect_row, effect_by_key,
}
use frontier_long_horizon_en.Agent.Flow.{logical_identity_flow, deliver, identity_s5}
use frontier_long_horizon_en.Agent.Workloads.Passing.Accepting.{
  put, then_ok, then_err, row_at, row, found,
}

module _ (p : Primitives) where
  module _ (c : Command) (tick : ℕ) (s : Run) where
    pub event : Event
    event = record {
      event_id = (row p c tick s).event_id;
      command_key = (row p c tick s).command_key;
      occurrence_id = (row p c tick s).occurrence_id;
      payload_hash = (row p c tick s).payload_hash;
      accepted_tick = (row p c tick s).accepted_tick;
      logical_effect_key = none;
    }

    loads :
        (es : List EffectRow) (n : ℕ) (ats : List (String × ℕ)) (b : Bool) (r : Run)
        → (r' : Run) × (load p (row p c tick s).event_id (put (row p c tick s ∷ []) es n ats b r)
            ≡ (ok event, put (row p c tick s ∷ []) es n ats b r'))
    unfolding load event
    loads es n ats b r =
        let here = (advance_run (put (row p c tick s ∷ []) es n ats b r)).1 in
        (
          (append_trace p "s4" (some event.event_id) (some event.command_key)
              (some event.occurrence_id) here).1,
          rw (load, found p c tick s) refl,
        )

    -- The effect of the event, and the effects behind a delivery.
    unfoldable pub IsEffect : EffectRow → Type 0
    IsEffect x = (x.source_event_id ≡ (row p c tick s).event_id) × (x.amount ≡ effect_amount)

    settles :
        (n : ℕ) (ats : List (String × ℕ)) (r : Run)
        → (x : EffectRow) × (ats' : List (String × ℕ)) × (r' : Run) × IsEffect x
          × (settle p event (put (row p c tick s ∷ []) [] n ats false r)
              ≡ (ok x.effect_id, put (row p c tick s ∷ []) (x ∷ []) n ats' false r'))
    unfolding settle event IsEffect
    settles n ats r =
        let done = (settle p event (put (row p c tick s ∷ []) [] n ats false r)).1 in
        (effect_row p event (r.store.fake_tick + 1) r, done.attempts, done, (refl, refl), refl)

    fails :
        (n : ℕ) (r : Run)
        → (ats' : List (String × ℕ)) × (r' : Run) × (settle p event
              (put (row p c tick s ∷ []) [] n [] true r)
            ≡ (err transient_failure, put (row p c tick s ∷ []) [] n ats' false r'))
    unfolding settle event
    fails n r =
        let done = (settle p event (put (row p c tick s ∷ []) [] n [] true r)).1 in
        (done.attempts, done, refl)

    -- What follows the loading.
    onwards : Event → M String
    onwards e = do effect_id ← identity_s5 p e; advance_cursor p 1; pure effect_id

    pub delivers :
        (n : ℕ) (ats : List (String × ℕ)) (r : Run)
        → (x : EffectRow) × (ats' : List (String × ℕ)) × (r' : Run) × IsEffect x
          × (deliver
                (logical_identity_flow p)
                (row p c tick s).event_id
                1
                (put (row p c tick s ∷ []) [] n ats false r)
              ≡ (ok x.effect_id, put (row p c tick s ∷ []) (x ∷ []) 1 ats' false r'))
    unfolding deliver logical_identity_flow onwards identity_s5 effect_by_key advance_cursor row
        row_at
    delivers n ats r =
        let start = put (row p c tick s ∷ []) [] n ats false r in
        let (r1, loaded) = loads [] n ats false r in
        let (x, ats', r2, fine, settled) = settles n ats r1 in
        let after = put (row p c tick s ∷ []) (x ∷ []) n ats' false r2 in
        let rest : String → M String = λ i. (do advance_cursor p 1; pure i) in
        (
          x,
          ats',
          (advance_cursor p 1 after).1,
          fine,
          then_ok (load p (row p c tick s).event_id) onwards start
                (put (row p c tick s ∷ []) [] n ats false r1) event loaded
              ∙ then_ok (settle p event) rest (put (row p c tick s ∷ []) [] n ats false r1) after
                  x.effect_id settled,
        )

    pub delivery_fails :
        (n : ℕ) (r : Run)
        → (ats' : List (String × ℕ)) × (r' : Run) × (deliver
              (logical_identity_flow p)
              (row p c tick s).event_id
              1
              (put (row p c tick s ∷ []) [] n [] true r)
            ≡ (err transient_failure, put (row p c tick s ∷ []) [] n ats' false r'))
    unfolding deliver logical_identity_flow onwards identity_s5 effect_by_key advance_cursor
    delivery_fails n r =
        let start = put (row p c tick s ∷ []) [] n [] true r in
        let (r1, loaded) = loads [] n [] true r in
        let (ats', r2, failed) = fails n r1 in
        let rest : String → M String = λ i. (do advance_cursor p 1; pure i) in
        (
          ats',
          r2,
          then_ok (load p (row p c tick s).event_id) onwards start
                (put (row p c tick s ∷ []) [] n [] true r1) event loaded
              ∙ then_err (settle p event) rest (put (row p c tick s ∷ []) [] n [] true r1)
                  (put (row p c tick s ∷ []) [] n ats' false r2) transient_failure failed,
        )
