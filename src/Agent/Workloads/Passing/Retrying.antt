-- ===== src/Agent/Workloads/Passing/Retrying.antt =====
-- The delivery of the one event under the attempt budget (src/agent_surface/runtime.py), with the
-- retry after a transient failure.
use frontier_long_horizon_en.Prelude.{
  ℕ, ◌+◌, String, ◌≡◌, Bool, true, false, none, some, List, [], ◌∷◌, Result, ok, err, arith, ap,
  ◌∙◌, Option, ltb, leb, suc, ◌≤◌,
}
use frontier_long_horizon_en.Substrate.Tables.{JournalRow, EffectRow}
use frontier_long_horizon_en.Substrate.Canonical.{Primitives}
use frontier_long_horizon_en.Agent.Runtime.{
  ◌>>=◌, ◌>>◌, Run, Stop, Command, M, tool_error, out_of_fuel,
}
use frontier_long_horizon_en.Agent.Flow.{logical_identity_flow, deliver}
use frontier_long_horizon_en.Agent.Engine.{
  deliver_loop, deliver_event, after_delivery, log_interrupted,
}
use frontier_long_horizon_en.Agent.Workloads.{log_window, log_canary, sequence_of, deliver_all}
use frontier_long_horizon_en.Agent.Workloads.Passing.Accepting.{put, then_ok, row_at, row, found}
use frontier_long_horizon_en.Agent.Workloads.Passing.Delivering.{IsEffect, delivers, delivery_fails}

module _ (p : Primitives) where
  module _ (c : Command) (tick : ℕ) (s : Run) where
    module _ (budget : ℕ) where
      loop : ℕ → ℕ → Run → Option (Result Stop String × Run)
      loop fuel =
          deliver_loop p (logical_identity_flow p) fuel (row p c tick s).event_id 1 budget true

      -- A round, from the test on the attempts and from what the delivery gives.
      round : ℕ → ℕ → Run → Bool → Result Stop String × Run → Option (Result Stop String × Run)
      round fuel attempts r test x = elim test [
        | false ↦ some (err (tool_error "delivery exceeded attempt budget"), r)
        | true ↦ after_delivery p (logical_identity_flow p) (loop fuel) budget true attempts x.0 x.1
      ]

      -- What a delivery leaves, with its effect.
      abbrev IsDelivered : Option (Result Stop String × Run) → Type 0
      IsDelivered o =
          (x : EffectRow) × (ats' : List (String × ℕ)) × (r' : Run) × IsEffect p c tick s x
          × (o ≡ some (ok x.effect_id, put (row p c tick s ∷ []) (x ∷ []) 1 ats' false r'))

      loop_succeeds :
          (fuel n attempts : ℕ) (ats : List (String × ℕ)) (r : Run)
          → ltb attempts budget ≡ true
          → IsDelivered (loop (suc fuel) attempts (put (row p c tick s ∷ []) [] n ats false r))
      unfolding loop round deliver_loop after_delivery
      loop_succeeds fuel n attempts ats r within =
          let start = put (row p c tick s ∷ []) [] n ats false r in
          let (x, ats', r', fine, e) = delivers p c tick s n ats r in
          (
            x,
            ats',
            r',
            fine,
            ap
                  (λ t.
                    round fuel attempts start t
                      (deliver (logical_identity_flow p) (row p c tick s).event_id 1 start))
                  within
                ∙ ap (round fuel attempts start true) e,
          )

      loop_retries :
          (fuel n : ℕ) (r : Run)
          → ltb 0 budget ≡ true
          → ltb 1 budget ≡ true
          → leb budget 1 ≡ false
          → IsDelivered (loop (suc (suc fuel)) 0 (put (row p c tick s ∷ []) [] n [] true r))
      unfolding loop round deliver_loop after_delivery log_interrupted
      loop_retries fuel n r first second left =
          let start = put (row p c tick s ∷ []) [] n [] true r in
          let (ats, r1, failed) = delivery_fails p c tick s n r in
          let logged =
            (log_interrupted p (logical_identity_flow p)
              (put (row p c tick s ∷ []) [] n ats false r1)).1 in
          let (x, ats', r', fine, e) = loop_succeeds fuel n 1 ats logged second in
          let refused : Option (Result Stop String × Run) =
            some (err (tool_error "transient effect exceeded attempt budget"), logged) in
          (
            x,
            ats',
            r',
            fine,
            ap
                  (λ t.
                    round (suc fuel) 0 start t
                      (deliver (logical_identity_flow p) (row p c tick s).event_id 1 start))
                  first
                ∙ ap (round (suc fuel) 0 start true) failed
                ∙ ap
                    (λ t. (elim t as (λ _. Option (Result Stop String × Run)) [
                      | true ↦ refused
                      | false ↦ loop (suc fuel) 1 logged
                    ]))
                    left
                ∙ e,
          )

      loop_delivers :
          (fuel n : ℕ) (b : Bool) (r : Run)
          → 2 ≤ budget
          → IsDelivered (loop (suc (suc fuel)) 0 (put (row p c tick s ∷ []) [] n [] b r))
      loop_delivers fuel n true r le =
          loop_retries fuel n r (ground arith) (ground arith) (ground arith)
      loop_delivers fuel n false r le = loop_succeeds (suc fuel) n 0 [] r (ground arith)

      event_outcome : Run → Option (Result Stop String × Run) → Result Stop String × Run
      event_outcome r o = elim o [ none ↦ (err out_of_fuel, r) | some done ↦ done ]

      delivers_event :
          (n : ℕ) (b : Bool) (r : Run)
          → 2 ≤ budget
          → (x : EffectRow) × (ats' : List (String × ℕ)) × (r' : Run) × IsEffect p c tick s x
            × (deliver_event p
                  (logical_identity_flow p)
                  (row p c tick s).event_id
                  1
                  budget
                  true
                  (put (row p c tick s ∷ []) [] n [] b r)
                ≡ (ok x.effect_id, put (row p c tick s ∷ []) (x ∷ []) 1 ats' false r'))
      unfolding deliver_event loop event_outcome
      delivers_event n b r le =
          let start = put (row p c tick s ∷ []) [] n [] b r in
          let (x, ats', r', fine, e) = loop_delivers (budget + budget) n b r le in
          let fuel : budget + budget + 2 ≡ suc (suc (budget + budget)) = omega arith in
          (
            x,
            ats',
            r',
            fine,
            ap (λ k. event_outcome start (loop k 0 start)) fuel ∙ ap (event_outcome start) e,
          )

      sequenced :
          (b : Bool) (n : ℕ) (r : Run)
          → sequence_of p
              (logical_identity_flow p)
              (row p c tick s).event_id
              (put (row p c tick s ∷ []) [] n [] b r)
            ≡ (ok 1, put (row p c tick s ∷ []) [] n [] b r)
      unfolding sequence_of row row_at
      sequenced b n r =
          ap
            (λ (o : Option JournalRow). (elim o as (λ _. Result Stop ℕ × Run) [
              | none ↦
                  (err (tool_error "event not in journal"), put (row p c tick s ∷ []) [] n [] b r)
              | some q ↦ (ok q.seq, put (row p c tick s ∷ []) [] n [] b r)
            ]))
            (found p c tick s)

      pub delivers_all :
          (n : ℕ) (b : Bool) (r : Run)
          → 2 ≤ budget
          → (x : EffectRow) × (ats' : List (String × ℕ)) × (r' : Run) × IsEffect p c tick s x
            × (deliver_all p
                  (logical_identity_flow p)
                  budget
                  ((row p c tick s).event_id ∷ [])
                  (put (row p c tick s ∷ []) [] n [] b r)
                ≡ (ok tt, put (row p c tick s ∷ []) (x ∷ []) 1 ats' false r'))
      unfolding deliver_all log_window log_canary
      delivers_all n b r le =
          let i = (row p c tick s).event_id in
          let f = logical_identity_flow p in
          let start = put (row p c tick s ∷ []) [] n [] b r in
          let opened = (log_window p f start).1 in
          let (x, ats', r', fine, e) = delivers_event n b opened le in
          let after = put (row p c tick s ∷ []) (x ∷ []) 1 ats' false r' in
          let last : String → M (Unit {0}) =
            λ _. (do log_canary p f i; deliver_all p f budget []) in
          let middle : ℕ → M (Unit {0}) = λ k. (do
            log_window p f
            settled ← deliver_event p f i k budget true
            log_canary p f i
            deliver_all p f budget []) in
          (
            x,
            ats',
            (log_canary p f i after).1,
            fine,
            then_ok (sequence_of p f i) middle start start 1 (sequenced b n r)
                ∙ then_ok (deliver_event p f i 1 budget true) last
                    (put (row p c tick s ∷ []) [] n [] b opened) after x.effect_id e,
          )
