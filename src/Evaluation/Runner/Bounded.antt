-- ===== src/Evaluation/Runner/Bounded.antt =====
-- An evaluated episode ends, within its limits (src/evaluation_service/runner.py).
use frontier_long_horizon_en.Prelude.{
  ℕ, zero, suc, ◌+◌, ◌*◌, ◌≤◌, ◌<◌, ◌≡◌, refl, Bool, true, false, Option, none, some, List, [],
  length, Result, ok, err, arith, inl, inr, ◌⊎◌, ◌≢◌, eq_iff, leb, if◌then◌else◌,
}
use frontier_long_horizon_en.Evaluation.Runner.{
  graded, begun, Response, Message, First, World, Limits, Reason, Raised, Loop, fresh, Ended,
  Progress, ends, stops, Outcome, above, after_response, complete_with_retry, after_race, turn,
  after_turn, rounds, handled, completed, finish, finish_all, run_episode, provider_first,
  cancelled_first, time_is_up, model_stopped_without_tool_call, model_stopped, wall_clock_budget,
  model_call_budget, input_token_budget, output_token_budget, cost_budget,
  model_repetitive_tool_loop, environment_terminated, environment_truncated, cancellation, failure,
  ended, stopped, goes_on, done,
}
use frontier_long_horizon_en.Evaluation.Runner.Turns.{
  is_spent, IsWithin, Is, Comes, after_response-Comes,
}

module _ (limits : Limits) {W G : Type 0} (c : World W G) (max_retries : ℕ) where
  -- The calls and the actions of an episode that has ended.
  pub record IsBounded (l : Loop) : Type 0 where
    pub calls : l.model_calls ≤ limits.max_model_calls
    pub actions : length l.timeline ≤ 4 * l.model_calls

  abbrev HasEnded : Ended → Type 0
  HasEnded (ended reason l) = IsBounded l × (is_spent reason ≡ false → IsWithin limits l)
  HasEnded (stopped raised l) = IsBounded l

  abbrev Turns : ℕ → Progress → Type 0
  Turns m (goes_on l) = Is limits (m + 1) (4 * (m + 1)) l × (m + 1 ≤ limits.max_model_calls)
  Turns m (done e) = HasEnded e

  turned :
      (m : ℕ) (x : Progress)
      → m + 1 ≤ limits.max_model_calls
      → Comes limits (m + 1) (4 * (m + 1)) x
      → Turns m x
  turned m (goes_on l) le h = (h, le)
  turned m (done (ended reason l)) le h = (ground arith, h.1)
  turned m (done (stopped raised l)) le h = ground arith

  Turns-if :
      (m : ℕ) (b : Bool) (x y : Progress × W)
      → Turns m x.0
      → (b ≡ false → Turns m y.0)
      → Turns m (if b then x else y).0
  Turns-if m true x y hx hy = hx
  Turns-if m false x y hx hy = hy refl

  after_race-Turns :
      (m : ℕ) (f : First) (result : Result Raised Response) (l : Loop) (w : W)
      → Is limits m (4 * m) l
      → m + 1 ≤ limits.max_model_calls
      → Turns m (after_race c limits max_retries f result l w).0
  unfolding after_race
  after_race-Turns m cancelled_first result l w i le = ground arith
  after_race-Turns m time_is_up result l w i le = (ground arith, λ s. i.within)
  after_race-Turns m provider_first (err raised) l w i le = ground arith
  after_race-Turns m provider_first (ok r) l w i le =
      turned m (after_response c limits max_retries r l w).0 le
        (after_response-Comes limits c max_retries m (4 * m) (4 * (m + 1)) r l w i (omega arith))

  turn-Turns :
      (m : ℕ) (l : Loop) (w : W)
      → Is limits m (4 * m) l
      → m ≤ limits.max_model_calls
      → Turns m (turn c limits max_retries l w).0
  unfolding turn
  turn-Turns m l w i le =
      let bounded : IsBounded l = ground arith in
      let (result, w1) = complete_with_retry c limits max_retries max_retries 0 l.messages w in
      let raced = after_race c limits max_retries (c.race w) result l w1 in
      let counted =
        if leb limits.max_model_calls l.model_calls then (ends model_call_budget l, w) else raced in
      Turns-if m (c.cancelled w) (stops cancellation l, w)
        (if c.overdue w then (ends wall_clock_budget l, w) else counted) bounded
        (λ _.
          Turns-if m (c.overdue w) (ends wall_clock_budget l, w) counted (bounded, λ s. i.within)
            (λ _.
              Turns-if m (leb limits.max_model_calls l.model_calls) (ends model_call_budget l, w)
                raced (bounded, λ s. i.within)
                (λ h. after_race-Turns m (c.race w) result l w1 i (ground arith))))

  -- The loop ends, and well.
  abbrev IsLast : Option (Ended × W) → Type 0
  IsLast o = (e : Ended) × (w : W) × (o ≡ some (e, w)) × HasEnded e

  after_turn-IsLast :
      (m : ℕ) (x : Progress) (w : W) (next : Loop → Option (Ended × W))
      → Turns m x
      → ((l : Loop) → Turns m (goes_on l) → IsLast (next l))
      → IsLast (after_turn c limits max_retries x w next)
  after_turn-IsLast m (goes_on l) w next t h = h l t
  after_turn-IsLast m (done e) w next t h = (e, w, refl, t)

  rounds-IsLast :
      (fuel m : ℕ) (l : Loop) (w : W)
      → Is limits m (4 * m) l
      → m ≤ limits.max_model_calls
      → limits.max_model_calls < m + fuel
      → IsLast (rounds c limits max_retries fuel l w)
  unfolding rounds
  rounds-IsLast zero m l w i le f = absurd (omega arith)
  rounds-IsLast (suc fuel) m l w i le f =
      let (progress, w1) = turn c limits max_retries l w in
      after_turn-IsLast m progress w1 (λ l1. rounds c limits max_retries fuel l1 w1)
        (turn-Turns m l w i le) (λ l1 t. rounds-IsLast fuel (m + 1) l1 w1 t.0 t.1 (omega arith))

  -- Of an outcome: its calls and actions, and that a completed run that names no budget has
  -- exceeded none.
  abbrev pub IsFair : Outcome G → Type 0
  IsFair o =
      IsBounded o.last
      × ((o.status ≢ "completed") ⊎ (o.truncation_reason ≢ none) ⊎ IsWithin limits o.last)

  handled-IsFair :
      (raised : Raised) (l : Loop) (w : W)
      → IsBounded l
      → IsFair (handled c limits max_retries raised l w).0
  unfolding handled
  handled-IsFair cancellation l w b = (b, inl (λ h. ground (arith, eq_iff "cancelled" "completed")))
  handled-IsFair (failure category) l w b =
      (b, inl (λ h. ground (arith, eq_iff "failed" "completed")))

  completed-IsFair :
      (reason : Reason) (verdict : G) (l : Loop)
      → HasEnded (ended reason l)
      → IsFair (completed c limits max_retries reason verdict l)
  unfolding completed
  completed-IsFair input_token_budget verdict l h = (h.0, inr (inl (λ n. cc)))
  completed-IsFair output_token_budget verdict l h = (h.0, inr (inl (λ n. cc)))
  completed-IsFair cost_budget verdict l h = (h.0, inr (inl (λ n. cc)))
  completed-IsFair wall_clock_budget verdict l h = (h.0, inr (inr (h.1 refl)))
  completed-IsFair model_call_budget verdict l h = (h.0, inr (inr (h.1 refl)))
  completed-IsFair model_stopped_without_tool_call verdict l h = (h.0, inr (inr (h.1 refl)))
  completed-IsFair model_stopped verdict l h = (h.0, inr (inr (h.1 refl)))
  completed-IsFair model_repetitive_tool_loop verdict l h = (h.0, inr (inr (h.1 refl)))
  completed-IsFair environment_terminated verdict l h = (h.0, inr (inr (h.1 refl)))
  completed-IsFair (environment_truncated text) verdict l h = (h.0, inr (inr (h.1 refl)))

  graded-IsFair :
      (reason : Reason) (l : Loop) (verdict : Option G) (w : W)
      → HasEnded (ended reason l)
      → IsFair (graded c limits max_retries reason l verdict w).0
  unfolding graded
  graded-IsFair reason l none w h = handled-IsFair (failure "evaluation_error") l w h.0
  graded-IsFair reason l (some verdict) w h = completed-IsFair reason verdict l h

  finish-IsFair : (e : Ended) (w : W) → HasEnded e → IsFair (finish c limits max_retries e w).0
  unfolding finish
  finish-IsFair (stopped raised l) w h = handled-IsFair raised l w h
  finish-IsFair (ended reason l) w h = graded-IsFair reason l (c.grade w).0 (c.grade w).1 h

  -- A run that returns an outcome for which this holds.
  abbrev Returns : Option (Outcome G × W) → Type 0
  Returns r = (o : Outcome G) × (w : W) × (r ≡ some (o, w)) × IsFair o

  finish_all-Returns :
      (r : Option (Ended × W)) → IsLast r → Returns (finish_all c limits max_retries r)
  finish_all-Returns r (e, w, h, ends_well) = rw h (
    (finish c limits max_retries e w).0,
    (finish c limits max_retries e w).1,
    refl,
    finish-IsFair e w ends_well,
  )

  above-zero : (budget : Option ℕ) → above budget 0 ≡ false
  above-zero none = refl
  above-zero (some n) = ground arith

  fresh-Is : (messages : List Message) → Is limits 0 (4 * 0) (fresh messages)
  fresh-Is messages = record {
    counted = omega arith;
    within = record {
      input = above-zero limits.input_token_budget;
      output = above-zero limits.output_token_budget;
      cost = refl;
    };
  }

  begun-Returns :
      (start : Option (List Message)) (w : W) → Returns (begun c limits max_retries start w)
  unfolding begun
  begun-Returns none w =
      let x = handled c limits max_retries (failure "evaluation_error") (fresh []) w in
      (x.0, x.1, refl, handled-IsFair (failure "evaluation_error") (fresh []) w (omega arith))
  begun-Returns (some messages) w =
      finish_all-Returns
        (rounds c limits max_retries (limits.max_model_calls + 1) (fresh messages) w)
        (rounds-IsLast (limits.max_model_calls + 1) 0 (fresh messages) w (fresh-Is messages)
          (omega arith) (omega arith))

  -- Whatever the provider, the environment and the clock do, a run of an evaluated episode returns
  -- an outcome, with at most as many model calls as its limit and at most four actions for each of
  -- them; and the outcome is not completed, or names a truncation, or has exceeded no budget of
  -- tokens or of costs.
  pub run_episode_returns :
      (w : W)
      → (o : Outcome G) × (w' : W) × (run_episode c limits max_retries w ≡ some (o, w')) × IsFair o
  unfolding run_episode
  run_episode_returns w = begun-Returns (c.opened w).0 (c.opened w).1
