-- ===== src/Evaluation/Runner/Turns.antt =====
-- What one response of the model adds to an episode (src/evaluation_service/runner.py).
use frontier_long_horizon_en.Prelude.{
  ℕ, zero, suc, ◌+◌, ◌≤◌, ◌≡◌, refl, Bool, true, false, Option, none, some, List, [], ◌∷◌, ◌++◌,
  length, arith, Bool-cases, inl, inr, contains, not, if◌then◌else◌,
}
use frontier_long_horizon_en.Evaluation.Cycle.{Entry}
use frontier_long_horizon_en.Ground.Actions.{allowed_tools}
use frontier_long_horizon_en.Evaluation.Runner.{
  Call, Response, Stepped, World, Limits, Reason, Loop, Progress, ends, stops, guarded,
  reason_after, record_call, take_calls, above, cost_above, count_response, unless_ended,
  after_step, perform_calls, over_budget, act, after_response, assistant,
  model_stopped_without_tool_call, model_stopped, input_token_budget, output_token_budget,
  cost_budget, cancellation, failure, ended, stopped, goes_on, done,
}

-- Whether a reason names the budget of tokens or of costs.
abbrev pub is_spent : Reason → Bool
is_spent input_token_budget = true
is_spent output_token_budget = true
is_spent cost_budget = true
is_spent _ = false

module _ (limits : Limits) where
  -- No budget is exceeded.
  pub record IsWithin (l : Loop) : Type 0 where
    pub input : above limits.input_token_budget l.input_tokens ≡ false
    pub output : above limits.output_token_budget l.output_tokens ≡ false
    pub cost : cost_above limits.cost_budget l.estimated_cost ≡ false

  pub record IsCounted (m n : ℕ) (l : Loop) : Type 0 where
    pub calls : l.model_calls ≡ m
    pub actions : length l.timeline ≤ n

  -- So many model calls, at most so many actions, and no budget exceeded.
  pub record Is (m n : ℕ) (l : Loop) : Type 0 where
    pub counted : IsCounted m n l
    pub within : IsWithin l

  abbrev pub Comes : ℕ → ℕ → Progress → Type 0
  Comes m n (goes_on l) = Is m n l
  Comes m n (done (ended reason l)) = IsCounted m n l × (is_spent reason ≡ false → IsWithin l)
  Comes m n (done (stopped raised l)) = IsCounted m n l

  stays : (m n k : ℕ) (l : Loop) → n ≤ k → Is m n l → Is m k l
  stays m n k l le i = ground arith

  ends-Comes :
      (m n k : ℕ) (reason : Reason) (l : Loop) → n ≤ k → Is m n l → Comes m k (ends reason l)
  ends-Comes m n k reason l le i = let j = stays m n k l le i in (j.counted, λ h. j.within)

  guarded-Is : (m n : ℕ) (l : Loop) → Is m n l → Is m n (guarded l).0
  unfolding guarded
  guarded-Is m n l i = ground arith

  record_call-Is :
      (m n : ℕ) (x : Call) (r : Stepped) (l : Loop) → Is m n l → Is m (n + 1) (record_call x r l)
  unfolding record_call
  record_call-Is m n x r l i = ground arith

  Comes-if :
      {W : Type 0} (m n : ℕ) (b : Bool) (x y : Progress × W)
      → Comes m n x.0
      → Comes m n y.0
      → Comes m n (if b then x else y).0
  Comes-if m n true x y hx hy = hx
  Comes-if m n false x y hx hy = hy

  take_calls-le : (n : ℕ) (xs : List Call) → length (take_calls n xs) ≤ n
  take_calls-le zero xs = omega arith
  take_calls-le (suc n) [] = omega arith
  take_calls-le (suc n) (x ∷ xs) = omega (arith, take_calls-le n xs)

  module _ {W G : Type 0} (c : World W G) (max_retries : ℕ) where
    unless_ended-Comes :
        (m n k : ℕ) (o : Option Reason) (l : Loop) (w : W) (go_on : Loop → Progress × W)
        → Is m n l
        → n ≤ k
        → ((l' : Loop) → Is m n l' → Comes m k (go_on l').0)
        → Comes m k (unless_ended c limits max_retries o l w go_on).0
    unless_ended-Comes m n k none l w go_on i le h = h l i
    unless_ended-Comes m n k (some reason) l w go_on i le h = ends-Comes m n k reason l le i

    after_step-Comes :
        (m n k : ℕ) (x : Call) (o : Option Stepped) (l : Loop) (w : W) (go_on : Loop → Progress × W)
        → Is m n l
        → n + 1 ≤ k
        → ((l' : Loop) → Is m (n + 1) l' → Comes m k (go_on l').0)
        → Comes m k (after_step c limits max_retries x o l w go_on).0
    unfolding after_step
    after_step-Comes m n k x none l w go_on i le h = (stays m n k l (omega arith) i).counted
    after_step-Comes m n k x (some r) l w go_on i le h =
        let (l1, cycle) = guarded (record_call x r l) in
        unless_ended-Comes m (n + 1) k (reason_after r cycle) l1 w go_on
          (guarded-Is m (n + 1) (record_call x r l) (record_call-Is m n x r l i)) le h

    perform_calls-Comes :
        (m n k : ℕ) (xs : List Call) (l : Loop) (w : W)
        → Is m n l
        → n + length xs ≤ k
        → Comes m k (perform_calls c limits max_retries xs l w).0
    unfolding perform_calls
    perform_calls-Comes m n k [] l w i le = stays m n k l (omega arith) i
    perform_calls-Comes m n k (x ∷ xs) l w i le =
        let kept = (stays m n k l (omega arith) i).counted in
        let (stepped, w1) = c.step x w in
        let next = λ (l1 : Loop). perform_calls c limits max_retries xs l1 w1 in
        let performed = after_step c limits max_retries x stepped l w1 next in
        Comes-if m k (c.cancelled w) (stops cancellation l, w)
          (if not (contains x.name allowed_tools)
            then (stops (failure "unknown_tool") l, w)
            else performed)
          kept
          (Comes-if m k (not (contains x.name allowed_tools)) (stops (failure "unknown_tool") l, w)
            performed kept
            (after_step-Comes m n k x stepped l w1 next i (omega arith)
              (λ l1 j. perform_calls-Comes m (n + 1) k xs l1 w1 j (omega arith))))

    act-Comes :
        (m n k : ℕ) (xs : List Call) (timeline : List Entry) (l : Loop) (w : W)
        → Is m n l
        → n + 4 ≤ k
        → Comes m k (act c limits max_retries xs timeline l w).0
    unfolding act
    act-Comes m n k [] [] l w i le =
        ends-Comes m n k model_stopped_without_tool_call l (omega arith) i
    act-Comes m n k [] (e ∷ es) l w i le = ends-Comes m n k model_stopped l (omega arith) i
    act-Comes m n k (x ∷ xs) timeline l w i le =
        perform_calls-Comes m n k (take_calls 4 (x ∷ xs)) l w i
          (omega (arith, take_calls-le 4 (x ∷ xs)))

    Judges : Option Reason → Loop → Type 0
    Judges none l = IsWithin l
    Judges (some reason) l = is_spent reason ≡ true

    over_budget-Judges : (l : Loop) → Judges (over_budget c limits max_retries l) l
    unfolding over_budget Judges
    over_budget-Judges l = elim (Bool-cases (cost_above limits.cost_budget l.estimated_cost)) [
      | inl e ↦ rw e refl
      | inr e ↦ elim (Bool-cases (above limits.output_token_budget l.output_tokens)) [
        | inl f ↦ rw (e, f) refl
        | inr f ↦ elim (Bool-cases (above limits.input_token_budget l.input_tokens)) [
          | inl g ↦ rw (e, f, g) refl
          | inr g ↦ rw (e, f, g) (record { input = g; output = f; cost = e })
        ]
      ]
    ]

    judged-Comes :
        (m n k : ℕ) (o : Option Reason) (l : Loop) (w : W) (go_on : Loop → Progress × W)
        → IsCounted m n l
        → n ≤ k
        → Judges o l
        → (Is m n l → Comes m k (go_on l).0)
        → Comes m k (unless_ended c limits max_retries o l w go_on).0
    unfolding Judges
    judged-Comes m n k none l w go_on i le j h = h (record { counted = i; within = j })
    judged-Comes m n k (some reason) l w go_on i le j h = (ground arith, λ s. absurd (ground arith))

    pub after_response-Comes :
        (m n k : ℕ) (r : Response) (l : Loop) (w : W)
        → Is m n l
        → n + 4 ≤ k
        → Comes (m + 1) k (after_response c limits max_retries r l w).0
    unfolding after_response
    after_response-Comes m n k r l w i le =
        let l1 = count_response r l in
        let acted = λ (l2 : Loop).
          act c limits max_retries r.tool_calls l2.timeline
            (record l2 { messages = l2.messages ++ assistant r ∷ [] }) w in
        judged-Comes (m + 1) n k (over_budget c limits max_retries l1) l1 w acted (ground arith)
          (omega arith) (over_budget-Judges l1)
          (λ j.
            act-Comes (m + 1) n k r.tool_calls l1.timeline
              (record l1 { messages = l1.messages ++ assistant r ∷ [] }) w (ground arith) le)
