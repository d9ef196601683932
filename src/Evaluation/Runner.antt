-- ===== src/Evaluation/Runner.antt =====
-- `EpisodeRunner` of src/evaluation_service/runner.py, from the reset of the environment on. The
-- provider, the environment, the clock and the cancellation are a parameter with a state. Costs are
-- whole numbers of some unit. Not modelled: the events that are emitted, the debug records, latency,
-- and the fields of the payload that the loop only copies. Proofs are in the module below.
pub mod Turns
pub mod Bounded
use frontier_long_horizon_en.Prelude.{
  ℕ, zero, suc, ◌+◌, String, Bool, true, false, not, ◌||◌, Option, none, some, List, [], ◌∷◌, ◌++◌,
  ltb, leb, ◌==◌, if◌then◌else◌, length, contains, Result, ok, err,
}
use frontier_long_horizon_en.Ground.Actions.{allowed_tools}
use frontier_long_horizon_en.Verifier.Workspaces.{occurs_in}
use frontier_long_horizon_en.Evaluation.Cycle.{Entry, repeated_read_only_cycle}

pub record Call : Type 0 where
  pub name : String
  pub arguments : String

pub record Response : Type 0 where
  pub text : String
  pub tool_calls : List Call
  pub input_tokens : ℕ
  pub output_tokens : ℕ
  pub estimated_cost : Option ℕ

-- The messages after the opening ones.
pub data Message : Type 0 where
  opening : String → Message
  assistant : Response → Message
  tool_result : Call → String → Message
  progress_guard : Message

-- What `adapter.complete` does under its timeout: a `ModelRunnerError` has a code and says whether
-- it is retryable; any other exception is broken.
pub data Answer : Type 0 where
  responded : Response → Answer
  timed_out : Answer
  runner_error : String → Bool → Answer
  broken : Answer

-- Which comes first: the provider, the cancellation, or the end of the time.
pub data First : Type 0 where
  provider_first : First
  cancelled_first : First
  time_is_up : First

-- What `env.step` returns: the result, what of it and of the arguments may be kept
-- (`sanitize_public`, `sanitize_arguments`), and `truncated_reason` of the observation.
pub record Stepped : Type 0 where
  pub result : String
  pub arguments_summary : String
  pub result_summary : String
  pub success : Bool
  pub terminated : Bool
  pub truncated : Bool
  pub truncated_reason : Option String

-- A step, a grade or the opening that raises is `none`.
pub record World (W G : Type 0) : Type 0 where
  pub opened : W → Option (List Message) × W
  pub cancelled : W → Bool
  pub overdue : W → Bool
  pub complete : List Message → W → Answer × W
  pub sleep : ℕ → W → W
  pub race : W → First
  pub step : Call → W → Option Stepped × W
  pub grade : W → Option G × W

-- `EvaluationLimits`, but for the clock and the steps of the environment.
pub record Limits : Type 0 where
  pub max_model_calls : ℕ
  pub input_token_budget : Option ℕ
  pub output_token_budget : Option ℕ
  pub cost_budget : Option ℕ

-- `termination_reason`, for an episode that is not interrupted.
pub data Reason : Type 0 where
  model_stopped_without_tool_call : Reason
  model_stopped : Reason
  wall_clock_budget : Reason
  model_call_budget : Reason
  input_token_budget : Reason
  output_token_budget : Reason
  cost_budget : Reason
  model_repetitive_tool_loop : Reason
  environment_terminated : Reason
  environment_truncated : String → Reason

unfoldable pub reason_text : Reason → String
reason_text model_stopped_without_tool_call = "model_stopped_without_tool_call"
reason_text model_stopped = "model_stopped"
reason_text wall_clock_budget = "wall_clock_budget"
reason_text model_call_budget = "model_call_budget"
reason_text input_token_budget = "input_token_budget"
reason_text output_token_budget = "output_token_budget"
reason_text cost_budget = "cost_budget"
reason_text model_repetitive_tool_loop = "model_repetitive_tool_loop"
reason_text environment_terminated = "environment_terminated"
reason_text (environment_truncated text) = text

-- What stops the loop from outside: a cancellation, or an exception with its category.
pub data Raised : Type 0 where
  cancellation : Raised
  failure : String → Raised

-- The variables of the loop. The timeline is listed newest first.
pub record Loop : Type 0 where
  pub messages : List Message
  pub timeline : List Entry
  pub warned : Bool
  pub model_calls : ℕ
  pub input_tokens : ℕ
  pub output_tokens : ℕ
  pub estimated_cost : Option ℕ

abbrev pub fresh : List Message → Loop
fresh messages = record {
  messages = messages;
  timeline = [];
  warned = false;
  model_calls = 0;
  input_tokens = 0;
  output_tokens = 0;
  estimated_cost = none;
}

pub data Ended : Type 0 where
  ended : Reason → Loop → Ended
  stopped : Raised → Loop → Ended

pub data Progress : Type 0 where
  goes_on : Loop → Progress
  done : Ended → Progress

abbrev pub ends : Reason → Loop → Progress
ends reason l = done (ended reason l)

abbrev pub stops : Raised → Loop → Progress
stops raised l = done (stopped raised l)

-- `EpisodeOutcome`, with the fields of the payload that the loop makes.
pub record Outcome (G : Type 0) : Type 0 where
  pub status : String
  pub verdict : Option G
  pub termination_reason : String
  pub truncation_reason : Option String
  pub error_category : Option String
  pub last : Loop

-- The guard against repetition: a warning, and the end at the next time.
unfoldable pub guarded : Loop → Loop × Option Reason
guarded l = elim (repeated_read_only_cycle l.timeline) [
  | none ↦ (l, none)
  | some _ ↦
      if l.warned
      then (l, some model_repetitive_tool_loop)
      else (record l { warned = true; messages = l.messages ++ progress_guard ∷ [] }, none)
]

abbrev pub truncation_text : Option String → String
truncation_text none = "environment_truncated"
truncation_text (some text) = if text == "" then "environment_truncated" else text

unfoldable pub reason_after : Stepped → Option Reason → Option Reason
reason_after r cycle =
    if r.terminated
    then some environment_terminated
    else if r.truncated
    then some (environment_truncated (truncation_text r.truncated_reason))
    else cycle

unfoldable pub record_call : Call → Stepped → Loop → Loop
record_call x r l = record l {
  timeline =
      record {
        tool = x.name;
        arguments = r.arguments_summary;
        result_summary = r.result_summary;
        success = r.success;
        terminated = r.terminated;
        truncated = r.truncated;
      }
      ∷ l.timeline;
  messages = l.messages ++ tool_result x r.result ∷ [];
}

abbrev pub take_calls : ℕ → List Call → List Call
take_calls zero xs = []
take_calls (suc n) [] = []
take_calls (suc n) (x ∷ xs) = x ∷ take_calls n xs

-- A count above its budget, if it has one.
abbrev pub above : Option ℕ → ℕ → Bool
above none n = false
above (some budget) n = ltb budget n

abbrev pub cost_above : Option ℕ → Option ℕ → Bool
cost_above budget none = false
cost_above budget (some cost) = above budget cost

abbrev pub add_cost : Option ℕ → Option ℕ → Option ℕ
add_cost total none = total
add_cost none (some cost) = some cost
add_cost (some total) (some cost) = some (total + cost)

-- `model_calls`, the tokens and the cost, with a response.
unfoldable pub count_response : Response → Loop → Loop
count_response r l = record l {
  model_calls = l.model_calls + 1;
  input_tokens = l.input_tokens + r.input_tokens;
  output_tokens = l.output_tokens + r.output_tokens;
  estimated_cost = add_cost l.estimated_cost r.estimated_cost;
}

module _ {W G : Type 0} (c : World W G) (limits : Limits) (max_retries : ℕ) where
  -- How the calls go on, if nothing ends the loop.
  abbrev pub unless_ended : Option Reason → Loop → W → (Loop → Progress × W) → Progress × W
  unless_ended (some reason) l w go_on = (ends reason l, w)
  unless_ended none l w go_on = go_on l

  unfoldable pub after_step :
      Call → Option Stepped → Loop → W → (Loop → Progress × W) → Progress × W
  unfolding record_call guarded reason_after
  after_step x none l w go_on = (stops (failure "evaluation_error") l, w)
  after_step x (some r) l w go_on =
      let (l1, cycle) = guarded (record_call x r l) in
      unless_ended (reason_after r cycle) l1 w go_on

  -- The calls of a response, in their order.
  unfoldable pub perform_calls : List Call → Loop → W → Progress × W
  unfolding after_step
  perform_calls [] l w = (goes_on l, w)
  perform_calls (x ∷ xs) l w =
      let (stepped, w1) = c.step x w in
      let performed = after_step x stepped l w1 (λ l1. perform_calls xs l1 w1) in
      if c.cancelled w
      then (stops cancellation l, w)
      else if not (contains x.name allowed_tools)
      then (stops (failure "unknown_tool") l, w)
      else performed

  unfoldable pub over_budget : Loop → Option Reason
  over_budget l =
      if cost_above limits.cost_budget l.estimated_cost
      then some cost_budget
      else if above limits.output_token_budget l.output_tokens
      then some output_token_budget
      else if above limits.input_token_budget l.input_tokens
      then some input_token_budget
      else none

  -- What is done with the calls of a response; none at all end the loop.
  unfoldable pub act : List Call → List Entry → Loop → W → Progress × W
  unfolding perform_calls
  act [] [] l w = (ends model_stopped_without_tool_call l, w)
  act [] (e ∷ es) l w = (ends model_stopped l, w)
  act (x ∷ xs) timeline l w = perform_calls (take_calls 4 (x ∷ xs)) l w

  -- From the response on.
  unfoldable pub after_response : Response → Loop → W → Progress × W
  unfolding over_budget act count_response
  after_response r l w =
      let l1 = count_response r l in
      unless_ended (over_budget l1) l1 w (λ l2.
        act r.tool_calls l2.timeline (record l2 { messages = l2.messages ++ assistant r ∷ [] }) w)

  -- `_complete_with_retry`, from the retries that are left.
  unfoldable pub complete_with_retry : ℕ → ℕ → List Message → W → Result Raised Response × W
  complete_with_retry zero retry messages w =
      if c.cancelled w
      then (err cancellation, w)
      else let (answer, w1) = c.complete messages w in
        elim answer [
          | responded r ↦ (ok r, w1)
          | timed_out ↦ (err (failure "provider_timeout"), w1)
          | runner_error code retryable ↦ (err (failure code), w1)
          | broken ↦ (err (failure "evaluation_error"), w1)
        ]
  complete_with_retry (suc left) retry messages w =
      if c.cancelled w
      then (err cancellation, w)
      else let (answer, w1) = c.complete messages w in
        let again = complete_with_retry left (retry + 1) messages (c.sleep retry w1) in
        elim answer [
          | responded r ↦ (ok r, w1)
          | timed_out ↦ again
          | runner_error code retryable ↦ if retryable then again else (err (failure code), w1)
          | broken ↦ (err (failure "evaluation_error"), w1)
        ]

  -- `_complete_with_limits`, by what came first.
  unfoldable pub after_race : First → Result Raised Response → Loop → W → Progress × W
  unfolding after_response
  after_race cancelled_first result l w = (stops cancellation l, w)
  after_race time_is_up result l w = (ends wall_clock_budget l, w)
  after_race provider_first (err raised) l w = (stops raised l, w)
  after_race provider_first (ok r) l w = after_response r l w

  -- One round of the loop.
  unfoldable pub turn : Loop → W → Progress × W
  unfolding complete_with_retry after_race
  turn l w =
      let (result, w1) = complete_with_retry max_retries 0 l.messages w in
      if c.cancelled w
      then (stops cancellation l, w)
      else if c.overdue w
      then (ends wall_clock_budget l, w)
      else if leb limits.max_model_calls l.model_calls
      then (ends model_call_budget l, w)
      else after_race (c.race w) result l w1

  abbrev pub after_turn : Progress → W → (Loop → Option (Ended × W)) → Option (Ended × W)
  after_turn (goes_on l) w next = next l
  after_turn (done e) w next = some (e, w)

  -- The loop: `none` if the fuel runs out.
  unfoldable pub rounds : ℕ → Loop → W → Option (Ended × W)
  unfolding turn
  rounds zero l w = none
  rounds (suc fuel) l w =
      let (progress, w1) = turn l w in after_turn progress w1 (λ l1. rounds fuel l1 w1)

  -- The handlers of exceptions: a grade that raises is left out.
  unfoldable pub interrupted : String → String → String → Loop → W → Outcome G × W
  interrupted status reason category l w =
      let (verdict, w1) = c.grade w in
      (
        record {
          status = status;
          verdict = verdict;
          termination_reason = reason;
          truncation_reason = none;
          error_category = some category;
          last = l;
        },
        w1,
      )

  unfoldable pub handled : Raised → Loop → W → Outcome G × W
  unfolding interrupted
  handled cancellation l w = interrupted "cancelled" "cancelled" "cancelled" l w
  handled (failure category) l w = interrupted "failed" "provider_or_runner_failure" category l w

  unfoldable pub completed : Reason → G → Loop → Outcome G
  unfolding reason_text
  completed reason verdict l =
      let text = reason_text reason in
      record {
        status = "completed";
        verdict = some verdict;
        termination_reason = text;
        truncation_reason =
            if occurs_in "budget" text || occurs_in "truncated" text then some text else none;
        error_category = none;
        last = l;
      }

  -- The end of `run`: a grade that raises fails a run that would be complete.
  unfoldable pub graded : Reason → Loop → Option G → W → Outcome G × W
  unfolding completed handled
  graded reason l none w = handled (failure "evaluation_error") l w
  graded reason l (some verdict) w = (completed reason verdict l, w)

  unfoldable pub finish : Ended → W → Outcome G × W
  unfolding graded handled
  finish (stopped raised l) w = handled raised l w
  finish (ended reason l) w = let (verdict, w1) = c.grade w in graded reason l verdict w1

  abbrev pub finish_all : Option (Ended × W) → Option (Outcome G × W)
  finish_all none = none
  finish_all (some (e, w)) = some (finish e w)

  -- With a round for each model call and one more.
  unfoldable pub begun : Option (List Message) → W → Option (Outcome G × W)
  unfolding rounds finish handled
  begun none w = some (handled (failure "evaluation_error") (fresh []) w)
  begun (some messages) w = finish_all (rounds (limits.max_model_calls + 1) (fresh messages) w)

  -- `run`
  unfoldable pub run_episode : W → Option (Outcome G × W)
  unfolding begun
  run_episode w = let (start, w1) = c.opened w in begun start w1
