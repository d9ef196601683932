-- ===== src/Examples/Evaluations.antt =====
-- The theorems on src/evaluation_service/runner.py for a model that reads the status again and again.
use frontier_long_horizon_en.Prelude.{
  ℕ, ◌+◌, String, ◌≡◌, ◌↔◌, refl, true, false, Option, none, some, List, [], ◌∷◌,
}
use frontier_long_horizon_en.Evaluation.Cycle.{Entry, read_suffix, repeated_read_only_cycle}
use frontier_long_horizon_en.Evaluation.Cycle.Sound.{IsTried, IsCycle, repeated_read_only_cycle_iff}
use frontier_long_horizon_en.Evaluation.Runner.{
  Call, Response, World, Limits, Outcome, run_episode, opening, responded, provider_first,
}
use frontier_long_horizon_en.Evaluation.Runner.Bounded.{IsFair, run_episode_returns}

abbrev reading : String → Entry
reading tool = record {
  tool = tool;
  arguments = "{}";
  result_summary = "{}";
  success = true;
  terminated = false;
  truncated = false;
}

-- Two tools in turn, after a deployment.
abbrev timeline : List Entry
timeline =
    reading "telemetry.logs"
    ∷ reading "release.status"
    ∷ reading "telemetry.logs"
    ∷ reading "release.status"
    ∷ reading "release.deploy"
    ∷ []

cycle_found : repeated_read_only_cycle timeline ≡ some (2, 2)
unfolding repeated_read_only_cycle
cycle_found = refl

repeated_read_only_cycle_iff_example :
    ((x : ℕ × ℕ) × (repeated_read_only_cycle timeline ≡ some x))
    ↔ ((c : ℕ) × IsTried c (read_suffix timeline) × IsCycle c (read_suffix timeline))
repeated_read_only_cycle_iff_example = repeated_read_only_cycle_iff timeline

abbrev status_call : Call
status_call = record { name = "release.status"; arguments = "{}" }

abbrev answer : Response
answer = record {
  text = "";
  tool_calls = status_call ∷ [];
  input_tokens = 10;
  output_tokens = 5;
  estimated_cost = none;
}

-- A world that counts its steps.
abbrev world : World ℕ String
world = record {
  opened = λ w. (some (opening "ticket" ∷ []), w);
  cancelled = λ w. false;
  overdue = λ w. false;
  complete = λ messages w. (responded answer, w);
  sleep = λ retry w. w;
  race = λ w. provider_first;
  step = λ x w. (
    some (record {
      result = "{}";
      arguments_summary = "{}";
      result_summary = "{}";
      success = true;
      terminated = false;
      truncated = false;
      truncated_reason = none;
    }),
    w + 1,
  );
  grade = λ w. (some "fail", w);
}

abbrev limits : Limits
limits = record {
  max_model_calls = 8;
  input_token_budget = some 1000;
  output_token_budget = none;
  cost_budget = none;
}

abbrev reason_of : Option (Outcome String × ℕ) → String
reason_of none = ""
reason_of (some (o, w)) = o.termination_reason

-- The second reading repeats the first, which is warned of; the third ends the run.
stopped_as_repetitive : reason_of (run_episode world limits 2 0) ≡ "model_repetitive_tool_loop"
unfolding run_episode repeated_read_only_cycle
stopped_as_repetitive = refl

run_episode_returns_example :
    (o : Outcome String) × (w : ℕ) × (run_episode world limits 2 0 ≡ some (o, w))
    × IsFair limits world 2 o
run_episode_returns_example = run_episode_returns limits world 2 0
