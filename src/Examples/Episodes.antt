-- ===== src/Examples/Episodes.antt =====
-- The theorems on src/training_ground/episode.py at an episode of one diagnosis and one action that
-- is no action.
use frontier_long_horizon_en.Prelude.{List, [], false, none, refl, some, true, ℕ, ◌+◌, ◌∷◌, ◌≡◌}
use frontier_long_horizon_en.Ground.Transcript.{new_transcript}
use frontier_long_horizon_en.Ground.Limits.{default_limits}
use frontier_long_horizon_en.Ground.Actions.{Value, text, dict, field, no_fields, validate_action}
use frontier_long_horizon_en.Ground.Client.{Status, Client, Encoding, replied}
use frontier_long_horizon_en.Ground.Episode.{Env, materials_of, step, reset}
use frontier_long_horizon_en.Ground.Episode.Bounds.{take_steps}
use frontier_long_horizon_en.Ground.Episode.Recorded.{
  episode_is_authenticated, open_episode_is_within_limits,
}
use frontier_long_horizon_en.Verifier.Checks.{authenticated, within_limits}
use frontier_long_horizon_en.Examples.Instances.{spelled_hashing}
use frontier_long_horizon_en.Examples.Transcripts.{claim, key}
use frontier_long_horizon_en.Examples.Sessions.{measuring, passing}
use frontier_long_horizon_en.Examples.Gradings.{episode}

abbrev status_41 : Status
status_41 = record {
  session_id = "session";
  tick = 41;
  incident = "open";
  public_canary = "green_once";
}

-- A gateway that answers every call, and counts them.
abbrev counting : Client ℕ
counting = record {
  binds = λ tool arguments. true;
  call = λ tool arguments g. (replied (text "done"), g + 1);
  release_status = λ g. (some status_41, g);
  materials = λ g. episode;
}

abbrev plain : Encoding
plain = record {
  action_bytes = λ v. 10;
  result_bytes = λ v. 20;
  text_of = λ v. "tool";
  arguments_digest = λ fs. "arguments";
  result_digest = λ v. "result";
  error_result = λ x. text "error";
  gateway_unavailable = text "gateway unavailable";
}

abbrev unopened : Env ℕ
unopened = record {
  limits = default_limits;
  max_steps = none;
  gateway = none;
  transcript = new_transcript "final-1.0.0" claim key;
  action_count = 0;
  total_bytes = 0;
  sequence = 0;
  closed = false;
  ended = false;
  graded = false;
  grade_result = none;
  last_trace_handle = none;
}

abbrev reset_env : Env ℕ
reset_env =
    (reset spelled_hashing measuring passing counting plain "final-1.0.0" claim key "manifest" 0
      unopened).1

abbrev actions : List Value
actions =
    dict (field "tool" (text "telemetry.logs") no_fields)
    ∷ dict (field "verb" (text "x") no_fields)
    ∷ []

abbrev played : Env ℕ
played = take_steps spelled_hashing measuring passing counting plain actions reset_env

played_counts : played.action_count ≡ 2
unfolding take_steps step validate_action reset
played_counts = refl

played_is_open : played.ended ≡ false
unfolding take_steps step validate_action reset
played_is_open = refl

episode_is_authenticated_example :
    authenticated spelled_hashing measuring
      (materials_of spelled_hashing measuring passing counting plain 0 played)
    ≡ true
unfolding reset
episode_is_authenticated_example =
    episode_is_authenticated spelled_hashing measuring passing counting plain "final-1.0.0" claim
      key "manifest" 0 0 unopened status_41 actions refl refl

open_episode_is_within_limits_example :
    within_limits spelled_hashing measuring
      (materials_of spelled_hashing measuring passing counting plain 0 played)
    ≡ true
unfolding reset
open_episode_is_within_limits_example =
    open_episode_is_within_limits spelled_hashing measuring passing counting plain "final-1.0.0"
      claim key "manifest" 0 0 unopened status_41 actions refl played_is_open
