-- ===== src/Ground/Episode.antt =====
-- `IncidentEnv` of src/training_ground/episode.py: the episode as a state machine, over the client of
-- the gateway. Not modelled: the dictionary `info`, and the fields of a status that the environment
-- only passes on. Proofs are in the modules below.
pub mod Stepping
pub mod Recorded
pub mod Bounds
use frontier_long_horizon_en.Prelude.{
  ℕ, ◌+◌, String, Bool, true, false, not, ◌&&◌, ◌||◌, Option, none, some, List, [], leb, ◌==◌,
  if◌then◌else◌, Result, ok, err,
}
use frontier_long_horizon_en.Substrate.Canonical.{Primitives}
use frontier_long_horizon_en.Ground.Transcript.{
  Claim, Entry, Hashing, Transcript, StepArguments, new_transcript, add_step, add_meta, to_list,
}
use frontier_long_horizon_en.Ground.Limits.{Limits, Reason, check}
use frontier_long_horizon_en.Ground.Actions.{
  Value, text, dict, other, Fields, no_fields, field, EnvironmentError, not_reset, episode_ended,
  no_prior_handle, wrong_signature, refused, code_of, get, validate_action,
}
use frontier_long_horizon_en.Agent.Session.{EngineRun}
use frontier_long_horizon_en.Verifier.Checks.{Materials}
use frontier_long_horizon_en.Verifier.Grade.{Grading, grade}
use frontier_long_horizon_en.Ground.Client.{
  Status, is_terminated, Reply, Client, Encoding, Attempt, raw_tool, raw_arguments, request_bytes,
  with_handle, fill_handle, keep_handle, error_in, dispatch_action, attempt, replied, tool_error,
  lost, answered, raised, broken,
}

pub record Env (G : Type 0) : Type 0 where
  pub limits : Limits
  pub max_steps : Option ℕ
  pub gateway : Option G
  pub transcript : Transcript
  pub action_count : ℕ
  pub total_bytes : ℕ
  pub sequence : ℕ
  pub closed : Bool
  pub ended : Bool
  pub graded : Bool
  pub grade_result : Option Grading
  pub last_trace_handle : Option String

-- The tuple that `step` returns. An observation is a status, or that of a lost gateway.
pub record Outcome : Type 0 where
  pub status : Option Status
  pub error : Option Value
  pub reason : Option Reason
  pub reward : ℕ
  pub terminated : Bool
  pub truncated : Bool

module _ {G : Type 0} (h : Hashing) (p : Primitives) (run : EngineRun) (c : Client G)
    (e : Encoding) where
  -- The arguments of `add_step`, and the record of the step.
  unfoldable pub step_arguments :
      ℕ → String → Fields → String → Value → Bool → Bool → ℕ → Env G → StepArguments
  step_arguments tick tool arguments code result terminated truncated req v = record {
    sequence = v.sequence;
    tick = tick;
    tool = tool;
    arguments_digest = e.arguments_digest arguments;
    success_code = code;
    result_digest = e.result_digest result;
    reward_delta = 0;
    terminated = terminated;
    truncated = truncated;
    cumulative_action_count = v.action_count;
    request_bytes = req;
    response_bytes = e.result_bytes result;
  }

  unfoldable pub recorded_step :
      ℕ → String → Fields → String → Value → Bool → Bool → ℕ → Env G → Env G
  unfolding step_arguments
  recorded_step tick tool arguments code result terminated truncated req v = record v {
    transcript =
        add_step h (step_arguments tick tool arguments code result terminated truncated req v)
          v.transcript;
  }

  -- `self._total_bytes += req_bytes + resp_bytes`
  unfoldable pub add_bytes : ℕ → Value → Env G → Env G
  add_bytes req result v = record v { total_bytes = v.total_bytes + (req + e.result_bytes result) }

  -- `_gateway_unavailable_step`
  unfoldable pub gateway_unavailable_step : String → Fields → ℕ → Env G → Outcome × Env G
  unfolding recorded_step add_bytes
  gateway_unavailable_step tool arguments req v =
      let result = e.gateway_unavailable in
      let v1 =
        recorded_step 0 tool arguments "gateway_unavailable" result false true req
          (add_bytes req result v) in
      (
        record {
          status = none;
          error = some result;
          reason = none;
          reward = 0;
          terminated = false;
          truncated = true;
        },
        record v1 { ended = true },
      )

  -- The finished transcript and the environment's own data, with the rest of what a verifier reads.
  unfoldable pub materials_of : G → Env G → Materials
  materials_of g v = record (c.materials g) {
    transcript = to_list h v.transcript;
    claim = v.transcript.claim;
    transcript_key = some v.transcript.hmac_key;
    action_limit = v.limits.action_limit;
    byte_limit = v.limits.byte_limit;
  }

  -- `grade`, whose first result is kept.
  unfoldable pub keep_grade : Option Grading → Grading → Env G → Grading × Env G
  keep_grade (some r) fresh v = (r, v)
  keep_grade none fresh v = (fresh, record v { grade_result = some fresh })

  unfoldable pub grade_env : G → Env G → Grading × Env G
  unfolding keep_grade materials_of
  grade_env g v = keep_grade v.grade_result (grade h p run (materials_of g v)) v

  -- The limits, behind `max_steps`.
  unfoldable pub truncation : ℕ → Env G → Bool × Option Reason
  unfolding check
  truncation tick v =
      let checked = check v.limits v.action_count v.total_bytes tick in
      let by_limits : Bool × Option Reason =
        (elim checked [ none ↦ false | some _ ↦ true ], checked) in
      elim v.max_steps [
        | none ↦ by_limits
        | some n ↦ if leb n v.action_count then (true, none) else by_limits
      ]

  -- The grade of a terminated episode, once.
  unfoldable pub reward_of : Bool → G → Env G → ℕ × Env G
  unfolding grade_env
  reward_of terminated g v =
      let (r, v1) = grade_env g v in
      if terminated && not v.graded then (r.score, record v1 { graded = true }) else (0, v)

  -- From the status on, for a call with a result.
  unfoldable pub finish_step :
      Status → String → Fields → String → Value → ℕ → G → Env G → Outcome × Env G
  unfolding recorded_step add_bytes is_terminated truncation reward_of error_in
  finish_step status tool arguments code result req g v =
      let v1 = add_bytes req result v in
      let terminated = (tool == "release.status") && is_terminated status in
      let (truncated, reason) = if terminated then (false, none) else truncation status.tick v1 in
      let v2 = recorded_step status.tick tool arguments code result terminated truncated req v1 in
      let (reward, v3) = reward_of terminated g v2 in
      (
        record {
          status = some status;
          error = error_in result;
          reason = reason;
          reward = reward;
          terminated = terminated;
          truncated = truncated;
        },
        record v3 { ended = (terminated || truncated) || v3.ended },
      )

  -- A lost gateway ends the episode, at the status after the call or at the call itself.
  unfoldable pub after_status :
      Option Status → String → Fields → String → Value → ℕ → G → Env G → Outcome × Env G
  unfolding gateway_unavailable_step finish_step
  after_status none tool arguments code result req g v =
      gateway_unavailable_step tool arguments req v
  after_status (some s) tool arguments code result req g v =
      finish_step s tool arguments code result req g v

  unfoldable pub after_attempt : Attempt → ℕ → G → Env G → Outcome × Env G
  unfolding gateway_unavailable_step after_status keep_handle
  after_attempt (broken tool arguments) req g v =
      gateway_unavailable_step tool arguments req (record v { gateway = some g })
  after_attempt (answered tool arguments result) req g v =
      let (status, g1) = c.release_status g in
      let handle = keep_handle tool result v.last_trace_handle in
      after_status status tool arguments "ok" result req g1
        (record v { gateway = some g1; last_trace_handle = handle })
  after_attempt (raised tool arguments x) req g v =
      let (status, g1) = c.release_status g in
      after_status status tool arguments (code_of x) (e.error_result x) req g1
        (record v { gateway = some g1 })

  unfoldable pub step_with : Value → G → Env G → Outcome × Env G
  unfolding after_attempt attempt request_bytes
  step_with action g v =
      let counted = record v { action_count = v.action_count + 1; sequence = v.sequence + 1 } in
      let (tried, g1) = attempt c e action v.last_trace_handle g in
      after_attempt tried (request_bytes e action) g1 counted

  -- The two guards of `step`, in front of what it does otherwise.
  unfoldable pub guarded :
      Bool → Bool → Env G → Outcome × Env G → Result EnvironmentError Outcome × Env G
  guarded closed ended v (o, w) =
      if closed then (err not_reset, v) else if ended then (err episode_ended, v) else (ok o, w)

  -- `step`: a raise leaves the environment as it was.
  unfoldable pub step_at : Option G → Value → Env G → Result EnvironmentError Outcome × Env G
  unfolding step_with guarded
  step_at none action v = (err not_reset, v)
  step_at (some g) action v = guarded v.closed v.ended v (step_with action g v)

  unfoldable pub step : Value → Env G → Result EnvironmentError Outcome × Env G
  unfolding step_at
  step action v = step_at v.gateway action v

  -- `reset` behind its status, from the manifest's claim and key. It does not set the handle of the
  -- last run. A status that raises leaves the old transcript: `none`.
  unfoldable pub reset_with :
      Option Status → String → Claim → List ℕ → String → G → Env G → Option Status × Env G
  reset_with status version claim key manifest g v =
      let opened = record v {
        gateway = some g;
        action_count = 0;
        total_bytes = 0;
        sequence = 0;
        closed = false;
        ended = false;
        graded = false;
        grade_result = none;
      } in
      elim status [
        | none ↦ (none, opened)
        | some s ↦
            let session = if s.session_id == "" then "unknown-session" else s.session_id in
            let fresh = new_transcript version (record claim { session_id = session }) key in
            (some s, record opened { transcript = add_meta h "manifest" manifest fresh })
      ]

  -- `reset`, from the gateway that it opens.
  unfoldable pub reset : String → Claim → List ℕ → String → G → Env G → Option Status × Env G
  unfolding reset_with
  reset version claim key manifest g v =
      let (status, g1) = c.release_status g in reset_with status version claim key manifest g1 v

  -- `close`
  unfoldable pub close : Env G → Env G
  close v = if v.closed then v else record v { closed = true; gateway = none }
