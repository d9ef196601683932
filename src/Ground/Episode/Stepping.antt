-- ===== src/Ground/Episode/Stepping.antt =====
-- What one step of src/training_ground/episode.py changes: the counters, the transcript, and the
-- room that is left.
use frontier_long_horizon_en.Prelude.{
  Bool, Bool-cases, Option, String, ap, arith, false, if◌then◌else◌, inl, inr, none, not, refl,
  some, sym, true, ℕ, ◌&&◌, ◌+◌, ◌==◌, ◌||◌, ◌≡◌, ◌≤◌, ◌⊎◌,
}
use frontier_long_horizon_en.Substrate.Canonical.{Primitives}
use frontier_long_horizon_en.Agent.Session.{EngineRun}
use frontier_long_horizon_en.Ground.Transcript.{Hashing, StepArguments, add_step}
use frontier_long_horizon_en.Verifier.Grade.{Grading, grade}
use mathlib.Core.Bool.{true≢false}
use mathlib.Core.Path.{subst}
use frontier_long_horizon_en.Ground.Limits.{check, Reason}
use frontier_long_horizon_en.Ground.Actions.{Value, Fields, code_of}
use frontier_long_horizon_en.Ground.Client.{
  Status, is_terminated, Client, Encoding, Attempt, request_bytes, keep_handle, attempt, answered,
  raised, broken,
}
use frontier_long_horizon_en.Ground.Episode.{
  guarded, step_at, after_status, step_arguments, grade_env, keep_grade, materials_of, Env, Outcome,
  recorded_step, add_bytes, gateway_unavailable_step, materials_of, grade_env, keep_grade,
  materials_of, truncation, reward_of, finish_step, after_attempt, step_with, step,
}

-- An environment whose counters are within its limits.
abbrev pub IsWithin : {G : Type 0} → Env G → Type 0
IsWithin v = (v.action_count ≤ v.limits.action_limit) × (v.total_bytes ≤ v.limits.byte_limit)

-- `w` is `v` with one more step, whose arguments are `arguments`. It is open only within the
-- limits.
pub record Stepped {G : Type 0} (h : Hashing) (v w : Env G) : Type 0 where
  pub arguments : StepArguments
  pub appended : w.transcript ≡ add_step h arguments v.transcript
  pub counted : w.action_count ≡ v.action_count + 1
  pub sequenced : w.sequence ≡ v.sequence + 1
  pub weighed : w.total_bytes ≡ v.total_bytes + (arguments.request_bytes + arguments.response_bytes)
  pub same_limits : w.limits ≡ v.limits
  pub room : w.ended ≡ false → IsWithin w

module _ {G : Type 0} (h : Hashing) (p : Primitives) (run : EngineRun) (c : Client G)
    (e : Encoding) where
  -- A step that is not truncated is within the limits.
  truncation-IsWithin :
      (tick : ℕ) (v : Env G) → (truncation h p run c e tick v).0 ≡ false → IsWithin v
  unfolding truncation check
  truncation-IsWithin tick v passed = ground arith

  -- An environment whose step has been counted but not recorded.
  abbrev counted_at : G → Option String → Env G → Env G
  counted_at g handle v = record v {
    action_count = v.action_count + 1;
    sequence = v.sequence + 1;
    gateway = some g;
    last_trace_handle = handle;
  }

  gateway_unavailable_step-Stepped :
      (tool : String) (arguments : Fields) (req : ℕ) (g : G) (handle : Option String) (v : Env G)
      → Stepped h v
          (gateway_unavailable_step h p run c e tool arguments req (counted_at g handle v)).1
  unfolding gateway_unavailable_step recorded_step add_bytes step_arguments
  gateway_unavailable_step-Stepped tool arguments req g handle v = record {
    arguments =
        step_arguments h p run c e 0 tool arguments "gateway_unavailable" e.gateway_unavailable
          false true req (counted_at g handle v);
    appended = refl;
    counted = refl;
    sequenced = refl;
    weighed = refl;
    same_limits = refl;
    room = λ still. absurd (true≢false still);
  }

  keep_grade-keeps :
      (o : Option Grading) (fresh : Grading) (w : Env G)
      → (r : Option Grading) × ((keep_grade h p run c e o fresh w).1
          ≡ record w { grade_result = r })
  unfolding keep_grade
  keep_grade-keeps (some r) fresh w = (w.grade_result, refl)
  keep_grade-keeps none fresh w = (some fresh, refl)

  -- Grading changes nothing that a step is about.
  reward_of-keeps :
      (terminated : Bool) (g : G) (w : Env G)
      → (b : Bool) × (r : Option Grading) × ((reward_of h p run c e terminated g w).1
          ≡ record w { graded = b; grade_result = r })
  unfolding reward_of grade_env
  reward_of-keeps terminated g w = elim (Bool-cases (terminated && not w.graded)) [
    | inr not_due ↦ (w.graded, w.grade_result, rw not_due)
    | inl due ↦
        let (r, same) =
          keep_grade-keeps w.grade_result (grade h p run (materials_of h p run c e g w)) w in
        (true, r, rw due (ap (λ (u : Env G). record u { graded = true }) same))
  ]

  still_open :
      (terminated b : Bool) (x : Bool × Option Reason)
      → ((terminated || (if terminated then (false, none) else x).0) || b) ≡ false
      → x.0 ≡ false
  still_open true b x h = absurd (true≢false h)
  still_open false b x h = ground arith

  finish_step-Stepped :
      (status : Status) (tool : String) (arguments : Fields) (code : String) (result : Value)
      (req : ℕ) (g : G) (handle : Option String) (v : Env G)
      → Stepped h v
          (finish_step h p run c e status tool arguments code result req g
            (counted_at g handle v)).1
  unfolding finish_step recorded_step add_bytes
  finish_step-Stepped status tool arguments code result req g handle v =
      let v1 = add_bytes h p run c e req result (counted_at g handle v) in
      let terminated = (tool == "release.status") && is_terminated status in
      let checked = truncation h p run c e status.tick v1 in
      let truncated = (if terminated then (false, none) else checked).0 in
      let v2 =
        recorded_step h p run c e status.tick tool arguments code result terminated truncated req
          v1 in
      let (b, r, same) = reward_of-keeps terminated g v2 in
      subst (λ (u : Env G). Stepped h v (record u { ended = (terminated || truncated) || u.ended }))
        (sym same)
        (record {
          arguments =
              step_arguments h p run c e status.tick tool arguments code result terminated truncated
                req v1;
          appended = refl;
          counted = refl;
          sequenced = refl;
          weighed = refl;
          same_limits = refl;
          room = λ still.
              truncation-IsWithin status.tick v1 (still_open terminated v.ended checked still);
        })

  after_status-Stepped :
      (o : Option Status) (tool : String) (arguments : Fields) (code : String) (result : Value)
      (req : ℕ) (g : G) (handle : Option String) (v : Env G)
      → Stepped h v
          (after_status h p run c e o tool arguments code result req g (counted_at g handle v)).1
  unfolding after_status
  after_status-Stepped none tool arguments code result req g handle v =
      gateway_unavailable_step-Stepped tool arguments req g handle v
  after_status-Stepped (some s) tool arguments code result req g handle v =
      finish_step-Stepped s tool arguments code result req g handle v

  after_attempt-Stepped :
      (tried : Attempt) (req : ℕ) (g : G) (v : Env G)
      → Stepped h v
          (after_attempt h p run c e tried req g
            (record v { action_count = v.action_count + 1; sequence = v.sequence + 1 })).1
  unfolding after_attempt
  after_attempt-Stepped (broken tool arguments) req g v =
      gateway_unavailable_step-Stepped tool arguments req g v.last_trace_handle v
  after_attempt-Stepped (answered tool arguments result) req g v =
      after_status-Stepped (c.release_status g).0 tool arguments "ok" result req
        (c.release_status g).1 (keep_handle tool result v.last_trace_handle) v
  after_attempt-Stepped (raised tool arguments x) req g v =
      after_status-Stepped (c.release_status g).0 tool arguments (code_of x) (e.error_result x) req
        (c.release_status g).1 v.last_trace_handle v

  step_with-Stepped :
      (action : Value) (g : G) (v : Env G) → Stepped h v (step_with h p run c e action g v).1
  unfolding step_with
  step_with-Stepped action g v =
      let (tried, g1) = attempt c e action v.last_trace_handle g in
      after_attempt-Stepped tried (request_bytes e action) g1 v

  guarded_cases :
      (closed ended : Bool) (v : Env G) (o : Outcome × Env G)
      → Stepped h v o.1
      → ((guarded h p run c e closed ended v o).1 ≡ v)
        ⊎ (Stepped h v (guarded h p run c e closed ended v o).1 × (ended ≡ false))
  unfolding guarded
  guarded_cases true ended v o s = inl refl
  guarded_cases false true v o s = inl refl
  guarded_cases false false v o s = inr (s, refl)

  step_at_cases :
      (o : Option G) (action : Value) (v : Env G)
      → ((step_at h p run c e o action v).1 ≡ v)
        ⊎ (Stepped h v (step_at h p run c e o action v).1 × (v.ended ≡ false))
  unfolding step_at
  step_at_cases none action v = inl refl
  step_at_cases (some g) action v =
      guarded_cases v.closed v.ended v (step_with h p run c e action g v)
        (step_with-Stepped action g v)

  -- A step either raises and changes nothing, or is one more step.
  pub step_cases :
      (action : Value) (v : Env G)
      → ((step h p run c e action v).1 ≡ v)
        ⊎ (Stepped h v (step h p run c e action v).1 × (v.ended ≡ false))
  unfolding step
  step_cases action v = step_at_cases v.gateway action v
