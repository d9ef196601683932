-- ===== src/Ground/Episode/Bounds.antt =====
-- The counters of an episode (src/training_ground/episode.py): they are those of its transcript, and
-- within the limits while it is open.
use frontier_long_horizon_en.Prelude.{
  Bool-cases, List, Option, String, [], arith, false, inl, inr, length, length-append, none, refl,
  some, sym, true, ℕ, ◌++◌, ◌+◌, ◌∙◌, ◌∷◌, ◌≡◌, ◌≤◌, ◌⊎◌,
}
use mathlib.Core.Path.{subst}
use mathlib.Core.Bool.{true≢false}
use frontier_long_horizon_en.Substrate.Canonical.{Primitives}
use frontier_long_horizon_en.Agent.Session.{EngineRun}
use frontier_long_horizon_en.Ground.Transcript.{
  Hashing, StepArguments, Transcript, Claim, StepEntry, add_step, add_meta, steps, entry_for,
}
use frontier_long_horizon_en.Ground.Transcript.RoundTrip.{steps-append_step}
use frontier_long_horizon_en.Ground.Actions.{Value}
use frontier_long_horizon_en.Ground.Client.{Status, Client, Encoding}
use frontier_long_horizon_en.Ground.Episode.{Env, step, reset, reset_with}
use frontier_long_horizon_en.Ground.Episode.Stepping.{Stepped, IsWithin, step_cases}
use frontier_long_horizon_en.Verifier.Checks.{bytes_of}

-- The counters are those of the recorded steps. They exceed the limits by the last step at most,
-- and not while the episode is open.
pub record IsTallied {G : Type 0} (v : Env G) : Type 0 where
  pub counted : v.action_count ≡ length (steps v.transcript.entries)
  pub sequenced : v.sequence ≡ v.action_count
  pub weighed : v.total_bytes ≡ bytes_of (steps v.transcript.entries)
  pub limited : v.action_count ≤ v.limits.action_limit + 1
  pub room : (v.ended ≡ true) ⊎ IsWithin v

bytes_of-append :
    (es : List StepEntry) (x : StepEntry)
    → bytes_of (es ++ x ∷ []) ≡ bytes_of es + (x.request_bytes + x.response_bytes)
unfolding bytes_of
bytes_of-append [] x = omega arith
bytes_of-append (y ∷ es) x = omega (arith, bytes_of-append es x)

-- An open episode is within the limits.
pub room_of : {G : Type 0} (v : Env G) → IsTallied v → v.ended ≡ false → IsWithin v
room_of v t going = elim t.room [
  | inl over ↦ absurd (true≢false (sym over ∙ going))
  | inr within ↦ within
]

module _ (h : Hashing) where
  length-add_step :
      (x : StepArguments) (t : Transcript)
      → length (steps (add_step h x t).entries) ≡ length (steps t.entries) + 1
  unfolding add_step
  length-add_step x t =
      rw (steps-append_step t.entries (entry_for h t x), length-append (steps t.entries))
        (omega arith)

  bytes_of-add_step :
      (x : StepArguments) (t : Transcript)
      → bytes_of (steps (add_step h x t).entries)
        ≡ bytes_of (steps t.entries) + (x.request_bytes + x.response_bytes)
  unfolding add_step entry_for
  bytes_of-add_step x t =
      rw (steps-append_step t.entries (entry_for h t x), bytes_of-append (steps t.entries))

  Stepped-IsTallied :
      {G : Type 0} (v w : Env G) → Stepped h v w → v.ended ≡ false → IsTallied v → IsTallied w
  Stepped-IsTallied v w s going t = record {
    counted =
        rw s.appended
          (omega (arith, s.counted, t.counted, length-add_step s.arguments v.transcript));
    sequenced = omega (arith, s.counted, s.sequenced, t.sequenced);
    weighed =
        rw s.appended
          (omega (arith, s.weighed, t.weighed, bytes_of-add_step s.arguments v.transcript));
    limited = rw s.same_limits (omega (arith, s.counted, (room_of v t going).0));
    room = elim (Bool-cases w.ended) [ inl over ↦ inl over | inr still ↦ inr (s.room still) ];
  }

module _ {G : Type 0} (h : Hashing) (p : Primitives) (run : EngineRun) (c : Client G)
    (e : Encoding) where
  -- The environment after a list of actions, whatever each of them comes to.
  unfoldable pub take_steps : List Value → Env G → Env G
  take_steps [] v = v
  take_steps (a ∷ rest) v = take_steps rest (step h p run c e a v).1

  step-IsTallied : (a : Value) (v : Env G) → IsTallied v → IsTallied (step h p run c e a v).1
  step-IsTallied a v t = elim (step_cases h p run c e a v) [
    | inl same ↦ subst IsTallied (sym same) t
    | inr (s, going) ↦ Stepped-IsTallied h v (step h p run c e a v).1 s going t
  ]

  pub take_steps-IsTallied :
      (actions : List Value) (v : Env G) → IsTallied v → IsTallied (take_steps actions v)
  unfolding take_steps
  take_steps-IsTallied [] v t = t
  take_steps-IsTallied (a ∷ rest) v t =
      take_steps-IsTallied rest (step h p run c e a v).1 (step-IsTallied a v t)

  reset_with-IsTallied :
      (o : Option Status) (version : String) (claim : Claim) (key : List ℕ) (manifest : String)
      (g : G) (v : Env G) (s : Status)
      → (reset_with h p run c e o version claim key manifest g v).0 ≡ some s
      → IsTallied (reset_with h p run c e o version claim key manifest g v).1
  unfolding reset_with add_meta steps bytes_of
  reset_with-IsTallied none version claim key manifest g v s returned = cc
  reset_with-IsTallied (some s) version claim key manifest g v _ returned = record {
    counted = refl;
    sequenced = refl;
    weighed = refl;
    limited = omega arith;
    room = inr (omega arith, omega arith);
  }

  pub episode-IsTallied :
      (version : String) (claim : Claim) (key : List ℕ) (manifest : String) (g : G) (v : Env G)
      (s : Status) (actions : List Value)
      → (reset h p run c e version claim key manifest g v).0 ≡ some s
      → IsTallied (take_steps actions (reset h p run c e version claim key manifest g v).1)
  unfolding reset
  episode-IsTallied version claim key manifest g v s actions returned =
      take_steps-IsTallied actions (reset h p run c e version claim key manifest g v).1 (
        reset_with-IsTallied (c.release_status g).0 version claim key manifest
          (c.release_status g).1 v s returned)
