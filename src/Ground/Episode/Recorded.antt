-- ===== src/Ground/Episode/Recorded.antt =====
-- The transcript of an episode (src/training_ground/episode.py) and the verifier's checks on it
-- (src/strict_verifier/verifier.py).
use frontier_long_horizon_en.Prelude.{
  Bool-cases, List, Option, String, [], arith, false, if◌then◌else◌, inl, inr, none, refl, some,
  sym, true, ℕ, ◌==◌, ◌∷◌, ◌≡◌,
}
use mathlib.Core.Path.{subst}
use frontier_long_horizon_en.Substrate.Canonical.{Primitives}
use frontier_long_horizon_en.Agent.Session.{EngineRun}
use frontier_long_horizon_en.Ground.Transcript.{
  Hashing, Transcript, Claim, to_list, add_step, add_meta, verify_loop, steps,
}
use frontier_long_horizon_en.Ground.Transcript.RoundTrip.{
  IsChained, step_call, call, call-IsChained, accepted_if_chained,
}
use frontier_long_horizon_en.Ground.Actions.{Value}
use frontier_long_horizon_en.Ground.Client.{Status, Client, Encoding}
use frontier_long_horizon_en.Ground.Episode.{Env, step, reset, reset_with, materials_of}
use frontier_long_horizon_en.Ground.Episode.Stepping.{step_cases}
use frontier_long_horizon_en.Ground.Episode.Bounds.{room_of, take_steps, episode-IsTallied}
use frontier_long_horizon_en.Verifier.Checks.{authenticated, within_limits}

-- A transcript that the verifier's loop accepts, under this claim and key.
record IsBegunWith (h : Hashing) (claim : Claim) (key : List ℕ) (t : Transcript) : Type 0 where
  chained : IsChained h t
  claimed : t.claim ≡ claim
  keyed : t.hmac_key ≡ key

module _ {G : Type 0} (h : Hashing) (p : Primitives) (run : EngineRun) (c : Client G) (e : Encoding)
    (claim : Claim) (key : List ℕ) where
  step-IsBegunWith :
      (a : Value) (v : Env G)
      → IsBegunWith h claim key v.transcript
      → IsBegunWith h claim key (step h p run c e a v).1.transcript
  unfolding call add_step
  step-IsBegunWith a v b = elim (step_cases h p run c e a v) [
    | inl same ↦ subst (λ (u : Env G). IsBegunWith h claim key u.transcript) (sym same) b
    | inr (s, going) ↦ subst (IsBegunWith h claim key) (sym s.appended) (record {
      chained = call-IsChained h v.transcript (step_call s.arguments) b.chained;
      claimed = b.claimed;
      keyed = b.keyed;
    })
  ]

  take_steps-IsBegunWith :
      (actions : List Value) (v : Env G)
      → IsBegunWith h claim key v.transcript
      → IsBegunWith h claim key (take_steps h p run c e actions v).transcript
  unfolding take_steps
  take_steps-IsBegunWith [] v b = b
  take_steps-IsBegunWith (a ∷ rest) v b =
      take_steps-IsBegunWith rest (step h p run c e a v).1 (step-IsBegunWith a v b)

-- The id that `reset` takes from its status is not empty.
abbrev session_of : Status → String
session_of s = if s.session_id == "" then "unknown-session" else s.session_id

session_of_lem : (s : Status) → (session_of s == "") ≡ false
session_of_lem s = elim (Bool-cases (s.session_id == "")) [
  | inl empty ↦ rw empty
  | inr present ↦ rw (present, present)
]

module _ {G : Type 0} (h : Hashing) (p : Primitives) (run : EngineRun) (c : Client G)
    (e : Encoding) where
  reset_with-IsBegunWith :
      (o : Option Status) (version : String) (claim : Claim) (key : List ℕ) (manifest : String)
      (g : G) (v : Env G) (s : Status)
      → (reset_with h p run c e o version claim key manifest g v).0 ≡ some s
      → IsBegunWith h
          (record claim { session_id = session_of s })
          key
          (reset_with h p run c e o version claim key manifest g v).1.transcript
  unfolding reset_with add_meta steps IsChained verify_loop
  reset_with-IsBegunWith none version claim key manifest g v s returned = cc
  reset_with-IsBegunWith (some q) version claim key manifest g v s returned =
      let same : q ≡ s = cc in
      subst
        (λ (z : Status).
          IsBegunWith h (record claim { session_id = session_of z }) key
            (reset_with h p run c e (some q) version claim key manifest g v).1.transcript)
        same (record { chained = refl; claimed = refl; keyed = refl })

  begun-authenticated :
      (claim : Claim) (key : List ℕ) (g : G) (w : Env G)
      → IsBegunWith h claim key w.transcript
      → (claim.profile_binding == "") ≡ false
      → (claim.session_id == "") ≡ false
      → authenticated h p (materials_of h p run c e g w) ≡ true
  unfolding authenticated materials_of
  begun-authenticated claim key g w b bound named =
      let bound' = subst (λ (k : Claim). (k.profile_binding == "") ≡ false) (sym b.claimed) bound in
      let named' = subst (λ (k : Claim). (k.session_id == "") ≡ false) (sym b.claimed) named in
      rw (bound', named') (accepted_if_chained h w.transcript b.chained)

  -- After a reset that returns, whatever actions are taken, the verifier authenticates the
  -- transcript of the episode, if the profile's binding is not empty.
  pub episode_is_authenticated :
      (version : String) (claim : Claim) (key : List ℕ) (manifest : String) (g g' : G) (v : Env G)
      (s : Status) (actions : List Value)
      → (claim.profile_binding == "") ≡ false
      → (reset h p run c e version claim key manifest g v).0 ≡ some s
      → authenticated h p (
          materials_of h p run c e g'
            (take_steps h p run c e actions (reset h p run c e version claim key manifest g v).1))
        ≡ true
  unfolding reset
  episode_is_authenticated version claim key manifest g g' v s actions bound returned =
      let begun = (reset h p run c e version claim key manifest g v).1 in
      let mine = record claim { session_id = session_of s } in
      begun-authenticated mine key g' (take_steps h p run c e actions begun)
        (take_steps-IsBegunWith h p run c e mine key actions begun (
          reset_with-IsBegunWith (c.release_status g).0 version claim key manifest
            (c.release_status g).1 v s returned))
        bound (session_of_lem s)

  -- After a reset that returns, whatever actions are taken: if the episode has not ended, the
  -- verifier finds its transcript within the limits.
  pub open_episode_is_within_limits :
      (version : String) (claim : Claim) (key : List ℕ) (manifest : String) (g g' : G) (v : Env G)
      (s : Status) (actions : List Value)
      → (reset h p run c e version claim key manifest g v).0 ≡ some s
      → (take_steps h p run c e actions (reset h p run c e version claim key manifest g v).1).ended
        ≡ false
      → within_limits h p (
          materials_of h p run c e g'
            (take_steps h p run c e actions (reset h p run c e version claim key manifest g v).1))
        ≡ true
  unfolding within_limits materials_of to_list steps
  open_episode_is_within_limits version claim key manifest g g' v s actions returned going =
      let t = episode-IsTallied h p run c e version claim key manifest g v s actions returned in
      let w = take_steps h p run c e actions (reset h p run c e version claim key manifest g v).1 in
      let (few, light) = room_of w t going in ground (arith, t.counted, t.weighed, few, light)
