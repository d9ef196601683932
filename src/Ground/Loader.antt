-- ===== src/Ground/Loader.antt =====
-- src/training_ground/loader.py, with the constructor of `IncidentEnv` (episode.py).
use frontier_long_horizon_en.Prelude.{ℕ, String, false, Option, none, some, List, Result, ok, err}
use frontier_long_horizon_en.Substrate.Canonical.{Primitives}
use frontier_long_horizon_en.Substrate.Errors.{Error}
use frontier_long_horizon_en.Substrate.Authority.{RecoveryAuthority}
use frontier_long_horizon_en.Ground.Transcript.{Claim, Transcript, new_transcript}
use frontier_long_horizon_en.Ground.Manifests.{
  Manifest, authority_for_profile, profile_binding, build_manifest, environment_version,
  transcript_key_for_authority,
}
use frontier_long_horizon_en.Ground.Episode.{Env}

module _ (p : Primitives) (hmac_bytes : List ℕ → List ℕ → List ℕ) (G : Type 0) where
  -- `_new_transcript`
  unfoldable pub transcript_of : Manifest → RecoveryAuthority → String → Transcript
  transcript_of m a session_id =
      let claim : Claim = record {
        session_id = session_id;
        instance_id = m.instance_id;
        split = m.split;
        seed = m.seed;
        profile_binding = profile_binding p m.profile a;
      } in
      new_transcript environment_version claim (transcript_key_for_authority hmac_bytes a)

  -- `IncidentEnv.__init__`, from the authority on.
  unfoldable pub env_of : Manifest → Option ℕ → RecoveryAuthority → Env G
  unfolding transcript_of
  env_of m max_steps a = record {
    limits = m.limits;
    max_steps = max_steps;
    gateway = none;
    transcript = transcript_of m a "pending";
    action_count = 0;
    total_bytes = 0;
    sequence = 0;
    closed = false;
    ended = false;
    graded = false;
    grade_result = none;
    last_trace_handle = none;
  }

  unfoldable pub new_env : Manifest → Option ℕ → Result Error (Env G)
  unfolding env_of
  new_env m max_steps = elim (authority_for_profile m.profile) [
    | err e ↦ err e
    | ok a ↦ ok (env_of m max_steps a)
  ]

  -- `replace(manifest, profile=profile)`, if the options have a profile.
  abbrev pub with_profile : Option ℕ → Manifest → Manifest
  with_profile none m = m
  with_profile (some profile) m = record m { profile = profile }

  -- `load_environment`, from the two options that it reads.
  unfoldable pub load_environment : String → ℕ → Option ℕ → Option ℕ → Result Error (Env G)
  unfolding new_env
  load_environment split seed profile max_steps = elim (build_manifest p split seed) [
    | err e ↦ err e
    | ok m ↦ new_env (with_profile profile m) max_steps
  ]
