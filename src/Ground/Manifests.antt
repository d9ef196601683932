-- ===== src/Ground/Manifests.antt =====
-- src/training_ground/authority.py and src/training_ground/manifests.py: the authority of a profile,
-- the profile of a seed, and the manifest of an instance. A seed is not negative. The raw HMAC is a
-- parameter beside the hexadecimal one.
pub mod Splits
use Prim.Native.Nat.{◌%◌}
use Prim.Native.String.{◌++◌ as append_text}
use frontier_long_horizon_en.Prelude.{
  ℕ, zero, suc, ◌+◌, ◌-◌, ◌*◌, String, Option, none, some, List, [], ◌∷◌, ltb, if◌then◌else◌, codes,
  join, lookup, take_text, Result, ok, err,
}
use frontier_long_horizon_en.Substrate.Canonical.{Primitives}
use frontier_long_horizon_en.Substrate.Errors.{Error, value_error}
use frontier_long_horizon_en.Substrate.Authority.{RecoveryAuthority, recovery_authority}
use frontier_long_horizon_en.Ground.Limits.{Limits, default_limits}

-- `bytes.fromhex`, of the codes of lower-case digits, and `int(…, 16)` with what stands in front.
abbrev pub hex_digit : ℕ → ℕ
hex_digit c = if ltb c 97 then c - 48 else c - 87

abbrev pub from_hex : List ℕ → List ℕ
from_hex (c ∷ d ∷ rest) = (hex_digit c * 16 + hex_digit d) ∷ from_hex rest
from_hex _ = []

abbrev pub hex_value : ℕ → List ℕ → ℕ
hex_value front [] = front
hex_value front (c ∷ rest) = hex_value (front * 16 + hex_digit c) rest

abbrev pub builder_key_0 : String
builder_key_0 = "a740d62c0860d7f2d8c0b7261a622d9c8ab44298984e65ff8d53d365e486f731"

abbrev pub builder_key_1 : String
builder_key_1 = "29e8bc7f706cfe3c428b18b8e41cf03843d8dc4b6f1a3976bccb5e885c1a427e"

abbrev pub profile_key : String
profile_key = "6f1c9e2a7b4d8f03c5e1a9d27b6e4f80a3c5d719e2b4f6089a1c3e5d7f92b4a6"

-- The default of `RecoveryAuthority.actor_scope`.
abbrev pub default_actor : String
default_actor = "recovery-operator-v1"

unfoldable pub authority_for_profile : ℕ → Result Error RecoveryAuthority
unfolding recovery_authority
authority_for_profile zero =
    recovery_authority (from_hex (codes builder_key_0)) "scope-71e5a88c9bdc47f0" default_actor
authority_for_profile (suc zero) =
    recovery_authority (from_hex (codes builder_key_1)) "scope-c92f60ad3e7641bb" default_actor
authority_for_profile (suc (suc n)) = err (value_error "profile must be 0 or 1")

abbrev pub split_offsets : List (String × ℕ)
split_offsets = ("train", 0) ∷ ("dev", 1000000000) ∷ ("eval", 2000000000) ∷ []

-- `effective_seed` of `build_manifest`: `none` for an unknown split.
unfoldable pub effective_seed : String → ℕ → Option ℕ
effective_seed split seed = elim (lookup split split_offsets) [
  | none ↦ none
  | some offset ↦ some (seed + offset)
]

-- `Manifest`, but for its two constant versions.
pub record Manifest : Type 0 where
  pub instance_id : String
  pub split : String
  pub seed : ℕ
  pub public_task_digest : String
  pub limits : Limits
  pub profile : ℕ

abbrev pub environment_version : String
environment_version = "final-1.0.0"

module _ (p : Primitives) where
  unfoldable pub profile_for_seed : String → ℕ → ℕ
  profile_for_seed split effective =
      hex_value 0 (
        codes (
          p.hmac_sha256 (from_hex (codes profile_key))
            (codes (join (split ∷ ":" ∷ p.str_of effective ∷ [])))))
      % 2

  unfoldable pub profile_binding : ℕ → RecoveryAuthority → String
  profile_binding profile a =
      p.hmac_sha256 a.key
        (codes (join ("profile-binding:" ∷ p.str_of profile ∷ ":" ∷ a.scope ∷ [])))

  abbrev pub manifest_of : String → ℕ → ℕ → Manifest
  manifest_of split seed effective =
      let name = join ("-" ∷ split ∷ "-" ∷ p.str_of effective ∷ []) in
      record {
        instance_id =
            append_text "instance-"
              (take_text 24 (p.sha256 (codes (append_text environment_version name))));
        split = split;
        seed = seed;
        public_task_digest =
            append_text "task-" (take_text 32 (p.sha256 (codes (append_text "Q-41" name))));
        limits = default_limits;
        profile = profile_for_seed split effective;
      }

  unfoldable pub build_manifest : String → ℕ → Result Error Manifest
  unfolding effective_seed
  build_manifest split seed = elim (effective_seed split seed) [
    | none ↦ err (value_error (append_text "unknown split " split))
    | some effective ↦ ok (manifest_of split seed effective)
  ]

-- `transcript_key_for_authority`
unfoldable pub transcript_key_for_authority :
    (List ℕ → List ℕ → List ℕ) → RecoveryAuthority → List ℕ
transcript_key_for_authority hmac_bytes a = hmac_bytes a.key (codes "transcript-auth-v1")
