-- ===== src/Substrate/Authority.antt =====
-- src/event_service_substrate/authority.py: the HMAC capability that signs snapshots and recoveries.
use frontier_long_horizon_en.Prelude.{
  ℕ, String, ◌≡◌, Bool, List, ◌∷◌, ◌++◌, length, ltb, codes, ◌==◌, if◌then◌else◌, Result, ok, err,
  true, eq_refl,
}
use frontier_long_horizon_en.Substrate.Errors.{Error, value_error}
use frontier_long_horizon_en.Substrate.Tables.{ProofFields}
use frontier_long_horizon_en.Substrate.Canonical.{
  Primitives, Document, snapshot_claim, recovery_claim,
}

pub record RecoveryAuthority : Type 0 where
  pub key : List ℕ
  pub scope : String
  pub actor_scope : String

-- The constructor with its checks (`__post_init__`).
unfoldable pub recovery_authority : List ℕ → String → String → Result Error RecoveryAuthority
recovery_authority key scope actor_scope =
    if ltb (length key) 32
    then err (value_error "authority keys must contain at least 32 bytes")
    else if scope == ""
    then err (value_error "authority scope must be non-empty")
    else if actor_scope == ""
    then err (value_error "actor scope must be non-empty")
    else ok (record { key = key; scope = scope; actor_scope = actor_scope })

module _ (p : Primitives) (a : RecoveryAuthority) where
  tag : String → Document → String
  tag domain fields = p.hmac_sha256 a.key (codes domain ++ (0 ∷ p.canonical_json fields))

  unfoldable pub snapshot_tag : String → String → List ℕ → ℕ → String
  unfolding tag
  snapshot_tag snapshot_id state_root payload created_tick =
      tag "snapshot-auth-v1" (snapshot_claim a.scope snapshot_id state_root payload created_tick)

  -- `hmac.compare_digest` is an equality test.
  unfoldable pub snapshot_tag_is_valid : String → String → List ℕ → ℕ → String → Bool
  snapshot_tag_is_valid snapshot_id state_root payload created_tick auth_tag =
      snapshot_tag snapshot_id state_root payload created_tick == auth_tag

  unfoldable pub recovery_tag : ProofFields → String
  unfolding tag
  recovery_tag fields = tag "recovery-proof-v1" (recovery_claim a.scope fields)

  unfoldable pub recovery_tag_is_valid : ProofFields → String → Bool
  recovery_tag_is_valid fields auth_tag = recovery_tag fields == auth_tag

  pub snapshot_tag_accepted :
      (i r : String) (d : List ℕ) (t : ℕ)
      → snapshot_tag_is_valid i r d t (snapshot_tag i r d t) ≡ true
  unfolding snapshot_tag_is_valid
  snapshot_tag_accepted i r d t = eq_refl _

  pub recovery_tag_accepted : (f : ProofFields) → recovery_tag_is_valid f (recovery_tag f) ≡ true
  unfolding recovery_tag_is_valid
  recovery_tag_accepted f = eq_refl _
