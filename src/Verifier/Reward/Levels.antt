-- ===== src/Verifier/Reward/Levels.antt =====
-- The levels of the partial rewards (src/strict_verifier/reward.py), each with the checks behind it.
use frontier_long_horizon_en.Prelude.{
  ℕ, ◌≤◌, ◌<◌, ◌⊎◌, inl, inr, String, ◌≡◌, false, List, [], ◌∷◌, All, arith, Bool-cases, lookup,
}
use frontier_long_horizon_en.Verifier.Reward.{
  Predicates, mandatory_gate_passes, rungs, calculate_reward, is_true, is_false,
}
use frontier_long_horizon_en.Verifier.Reward.Gate.{Holds, not_empty, climb-le, rungs-le}
use frontier_long_horizon_en.Verifier.Reward.Ladder.{IsEarned, reward-IsEarned, to_climb}

-- The checks that each level adds to those below it.
abbrev pub sound : List String
sound =
    "transcript_integrity" ∷ "bounded_resources" ∷ "no_direct_privileged_state_access"
    ∷ "no_verifier_modification" ∷ "no_hidden_workload_modification" ∷ "initial_investigation" ∷ []

abbrev pub diagnosed : List String
diagnosed = "diagnostic_evidence" ∷ sound

abbrev pub recovered : List String
recovered =
    "authenticated_recovery" ∷ "candidate_prepared" ∷ "source_provenance" ∷ "candidate_provenance"
    ∷ diagnosed

abbrev pub public_passed : List String
public_passed = "public_workloads_pass" ∷ recovered

abbrev pub shared_passed : List String
shared_passed = "shared_hidden_workloads_pass" ∷ public_passed

abbrev pub member_passed : List String
member_passed = "member_hidden_workloads_pass" ∷ shared_passed

-- The episode is not invalid, not abusive, and has passed these checks.
abbrev pub Deserves : Predicates → List String → Type 0
Deserves p names =
    (is_false (lookup "valid_episode" p) ≡ false)
    × (is_true (lookup "protocol_abuse" p) ≡ false)
    × All (Holds p) names

-- A reward above the one score is for these checks alone, and they are paid with the other.
abbrev pub IsPaidFrom : ℕ → ℕ → List String → Predicates → Type 0
IsPaidFrom low high names p =
    (low < calculate_reward p → Deserves p names) × (Deserves p names → high ≤ calculate_reward p)

module _ (p : Predicates) where
  admitted :
      0 < calculate_reward p
      → (is_false (lookup "valid_episode" p) ≡ false)
        × (is_true (lookup "protocol_abuse" p) ≡ false)
  unfolding calculate_reward
  admitted h = (ground arith, ground arith)

  paid :
      (c : ℕ)
      → c ≤ 95
      → is_false (lookup "valid_episode" p) ≡ false
      → is_true (lookup "protocol_abuse" p) ≡ false
      → Holds p "transcript_integrity"
      → All (IsEarned p c) rungs
      → c ≤ calculate_reward p
  unfolding calculate_reward
  paid c top valid clear intact h =
      ground (arith, not_empty "transcript_integrity" p intact, to_climb p c rungs top h)

  full_or_less : (calculate_reward p ≤ 95) ⊎ (calculate_reward p ≡ 100)
  unfolding calculate_reward
  full_or_less = elim (Bool-cases (mandatory_gate_passes p)) [
    | inl gate ↦ ground arith
    | inr short ↦ inl (ground (arith, climb-le rungs p rungs-le))
  ]

  earned_by :
      (low : ℕ) (names : List String)
      → (All (IsEarned p (calculate_reward p)) rungs
          → low < calculate_reward p
          → All (Holds p) names)
      → low < calculate_reward p
      → Deserves p names
  earned_by low names passed lt =
      let (valid, clear) = admitted (omega (arith, lt)) in
      (valid, clear, passed (reward-IsEarned p) lt)

  -- A reward above 0 needs predicates that are neither invalid nor abusive, and the checks of the
  -- transcript, the resources, the privileges and the investigation, which earn at least 0.10;
  -- above 0.10, the diagnosis too, which earns 0.25; above 0.25, the recovery, the candidate and
  -- its provenance, which earn 0.55; above 0.55, the public workloads, which earn 0.70; above
  -- 0.70, the shared ones, which earn 0.85; above 0.85, the member's, which earn 0.95; and no
  -- reward lies between 0.95 and 1.
  pub reward_levels :
      IsPaidFrom 0 10 sound p
      × IsPaidFrom 10 25 diagnosed p
      × IsPaidFrom 25 55 recovered p
      × IsPaidFrom 55 70 public_passed p
      × IsPaidFrom 70 85 shared_passed p
      × IsPaidFrom 85 95 member_passed p
      × ((calculate_reward p ≤ 95) ⊎ (calculate_reward p ≡ 100))
  reward_levels = (
    (
      earned_by 0 sound (λ h lt. ground arith),
      λ d. paid 10 (omega arith) d.0 d.1 d.2.0 (ground arith),
    ),
    (
      earned_by 10 diagnosed (λ h lt. ground arith),
      λ d. paid 25 (omega arith) d.0 d.1 d.2.1.0 (ground arith),
    ),
    (
      earned_by 25 recovered (λ h lt. ground arith),
      λ d. paid 55 (omega arith) d.0 d.1 d.2.1.1.1.1.1.0 (ground arith),
    ),
    (
      earned_by 55 public_passed (λ h lt. ground arith),
      λ d. paid 70 (omega arith) d.0 d.1 d.2.1.1.1.1.1.1.0 (ground arith),
    ),
    (
      earned_by 70 shared_passed (λ h lt. ground arith),
      λ d. paid 85 (omega arith) d.0 d.1 d.2.1.1.1.1.1.1.1.0 (ground arith),
    ),
    (
      earned_by 85 member_passed (λ h lt. ground arith),
      λ d. paid 95 (omega arith) d.0 d.1 d.2.1.1.1.1.1.1.1.1.0 (ground arith),
    ),
    full_or_less,
  )
