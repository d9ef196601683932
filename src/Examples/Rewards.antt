-- ===== src/Examples/Rewards.antt =====
-- The theorems on src/strict_verifier/reward.py at the predicates of a full and a partial episode.
use frontier_long_horizon_en.Prelude.{
  String, ◌≡◌, ◌↔◌, refl, arith, true, false, List, [], ◌∷◌, All, lookup, ◌≤◌, ◌⊎◌, some,
}
use frontier_long_horizon_en.Verifier.Reward.{
  Predicates, mandatory_true, calculate_reward, mandatory_gate_passes, all_set, all_clear, climb,
}
use frontier_long_horizon_en.Verifier.Reward.Gate.{Holds, full_reward_iff}
use frontier_long_horizon_en.Verifier.Reward.Ladder.{Improves, calculate_reward_mono}
use frontier_long_horizon_en.Verifier.Reward.Levels.{
  IsPaidFrom, sound, diagnosed, recovered, public_passed, shared_passed, member_passed,
  reward_levels,
}

abbrev set_all : List String → Predicates
set_all [] = ("protocol_abuse", false) ∷ []
set_all (n ∷ ns) = (n, true) ∷ set_all ns

abbrev full : Predicates
full = set_all mandatory_true

-- An episode that has only investigated.
abbrev partial : Predicates
partial =
    ("valid_episode", true)
    ∷ ("transcript_integrity", true)
    ∷ ("bounded_resources", true)
    ∷ ("no_direct_privileged_state_access", true)
    ∷ ("no_verifier_modification", true)
    ∷ ("no_hidden_workload_modification", true)
    ∷ ("initial_investigation", true)
    ∷ ("protocol_abuse", false)
    ∷ []

full_is_full : calculate_reward full ≡ 100
unfolding calculate_reward mandatory_gate_passes all_set all_clear
full_is_full = refl

partial_score : calculate_reward partial ≡ 10
unfolding calculate_reward mandatory_gate_passes all_set climb
partial_score = refl

full_reward_iff_example :
    (calculate_reward full ≡ 100)
    ↔ (All (Holds full) mandatory_true × (lookup "protocol_abuse" full ≡ some false))
full_reward_iff_example = full_reward_iff full

reward_levels_example :
    IsPaidFrom 0 10 sound partial
    × IsPaidFrom 10 25 diagnosed partial
    × IsPaidFrom 25 55 recovered partial
    × IsPaidFrom 55 70 public_passed partial
    × IsPaidFrom 70 85 shared_passed partial
    × IsPaidFrom 85 95 member_passed partial
    × ((calculate_reward partial ≤ 95) ⊎ (calculate_reward partial ≡ 100))
reward_levels_example = reward_levels partial

improved_by_diagnosis : (p : Predicates) → Improves p (("diagnostic_evidence", true) ∷ p)
improved_by_diagnosis p = record {
  keeps = λ n h other. diagnosed n h;
  valid = λ h. h;
  abuse = λ h. h;
  clear = λ h. h;
  present = λ h. refl;
}
  where
    diagnosed : (n : String) → Holds p n → Holds (("diagnostic_evidence", true) ∷ p) n
    diagnosed n h = ground arith

calculate_reward_mono_example :
    calculate_reward partial ≤ calculate_reward (("diagnostic_evidence", true) ∷ partial)
calculate_reward_mono_example =
    calculate_reward_mono partial (("diagnostic_evidence", true) ∷ partial)
      (improved_by_diagnosis partial)
