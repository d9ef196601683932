-- ===== src/Verifier/Reward/Gate.antt =====
-- Which predicates earn which reward (src/strict_verifier/reward.py).
use frontier_long_horizon_en.Prelude.{
  ◌≤◌, String, ◌≡◌, ◌↔◌, refl, true, false, some, List, [], ◌∷◌, All, arith, lookup,
}
use frontier_long_horizon_en.Verifier.Reward.{
  Predicates, Rung, mandatory_true, all_set, all_clear, mandatory_gate_passes, rungs, top_rung,
  climb, calculate_reward, is_empty,
}

abbrev pub Holds : Predicates → String → Type 0
Holds p n = lookup n p ≡ some true

pub all_set_iff : (ns : List String) (p : Predicates) → (all_set ns p ≡ true) ↔ All (Holds p) ns
unfolding all_set
all_set_iff [] p = (λ _. tt, λ _. refl)
all_set_iff (n ∷ ns) p = (
  λ h. (ground arith, (all_set_iff ns p).0 (ground arith)),
  λ h. ground (arith, (all_set_iff ns p).1 h.1),
)

-- The gate, spelt out: every mandatory predicate is there and true, and `protocol_abuse` is there
-- and false.
pub gate_iff :
    (p : Predicates)
    → (mandatory_gate_passes p ≡ true)
      ↔ (All (Holds p) mandatory_true × (lookup "protocol_abuse" p ≡ some false))
unfolding mandatory_gate_passes all_clear
gate_iff p = (
  λ h. ((all_set_iff mandatory_true p).0 (ground arith), ground arith),
  λ h. ground (arith, (all_set_iff mandatory_true p).1 h.0, h.1),
)

pub climb-le :
    (rs : List Rung) (p : Predicates) → All (λ r. r.1 ≤ top_rung) rs → climb rs p ≤ top_rung
unfolding climb
climb-le [] p h = omega arith
climb-le (r ∷ rs) p h = ground (arith, climb-le rs p h.1)

pub rungs-le : All (λ (r : Rung). r.1 ≤ top_rung) rungs
rungs-le = omega arith

pub not_empty : (n : String) (p : Predicates) → Holds p n → is_empty p ≡ false
not_empty n [] h = cc
not_empty n (_ ∷ _) h = refl

pub gate_pays :
    (p : Predicates)
    → mandatory_gate_passes p ≡ true
    → Holds p "valid_episode"
    → lookup "protocol_abuse" p ≡ some false
    → calculate_reward p ≡ 100
unfolding calculate_reward
gate_pays p gate valid clear = rw (not_empty "valid_episode" p valid, valid, clear, gate)

-- The full reward is given exactly to predicates in which all nineteen mandatory names are present
-- and true and `protocol_abuse` is present and false.
pub full_reward_iff :
    (p : Predicates)
    → (calculate_reward p ≡ 100)
      ↔ (All (Holds p) mandatory_true × (lookup "protocol_abuse" p ≡ some false))
unfolding calculate_reward
full_reward_iff p = (
  λ h. (gate_iff p).0 (ground (arith, climb-le rungs p rungs-le)),
  λ h. gate_pays p ((gate_iff p).1 h) h.0.0 h.1,
)
