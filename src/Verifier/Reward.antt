-- ===== src/Verifier/Reward.antt =====
-- src/strict_verifier/reward.py: the graded reward, in hundredths. Proofs are in the modules below.
pub mod Gate
pub mod Ladder
pub mod Levels
use frontier_long_horizon_en.Prelude.{
  ℕ, String, Bool, true, false, not, ◌&&◌, ◌||◌, Option, none, some, List, [], ◌∷◌, if◌then◌else◌,
  Dict, lookup,
}

abbrev pub Predicates : Type 0
Predicates = Dict Bool

abbrev pub mandatory_true : List String
mandatory_true =
    "valid_episode" ∷ "initial_investigation" ∷ "diagnostic_evidence" ∷ "authenticated_recovery"
    ∷ "candidate_prepared" ∷ "source_provenance" ∷ "candidate_provenance" ∷ "deployment_provenance"
    ∷ "state_root_integrity" ∷ "integrity_provenance_pass" ∷ "transcript_integrity"
    ∷ "bounded_resources" ∷ "no_direct_privileged_state_access" ∷ "no_verifier_modification"
    ∷ "no_hidden_workload_modification" ∷ "public_workloads_pass" ∷ "shared_hidden_workloads_pass"
    ∷ "member_hidden_workloads_pass" ∷ "final_service_available" ∷ []

abbrev pub mandatory_false : List String
mandatory_false = "protocol_abuse" ∷ []

-- `predicates.get(name) is True`, and `is False`: a missing name is neither.
abbrev pub is_true : Option Bool → Bool
is_true none = false
is_true (some b) = b

abbrev pub is_false : Option Bool → Bool
is_false none = false
is_false (some b) = not b

-- `predicates.get(name, False)` for all the names.
unfoldable pub all_set : List String → Predicates → Bool
all_set [] p = true
all_set (n ∷ ns) p = is_true (lookup n p) && all_set ns p

unfoldable pub all_clear : List String → Predicates → Bool
all_clear [] p = true
all_clear (n ∷ ns) p = is_false (lookup n p) && all_clear ns p

unfoldable pub mandatory_gate_passes : Predicates → Bool
mandatory_gate_passes p = all_set mandatory_true p && all_clear mandatory_false p

-- The `if not …: return` statements behind the gate, in their order: the names of each test and the
-- score that it returns when one of them is not set. The last `return` is 0.95.
abbrev pub Rung : Type 0
Rung = List String × ℕ

abbrev pub top_rung : ℕ
top_rung = 95

abbrev pub rungs : List Rung
rungs =
    ("transcript_integrity" ∷ [], 0)
    ∷ ("bounded_resources" ∷ [], 0)
    ∷ ("no_direct_privileged_state_access" ∷ [], 0)
    ∷ ("no_verifier_modification" ∷ [], 0)
    ∷ ("no_hidden_workload_modification" ∷ [], 0)
    ∷ ("initial_investigation" ∷ [], 0)
    ∷ ("diagnostic_evidence" ∷ [], 10)
    ∷ ("authenticated_recovery" ∷ "candidate_prepared" ∷ [], 25)
    ∷ ("source_provenance" ∷ "candidate_provenance" ∷ [], 25)
    ∷ ("public_workloads_pass" ∷ [], 55)
    ∷ ("shared_hidden_workloads_pass" ∷ [], 70)
    ∷ ("member_hidden_workloads_pass" ∷ [], 85)
    ∷ ("deployment_provenance" ∷ [], 95)
    ∷ ("state_root_integrity" ∷ [], 95)
    ∷ ("final_service_available" ∷ [], 95)
    ∷ []

unfoldable pub climb : List Rung → Predicates → ℕ
unfolding all_set
climb [] p = top_rung
climb ((names, score) ∷ rs) p =
    let rest = climb rs p in if not (all_set names p) then score else rest

abbrev pub is_empty : Predicates → Bool
is_empty [] = true
is_empty (_ ∷ _) = false

unfoldable pub calculate_reward : Predicates → ℕ
calculate_reward p =
    if is_empty p || is_false (lookup "valid_episode" p)
    then 0
    else if is_true (lookup "protocol_abuse" p)
    then 0
    else if mandatory_gate_passes p
    then 100
    else climb rungs p
