-- ===== src/Verifier/Reward/Ladder.antt =====
-- The ladder of partial rewards (src/strict_verifier/reward.py): its levels, what a positive level
-- rests on, and its monotonicity.
use frontier_long_horizon_en.Prelude.{
  ℕ, leb, ◌≤◌, ◌<◌, String, ◌≡◌, refl, true, false, ◌==◌, some, List, [], ◌∷◌, All, arith,
  Bool-cases, inl, inr, lookup, &&_split,
}
use frontier_long_horizon_en.Verifier.Reward.{
  Predicates, Rung, mandatory_true, mandatory_false, all_set, all_clear, mandatory_gate_passes,
  rungs, top_rung, climb, calculate_reward, is_true, is_false, is_empty,
}
use frontier_long_horizon_en.Verifier.Reward.Gate.{
  Holds, all_set_iff, gate_iff, gate_pays, climb-le, rungs-le,
}

-- `q` has what `p` has: every predicate but `protocol_abuse` that is true stays true, and
-- `valid_episode` and `protocol_abuse` are no worse.
pub record Improves (p q : Predicates) : Type 0 where
  pub keeps : (n : String) → Holds p n → (n == "protocol_abuse") ≡ false → Holds q n
  pub valid :
      is_false (lookup "valid_episode" p) ≡ false → is_false (lookup "valid_episode" q) ≡ false
  pub abuse :
      is_true (lookup "protocol_abuse" p) ≡ false → is_true (lookup "protocol_abuse" q) ≡ false
  pub clear : lookup "protocol_abuse" p ≡ some false → lookup "protocol_abuse" q ≡ some false
  pub present : is_empty p ≡ false → is_empty q ≡ false

-- The names of a test are not `protocol_abuse`.
abbrev IsPositive : List String → Type 0
IsPositive ns = All (λ n. (n == "protocol_abuse") ≡ false) ns

-- Scores that do not fall, the last of them at most the top.
abbrev IsAscending : List Rung → Type 0
IsAscending [] = Unit
IsAscending (r ∷ rs) =
    All (λ (s : Rung). r.1 ≤ s.1) rs × (r.1 ≤ top_rung) × IsPositive r.0 × IsAscending rs

mandatory_true-IsPositive : IsPositive mandatory_true
mandatory_true-IsPositive = ground arith

rungs-IsAscending : IsAscending rungs
rungs-IsAscending = ground arith

module _ (p q : Predicates) (better : Improves p q) where
  all_set_mono : (ns : List String) → IsPositive ns → all_set ns p ≡ true → all_set ns q ≡ true
  unfolding all_set
  all_set_mono [] pos h = refl
  all_set_mono (n ∷ ns) pos h = ground (arith, better.keeps n, pos.0, all_set_mono ns pos.1)

  le-climb :
      (b : ℕ) (rs : List Rung) → All (λ (s : Rung). b ≤ s.1) rs → b ≤ top_rung → b ≤ climb rs q
  unfolding climb
  le-climb b [] h t = t
  le-climb b (r ∷ rs) h t = ground (arith, le-climb b rs h.1 t)

  climb_mono : (rs : List Rung) → IsAscending rs → climb rs p ≤ climb rs q
  unfolding climb
  climb_mono [] h = omega arith
  climb_mono (r ∷ rs) (above, low, pos, rest) =
      ground (arith, all_set_mono r.0 pos, climb_mono rs rest, le-climb r.1 rs above low)

  clear_mono : all_clear mandatory_false p ≡ true → all_clear mandatory_false q ≡ true
  unfolding all_clear
  clear_mono h = ground (arith, better.clear)

  gate_mono : mandatory_gate_passes p ≡ true → mandatory_gate_passes q ≡ true
  unfolding mandatory_gate_passes
  gate_mono h =
      let (all, none_abused) =
        &&_split (all_set mandatory_true p) (all_clear mandatory_false p) h in
      rw (all_set_mono mandatory_true mandatory_true-IsPositive all) (clear_mono none_abused)

  -- If every passed check of one episode is passed in another, which is not invalid, abusive or
  -- empty where the first is not, then the second earns no less.
  pub calculate_reward_mono : calculate_reward p ≤ calculate_reward q
  unfolding calculate_reward
  calculate_reward_mono = ground (
    arith,
    better.valid,
    better.abuse,
    better.present,
    gate_mono,
    climb_mono rungs rungs-IsAscending,
    climb-le rungs p rungs-le,
  )

module _ (p : Predicates) where
  -- A rung is earned if all its checks are passed, where the reward exceeds its score.
  abbrev pub IsEarned : ℕ → Rung → Type 0
  IsEarned c r = r.1 < c → All (Holds p) r.0

  none_above :
      (c b : ℕ) (rs : List Rung) → c ≤ b → All (λ (s : Rung). b ≤ s.1) rs → All (IsEarned c) rs
  none_above c b [] h above = tt
  none_above c b (r ∷ rs) h above =
      (λ lt. absurd (omega (arith, lt, above.0, h)), none_above c b rs h above.1)

  earned : (c : ℕ) (rs : List Rung) → IsAscending rs → c ≤ climb rs p → All (IsEarned c) rs
  unfolding climb
  earned c [] asc h = tt
  earned c (r ∷ rs) (above, low, pos, rest) h = elim (Bool-cases (all_set r.0 p)) [
    | inl passed ↦ (λ lt. (all_set_iff r.0 p).0 passed, earned c rs rest (ground arith))
    | inr failed ↦
        let stuck : c ≤ r.1 = ground arith in
        (λ lt. absurd (omega (arith, lt, stuck)), none_above c r.1 rs stuck above)
  ]

  pub to_climb : (c : ℕ) (rs : List Rung) → c ≤ top_rung → All (IsEarned c) rs → c ≤ climb rs p
  unfolding climb
  to_climb c [] top h = top
  to_climb c (r ∷ rs) top h = elim (Bool-cases (leb c r.1)) [
    | inl low ↦ ground (arith, to_climb c rs top h.1)
    | inr high ↦
        let passed = (all_set_iff r.0 p).1 (h.0 (ground arith)) in
        ground (arith, to_climb c rs top h.1)
  ]

  gate_earns-All : All (Holds p) mandatory_true → All (IsEarned 100) rungs
  gate_earns-All h = ground arith

  at_most_climb : mandatory_gate_passes p ≡ false → calculate_reward p ≤ climb rungs p
  unfolding calculate_reward
  at_most_climb short = ground arith

  -- For each test behind the gate, whether the episode has passed it.
  pub reward-IsEarned : All (IsEarned (calculate_reward p)) rungs
  reward-IsEarned = elim (Bool-cases (mandatory_gate_passes p)) [
    | inl gate ↦
        let (all, clear) = (gate_iff p).0 gate in
        rw (gate_pays p gate all.0 clear) (gate_earns-All all)
    | inr short ↦ earned (calculate_reward p) rungs rungs-IsAscending (at_most_climb short)
  ]
