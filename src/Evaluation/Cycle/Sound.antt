-- ===== src/Evaluation/Cycle/Sound.antt =====
-- What a repeated cycle is (src/evaluation_service/runner.py).
use Prim.Native.Nat.{◌/◌}
use frontier_long_horizon_en.Prelude.{
  ℕ, zero, suc, ◌+◌, ◌*◌, ◌≤◌, ◌<◌, ◌≡◌, ◌↔◌, ◌≢◌, ◌⊎◌, inl, inr, true, false, Option, none, some,
  List, [], ◌∷◌, leb, length, nat_eq, arith, Bool-cases,
}
use frontier_long_horizon_en.Evaluation.Cycle.{
  Entry, read_suffix, same_block, drop, count_repeats, min, find_cycle, repeated_read_only_cycle,
}

count_repeats_ge :
    (fuel n : ℕ) (pattern es : List Entry) (repeats : ℕ)
    → repeats ≤ count_repeats fuel n pattern es repeats
unfolding count_repeats
count_repeats_ge zero n pattern es repeats = omega arith
count_repeats_ge (suc fuel) n pattern es repeats =
    ground (arith, count_repeats_ge fuel n pattern (drop n es) (repeats + 1))

-- A block is counted twice exactly if it stands twice, given a round.
count_repeats_iff :
    (fuel n : ℕ) (pattern es : List Entry)
    → 0 < fuel
    → (leb 2 (count_repeats fuel n pattern es 1) ≡ same_block n pattern es)
unfolding count_repeats
count_repeats_iff zero n pattern es l = absurd (omega arith)
count_repeats_iff (suc fuel) n pattern es l = elim (Bool-cases (same_block n pattern es)) [
  | inl same ↦ rw same (ground (arith, count_repeats_ge fuel n pattern (drop n es) 2))
  | inr other ↦ rw other (λ i. false)
]

-- The newest `n` successful readings are the `n` before them.
abbrev pub IsCycle : ℕ → List Entry → Type 0
IsCycle n suffix = same_block n suffix (drop n suffix) ≡ true

find_cycle_sound :
    (left n : ℕ) (suffix : List Entry) (c r : ℕ)
    → 0 < length suffix
    → find_cycle left n suffix ≡ some (c, r)
    → (n ≤ c) × (c < n + left) × (2 ≤ r) × IsCycle c suffix
unfolding find_cycle
find_cycle_sound zero n suffix c r l h = absurd (ground arith)
find_cycle_sound (suc left) n suffix c r l h = ground (
  arith,
  count_repeats_iff (length suffix) n suffix (drop n suffix) l,
  find_cycle_sound left (n + 1) suffix c r l,
)

find_cycle_complete :
    (left n : ℕ) (suffix : List Entry) (c : ℕ)
    → 0 < length suffix
    → find_cycle left n suffix ≡ none
    → n ≤ c
    → c < n + left
    → ¬ IsCycle c suffix
unfolding find_cycle
find_cycle_complete zero n suffix c l h a b same = absurd (omega arith)
find_cycle_complete (suc left) n suffix c l h a b same = elim (Bool-cases (nat_eq n c)) [
  | inl e ↦
      let at : n ≡ c = ground arith in
      let twice : IsCycle n suffix = rw at same in
      ground (arith, count_repeats_iff (length suffix) n suffix (drop n suffix) l)
  | inr e ↦
      let later : n ≢ c = ground arith in
      ground (
        arith,
        count_repeats_iff (length suffix) n suffix (drop n suffix) l,
        find_cycle_complete left (n + 1) suffix c l,
      )
]

-- The lengths of cycle that are tried.
abbrev pub IsTried : ℕ → List Entry → Type 0
IsTried c suffix = (1 ≤ c) × (c ≤ 4) × (2 * c ≤ length suffix)

empty_has_none :
    (suffix : List Entry)
    → length suffix ≡ 0
    → find_cycle (min 4 (length suffix / 2)) 1 suffix ≡ none
unfolding find_cycle
empty_has_none [] h = λ i. none
empty_has_none (e ∷ es) h = absurd (omega arith)

repeated_read_only_cycle_sound :
    (timeline : List Entry) (c r : ℕ)
    → repeated_read_only_cycle timeline ≡ some (c, r)
    → IsTried c (read_suffix timeline) × (2 ≤ r) × IsCycle c (read_suffix timeline)
unfolding repeated_read_only_cycle
repeated_read_only_cycle_sound timeline c r h =
    let suffix = read_suffix timeline in
    elim (Bool-cases (nat_eq (length suffix) 0)) [
      | inl e ↦ ground (arith, empty_has_none suffix)
      | inr e ↦ ground (arith, find_cycle_sound (min 4 (length suffix / 2)) 1 suffix c r)
    ]

repeated_read_only_cycle_complete :
    (timeline : List Entry)
    → repeated_read_only_cycle timeline ≡ none
    → (c : ℕ) → IsTried c (read_suffix timeline)
    → ¬ IsCycle c (read_suffix timeline)
unfolding repeated_read_only_cycle
repeated_read_only_cycle_complete timeline h c (one, four, twice) =
    let suffix = read_suffix timeline in
    find_cycle_complete (min 4 (length suffix / 2)) 1 suffix c (omega arith) h one (ground arith)

cases : (o : Option (ℕ × ℕ)) → (o ≡ none) ⊎ ((x : ℕ × ℕ) × (o ≡ some x))
cases none = inl (λ i. none)
cases (some x) = inr (x, λ i. some x)

-- The guard finds a cycle exactly if there is a length, at least one and at most four, for which
-- the newest so many entries of the timeline are the same calls with the same results as the so
-- many before them, all of them successful readings.
pub repeated_read_only_cycle_iff :
    (timeline : List Entry)
    → ((x : ℕ × ℕ) × (repeated_read_only_cycle timeline ≡ some x))
      ↔ ((c : ℕ) × IsTried c (read_suffix timeline) × IsCycle c (read_suffix timeline))
repeated_read_only_cycle_iff timeline = (
  λ (x, h).
      let (tried, _, same) = repeated_read_only_cycle_sound timeline x.0 x.1 h in
      (x.0, tried, same),
  λ (c, tried, same). elim (cases (repeated_read_only_cycle timeline)) [
    | inl h ↦ absurd (repeated_read_only_cycle_complete timeline h c tried same)
    | inr found ↦ found
  ],
)
