-- ===== src/Agent/Workloads/Outcome.antt =====
-- When a workload's receipt says `pass` (`_validate_durable_outcome` of src/agent_surface/runtime.py).
use frontier_long_horizon_en.Prelude.{
  ℕ, ◌≤◌, ◌*◌, ◌≡◌, ◌↔◌, refl, Bool, true, false, List, [], ◌∷◌, All, arith, length, if◌then◌else◌,
  String,
}
use text.Mathlib.TextEquality.{eq_iff}
use frontier_long_horizon_en.Substrate.Tables.{JournalRow, EffectRow}
use frontier_long_horizon_en.Substrate.Store.{Store}
use frontier_long_horizon_en.Agent.Runtime.{effect_amount}
use frontier_long_horizon_en.Agent.Workloads.{
  Scope, journal_rows_for_scope, effect_rows_for_events, event_ids, net_amount, max_delivered_seq,
  amounts_ok, validate_durable_outcome,
}

pub amounts_iff :
    (rs : List EffectRow) → (amounts_ok rs ≡ true) ↔ All (λ r. r.amount ≡ effect_amount) rs
unfolding amounts_ok
amounts_iff [] = (λ _. tt, λ _. refl)
amounts_iff (r ∷ rs) = (
  λ h. (ground arith, (amounts_iff rs).0 (ground arith)),
  λ h. ground (arith, (amounts_iff rs).1 h.1, h.0),
)

-- Right amounts add up.
pub net_amount-All :
    (rs : List EffectRow)
    → All (λ r. r.amount ≡ effect_amount) rs
    → net_amount rs ≡ length rs * effect_amount
unfolding net_amount
net_amount-All [] h = refl
net_amount-All (r ∷ rs) h = omega (arith, h.0, net_amount-All rs h.1)

pub delivered_iff :
    (n : ℕ) (rs : List JournalRow) → (max_delivered_seq rs ≤ n) ↔ All (λ r. r.seq ≤ n) rs
unfolding max_delivered_seq
delivered_iff n [] = (λ _. tt, λ _. omega arith)
delivered_iff n (r ∷ rs) = (
  λ h. (ground arith, (delivered_iff n rs).0 (ground arith)),
  λ h. ground (arith, (delivered_iff n rs).1 h.1, h.0),
)

pub verdict_text_iff :
    (b : Bool) → (◌≡◌ {A = String} (if b then "pass" else "fail") "pass") ↔ (b ≡ true)
verdict_text_iff true = (λ _. refl, λ _. refl)
verdict_text_iff false = ((eq_iff "fail" "pass").1, (eq_iff "fail" "pass").0)

module _ (scope : Scope) (s : Store) where
  abbrev pub rows : List JournalRow
  rows = journal_rows_for_scope scope s.service.journal

  abbrev pub effects : List EffectRow
  effects = effect_rows_for_events (event_ids rows) s.service.effects

  -- The expected numbers of events and effects are durable, with the right amounts and the cursor
  -- past every event.
  abbrev pub IsDurable : ℕ → ℕ → Type 0
  IsDurable expected_events expected_effects =
      (length rows ≡ expected_events)
      × ((length effects ≡ expected_effects)
          × (All (λ r. r.amount ≡ effect_amount) effects
              × All (λ r. r.seq ≤ s.service.committed_seq) rows))

  -- The verdict on a scope is `pass` exactly when the journal rows in scope and the effects of
  -- their events have the expected numbers, each effect has the effect amount, and the cursor is
  -- at or past each of these rows: the sum of the amounts is then right too.
  pub outcome_pass_iff :
      (expected_events expected_effects : ℕ)
      → ((validate_durable_outcome expected_events expected_effects scope s).outcome ≡ "pass")
        ↔ IsDurable expected_events expected_effects
  unfolding validate_durable_outcome
  outcome_pass_iff expected_events expected_effects = (
    λ h.
        let b = (verdict_text_iff _).0 h in
        (
          ground arith,
          (
            ground arith,
            ((amounts_iff effects).0 (ground arith), (delivered_iff _ rows).0 (ground arith)),
          ),
        ),
    λ h. (verdict_text_iff _).1 (
        ground (
          arith,
          h.0,
          h.1.0,
          (amounts_iff effects).1 h.1.1.0,
          net_amount-All effects h.1.1.0,
          (delivered_iff _ rows).1 h.1.1.1,
        )),
  )
