-- ===== src/Agent/Probes/Hidden/Contract.antt =====
-- With how many effects each hidden workload (`_run_hidden_workload` of
-- src/agent_surface/runtime.py) passes.
use mathlib.Core.Path.{subst}
use frontier_long_horizon_en.Prelude.{
  ℕ, ◌*◌, ◌≡◌, refl, sym, String, Bool, true, ◌&&◌, List, [], ◌∷◌, All, nat_eq, ◌==◌, eq_iff,
  if◌then◌else◌, length, ok, arith, Bool-cases, inl, inr,
}
use frontier_long_horizon_en.Prelude.Exec.{gets}
use frontier_long_horizon_en.Substrate.Tables.{JournalRow}
use frontier_long_horizon_en.Substrate.Canonical.{Primitives}
use frontier_long_horizon_en.Agent.Runtime.{Run, M, ◌>>=◌, effect_amount}
use frontier_long_horizon_en.Agent.Flow.{Flow}
use frontier_long_horizon_en.Agent.Workloads.{
  Scope, WorkloadReceipt, build_receipt, validate_durable_outcome,
}
use frontier_long_horizon_en.Agent.Workloads.Outcome.{
  verdict_text_iff, net_amount-All, outcome_pass_iff, effects,
}
use frontier_long_horizon_en.Agent.Workloads.Returns.{gets_returned}
use frontier_long_horizon_en.Agent.Probes.{
  verdict_text, counted_receipt, rows_receipt, validated_receipt, effect_count_for_rows,
  with_command, accept_and_deliver_one,
}
use frontier_long_horizon_en.Agent.Probes.Effects.{
  run_a1, run_a2, run_a3, run_a4, keys_receipt, restart_receipt, are_notify_and_settlement,
}
use frontier_long_horizon_en.Agent.Probes.Commands.{
  run_b1, run_b2, run_b3, run_b4, conflict_receipt, repeat_receipt,
}
use frontier_long_horizon_en.Agent.Probes.Recovered.{
  recovery_pairs, compat_pairs, transient_pairs, s1_steps, s2_compat_steps, run_s1, run_s2,
  run_trans, run_s3,
}
use frontier_long_horizon_en.Agent.Probes.Hidden.{Branch, branches, run_branch, run_hidden_workload}

-- The contract: two effects where a command is repeated on purpose or an event has two effects,
-- none where the second payload conflicts, and one wherever a retry or a redelivery is tried.
abbrev pub expected_effects : String → ℕ
expected_effects name =
    if name == "H-A2"
    then 2
    else if name == "H-A3"
    then 2
    else if name == "H-B4"
    then 2
    else if name == "H-S1"
    then 2
    else if name == "H-B3"
    then 0
    else 1

-- A receipt that passes has `n` effects and their net amount.
abbrev pub Meets : ℕ → WorkloadReceipt → Type 0
Meets n w = w.outcome ≡ "pass" → (w.effect_count ≡ n) × (w.net_effect_count ≡ n * effect_amount)

abbrev Delivers : ℕ → M WorkloadReceipt → Type 0
Delivers n m = (r r' : Run) (w : WorkloadReceipt) → m r ≡ (ok w, r') → Meets n w

ends-Delivers :
    {A : Type 0} (n : ℕ) (m : M A) (h : A → Run → WorkloadReceipt)
    → ((a : A) (r : Run) → Meets n (h a r))
    → Delivers n (m >>= λ a. gets (h a))
ends-Delivers n m h all r r' w e passed =
    let (a, same) = gets_returned m h r r' w e in subst (Meets n) (sym same) (all a r') passed

counted_receipt-Meets :
    (root : String) (events effects n : ℕ) (b : Bool) (r : Run)
    → (b ≡ true → effects ≡ n)
    → Meets n (counted_receipt root events effects (verdict_text b) r)
unfolding counted_receipt build_receipt
counted_receipt-Meets root events effects n b r right passed =
    let e = right ((verdict_text_iff b).0 passed) in (e, omega (arith, e))

validated_receipt-Meets :
    (root : String) (n : ℕ) (scope : Scope) (r : Run) → Meets n (validated_receipt root n scope r)
unfolding validated_receipt build_receipt validate_durable_outcome
validated_receipt-Meets root n scope r passed =
    let found = (outcome_pass_iff scope r.store n n).0 passed in
    (found.1.0, omega (arith, found.1.0, net_amount-All (effects scope r.store) found.1.1.0))

rows_receipt-Meets :
    (root : String) (n : ℕ) (rows : List JournalRow) (r : Run)
    → Meets n (rows_receipt root n rows r)
unfolding rows_receipt
rows_receipt-Meets root n rows r =
    counted_receipt-Meets root (length rows) (effect_count_for_rows rows r) n
      (nat_eq (length rows) n && nat_eq (effect_count_for_rows rows r) n) r (λ h. ground arith)

rows-Deliver :
    (n : ℕ) (root : String) (m : M (List JournalRow))
    → Delivers n (m >>= λ rows. gets (rows_receipt root n rows))
rows-Deliver n root m = ends-Delivers n m (rows_receipt root n) (rows_receipt-Meets root n)

validated-Deliver :
    (n : ℕ) (scope : Scope) (root : String) {A : Type 0} (m : M A)
    → Delivers n (m >>= λ _. gets (validated_receipt root n scope))
validated-Deliver n scope root m =
    ends-Delivers n m (λ _. validated_receipt root n scope)
      (λ _. validated_receipt-Meets root n scope)

repeat_receipt-Meets :
    (root : String) (ids : List String) (rows : List JournalRow) (r : Run)
    → Meets 2 (repeat_receipt root ids rows r)
unfolding repeat_receipt
repeat_receipt-Meets root ids rows r =
    counted_receipt-Meets root (length ids) (effect_count_for_rows rows r) 2
      (nat_eq (length rows) 2 && nat_eq (effect_count_for_rows rows r) 2) r (λ h. ground arith)

notify_and_settlement_are_two :
    (keys : List String) → are_notify_and_settlement keys ≡ true → length keys ≡ 2
unfolding are_notify_and_settlement
notify_and_settlement_are_two [] h = ground arith
notify_and_settlement_are_two (a ∷ []) h = ground arith
notify_and_settlement_are_two (a ∷ b ∷ []) h = refl
notify_and_settlement_are_two (a ∷ b ∷ c ∷ keys) h = ground arith

keys_receipt-Meets :
    (root : String) (keys : List String) (r : Run) → Meets 2 (keys_receipt root keys r)
unfolding keys_receipt
keys_receipt-Meets root keys r =
    counted_receipt-Meets root 1 (length keys) 2 (are_notify_and_settlement keys) r
      (notify_and_settlement_are_two keys)

restart_receipt-Meets : (root : String) (n : ℕ) (r : Run) → Meets 1 (restart_receipt root n r)
unfolding restart_receipt
restart_receipt-Meets root n r = counted_receipt-Meets root 1 n 1 (nat_eq n 1) r (λ h. ground arith)

conflict_receipt-Meets :
    (root : String) (rows : List JournalRow) (r : Run) → Meets 0 (conflict_receipt root rows r)
unfolding conflict_receipt
conflict_receipt-Meets root rows r =
    counted_receipt-Meets root (length rows) 0 0 (nat_eq (length rows) 1) r (λ _. refl)

module _ (p : Primitives) (f : Flow) where
  -- A branch that meets the contract of its name.
  abbrev Fulfils : Branch p f → Type 0
  Fulfils (name, workload) =
      (root : String) (budget : ℕ) → Delivers (expected_effects name) (workload root budget)

  branches-Fulfil : All Fulfils (branches p f)
  unfolding run_a1 run_a2 run_a3 run_a4 run_b1 run_b2 run_b3 run_b4 run_s1 run_s2 run_trans run_s3
  branches-Fulfil = (
    λ root budget. rows-Deliver 1 root _,
    (
      λ root budget. rows-Deliver 2 root _,
      (
        λ root budget. rows-Deliver 1 root _,
        (
          λ root budget. rows-Deliver 1 root _,
          (
            λ root budget. ends-Delivers 2 _ (keys_receipt root) (keys_receipt-Meets root),
            (
              λ root budget. ends-Delivers 1 _ (restart_receipt root) (restart_receipt-Meets root),
              (
                λ root budget.
                    ends-Delivers 0 _ (conflict_receipt root) (conflict_receipt-Meets root),
                (
                  λ root budget.
                      ends-Delivers 2 _ (λ found. repeat_receipt root found.0 found.1)
                        (λ found. repeat_receipt-Meets root found.0 found.1),
                  (
                    λ root budget. validated-Deliver 2 recovery_pairs root (s1_steps p f budget),
                    (
                      λ root budget. validated-Deliver 1 compat_pairs root (
                          with_command p f "cmd_s_compat" "occ_s_compat"
                            (s2_compat_steps p f budget)),
                      (
                        λ root budget. validated-Deliver 1 transient_pairs root (
                            with_command p f "cmd_s_transient" "occ_s_transient"
                              (accept_and_deliver_one p f budget true)),
                        (λ root budget. rows-Deliver 1 root _, tt),
                      ),
                    ),
                  ),
                ),
              ),
            ),
          ),
        ),
      ),
    ),
  )

  run_branch-Meets :
      (bs : List (Branch p f)) (root : String) (budget : ℕ)
      → All Fulfils bs
      → (r r' : Run) (w : WorkloadReceipt) → run_branch p f bs root budget r ≡ (ok w, r')
      → Meets (expected_effects r.workload_id) w
  unfolding run_branch
  run_branch-Meets [] root budget all r r' w h = absurd (ground arith)
  run_branch-Meets ((name, workload) ∷ bs) root budget all r r' w h =
      elim (Bool-cases (r.workload_id == name)) [
        | inl same ↦
            rw ((eq_iff r.workload_id name).0 same) (all.0 root budget r r' w (rw same at h))
        | inr other ↦ run_branch-Meets bs root budget all.1 r r' w (rw other at h)
      ]

  -- For any flow: if a hidden workload returns a receipt with the outcome `pass`, then the receipt
  -- counts as many effects as the contract of its name asks for, and its net amount is theirs.
  pub hidden_pass_meets_contract :
      (root : String) (budget : ℕ) (r r' : Run) (w : WorkloadReceipt)
      → run_hidden_workload p f root budget r ≡ (ok w, r')
      → w.outcome ≡ "pass"
      → (w.effect_count ≡ expected_effects r.workload_id)
        × (w.net_effect_count ≡ expected_effects r.workload_id * effect_amount)
  unfolding run_hidden_workload
  hidden_pass_meets_contract root budget r r' w h =
      run_branch-Meets (branches p f) root budget branches-Fulfil r r' w h
