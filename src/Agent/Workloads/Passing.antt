-- ===== src/Agent/Workloads/Passing.antt =====
-- The run of a workload of one command by the repaired flow (src/agent_surface/runtime.py), from its
-- acceptance and delivery to the verdict of the receipt.
pub mod Accepting
pub mod Delivering
pub mod Retrying
use mathlib.Core.Path.{subst}
use frontier_long_horizon_en.Prelude.{
  ℕ, String, ◌≡◌, Bool, false, none, List, [], ◌∷◌, Result, ok, eq_refl, arith, ap, sym, ◌∙◌, ◌≤◌,
  ◌⊎◌, inl, inr,
}
use frontier_long_horizon_en.Prelude.Exec.{gets}
use frontier_long_horizon_en.Substrate.Tables.{JournalRow, EffectRow}
use frontier_long_horizon_en.Substrate.Canonical.{Primitives}
use frontier_long_horizon_en.Substrate.Store.{Store}
use frontier_long_horizon_en.Agent.Runtime.{◌>>=◌, ◌>>◌, new_run, Run, Stop, Command, M}
use frontier_long_horizon_en.Agent.Flow.{logical_identity_flow}
use frontier_long_horizon_en.Agent.Workloads.{
  WorkloadReceipt, run_public_workload, command_for, accept_all, deliver_all, public_receipt,
  run_commands,
}
use frontier_long_horizon_en.Agent.Workloads.Passing.Accepting.{
  put, then_ok, row_at, row, accepts_all,
}
use frontier_long_horizon_en.Agent.Workloads.Passing.Delivering.{IsEffect}
use frontier_long_horizon_en.Agent.Workloads.Passing.Retrying.{delivers_all}

module _ (p : Primitives) where
  module _ (c : Command) (tick : ℕ) (s : Run) where
    judged :
        (root : String) (x : EffectRow) (ats : List (String × ℕ)) (r : Run)
        → IsEffect p c tick s x
        → (public_receipt p
            (logical_identity_flow p)
            root
            (c ∷ [])
            (put (row p c tick s ∷ []) (x ∷ []) 1 ats false r)).outcome
          ≡ "pass"
    unfolding public_receipt IsEffect row row_at
    judged root x ats r (source, amount) =
        ground
          (arith, eq_refl c.command_key, eq_refl c.occurrence_id, eq_refl (row p c tick s).event_id)

  abbrev IsPassing : Result Stop WorkloadReceipt × Run → Type 0
  IsPassing x = (w : WorkloadReceipt) × (r : Run) × (x ≡ (ok w, r)) × (w.outcome ≡ "pass")

  module _ (root : String) (budget : ℕ) (enough : 2 ≤ budget) where
    command-IsPassing :
        (c : Command) (n : ℕ) (b : Bool) (r : Run)
        → IsPassing
            (run_commands p (logical_identity_flow p) root budget (c ∷ []) (put [] [] n [] b r))
    unfolding run_commands
    command-IsPassing c n b r =
        let f = logical_identity_flow p in
        let start = put [] [] n [] b r in
        let (tick, r1, accepted) = accepts_all p c n b r in
        let given = put (row p c tick r ∷ []) [] n [] b r1 in
        let i = (row p c tick r).event_id in
        let (x, ats, r2, fine, delivered) = delivers_all p c tick r budget n b r1 enough in
        let after = put (row p c tick r ∷ []) (x ∷ []) 1 ats false r2 in
        let last : Unit {0} → M WorkloadReceipt = λ _. gets (public_receipt p f root (c ∷ [])) in
        let middle : List String → M WorkloadReceipt =
          λ ids. (do deliver_all p f budget ids; gets (public_receipt p f root (c ∷ []))) in
        (
          public_receipt p f root (c ∷ []) after,
          after,
          then_ok (accept_all p f (c ∷ [])) middle start given (i ∷ []) accepted
              ∙ then_ok (deliver_all p f budget (i ∷ [])) last given after tt delivered,
          judged c tick r root x ats r2 fine,
        )

    -- The command of the one, or of the other workload.
    single-IsPassing :
        (workload : String) (n : ℕ) (b : Bool) (r : Run)
        → (workload ≡ "P1") ⊎ (workload ≡ "P2")
        → IsPassing (
            run_public_workload p
              (logical_identity_flow p)
              root
              budget
              (put [] [] n [] b (record r { workload_id = workload })))
    unfolding run_public_workload
    single-IsPassing workload n b r (inl h) = rw h (
        command-IsPassing
          (command_for p (logical_identity_flow p) "cmd_routine_redelivery" "occ_routine_redelivery"
            r.alias)
          n b (record r { workload_id = "P1" }))
    single-IsPassing workload n b r (inr h) = rw h (
        command-IsPassing
          (command_for p (logical_identity_flow p) "cmd_transient_effect" "occ_transient_effect"
            r.alias)
          n b (record r { workload_id = "P2" }))

  -- If the journal and the effects are empty, the attempt budget is at least two, and the workload
  -- is P1 or P2: a run of the public workload by the repaired flow, without a cutpoint, returns a
  -- receipt whose outcome is pass, whether or not a transient failure is pending.
  pub repaired_flow_passes :
      (root : String) (budget : ℕ) (s : Store) (profile : ℕ) (workload alias handle : String)
      (transient : Bool)
      → 2 ≤ budget
      → s.service.journal ≡ []
      → s.service.effects ≡ []
      → (workload ≡ "P1") ⊎ (workload ≡ "P2")
      → (w : WorkloadReceipt) × (r : Run) × (run_public_workload p
            (logical_identity_flow p)
            root
            budget
            (new_run s profile none workload alias handle transient)
          ≡ (ok w, r))
        × (w.outcome ≡ "pass")
  unfolding new_run
  repaired_flow_passes root budget s profile workload alias handle transient enough no_rows
        no_effects which =
      let r = new_run s profile none workload alias handle transient in
      let n = s.service.committed_seq in
      let b = r.transient_pending in
      let at = λ (js : List JournalRow) (es : List EffectRow). put js es n [] b r in
      let here : r ≡ at [] [] =
        ap (λ js. at js s.service.effects) no_rows ∙ ap (at []) no_effects in
      subst (λ (q : Run). IsPassing (run_public_workload p (logical_identity_flow p) root budget q))
        (sym here) (single-IsPassing root budget enough workload n b r which)
