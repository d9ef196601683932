-- ===== src/Agent/Probes/Hidden/Kept.antt =====
-- The hidden workloads (`_run_hidden_workload` of src/agent_surface/runtime.py) keep what the stages
-- of the flow keep.
use frontier_long_horizon_en.Prelude.{
  ℕ, String, true, false, some, List, [], ◌∷◌, ok, err, Result, All, ◌==◌,
}
use frontier_long_horizon_en.Prelude.Exec.{gets}
use frontier_long_horizon_en.Substrate.Tables.{JournalRow}
use frontier_long_horizon_en.Substrate.Canonical.{Primitives}
use frontier_long_horizon_en.Agent.Runtime.{
  Command, Stop, tool_error, cutpoint_stop, transient_failure, integrity_error, out_of_fuel, Run, M,
  ◌>>=◌, effects_of,
}
use frontier_long_horizon_en.Agent.Methods.{log_line}
use frontier_long_horizon_en.Agent.Flow.{Flow}
use frontier_long_horizon_en.Agent.Engine.{accept_command}
use frontier_long_horizon_en.Agent.Engine.Kept.{
  Keeps, KeptBy, if_holds, accept_command-Kept, deliver_event-Kept,
}
use frontier_long_horizon_en.Agent.Workloads.{WorkloadReceipt, settlement_count}
use frontier_long_horizon_en.Agent.Probes.{pair_of, rows_receipt, validated_receipt}
use frontier_long_horizon_en.Agent.Probes.Effects.{log_delivered, shared_pairs}
use frontier_long_horizon_en.Agent.Probes.Effects.{
  sorted_keys, keys_receipt, restart_receipt, deliver_reported, a1_steps, a2_steps, a3_steps,
  a4_steps, run_a1, run_a2, run_a3, run_a4,
}
use frontier_long_horizon_en.Agent.Probes.Commands.{
  rows_of_key, ignore_tool_error, conflict_receipt, repeat_receipt, b1_steps, b2_steps,
  accept_conflicting, b3_steps, b4_steps, run_b1, run_b2, run_b3, run_b4,
}
use frontier_long_horizon_en.Agent.Probes.Recovered.{
  recovery_pairs, compat_pairs, transient_pairs, s1_steps, s2_compat_steps, deliver_twice, s3_steps,
  run_s1, run_s2, run_trans, run_s3,
}
use frontier_long_horizon_en.Agent.Probes.Hidden.{Branch, branches, run_branch, run_hidden_workload}
use frontier_long_horizon_en.Agent.Probes.Kept.{
  Keeps-bind, Keeps-pure, Keeps-gets, Keeps-with, rows_for-Keeps, accept_each-Keeps,
  deliver_rows-Keeps, deliver_each-Keeps, accept_and_deliver-Keeps, accept_and_deliver_one-Keeps,
}

module _ (P : Run → Type 0) (p : Primitives) (f : Flow) (k : KeptBy P p f) where
  Keeps-log : (line : Run → String) → Keeps P (λ r. log_line (line r) r)
  Keeps-log line = record { at = λ r h. (k.log _).at r h }

  -- H-A1 to H-A4
  log_delivered-Keeps : (i : String) → Keeps P (log_delivered p f i)
  unfolding log_delivered
  log_delivered-Keeps i = Keeps-log _

  deliver_reported-Keeps :
      (budget : ℕ) (rows : List JournalRow) → Keeps P (deliver_reported p f budget rows)
  unfolding deliver_reported
  deliver_reported-Keeps budget [] = Keeps-pure P tt
  deliver_reported-Keeps budget (row ∷ rows) =
      Keeps-bind P _ _ (deliver_event-Kept P p f k row.event_id row.seq budget false) (λ _.
        Keeps-bind P _ _ (log_delivered-Keeps row.event_id)
          (λ _. deliver_reported-Keeps budget rows))

  a1_steps-Keeps : (budget : ℕ) (c : Command) → Keeps P (a1_steps p f budget c)
  unfolding a1_steps
  a1_steps-Keeps budget c = Keeps-bind P _ _ (accept_each-Keeps P p f k (c ∷ [])) (λ _.
      Keeps-bind P _ _ (rows_for-Keeps P p f k (pair_of c))
        (λ rows. Keeps-bind P _ _ (deliver_reported-Keeps budget rows) (λ _. Keeps-pure P rows)))

  a2_steps-Keeps : (budget : ℕ) → Keeps P (a2_steps p f budget)
  unfolding a2_steps
  a2_steps-Keeps budget = Keeps-with P p f k "cmd_a_shared_key" "occ_a_first" _ (λ first.
      Keeps-with P p f k "cmd_a_shared_key" "occ_a_second" _
        (λ second. accept_and_deliver-Keeps P p f k budget (first ∷ second ∷ []) shared_pairs))

  a3_steps-Keeps : (budget : ℕ) (c : Command) → Keeps P (a3_steps p f budget c)
  unfolding a3_steps
  a3_steps-Keeps budget c =
      Keeps-bind P _ _ (accept_and_deliver_one-Keeps P p f k budget false c) (λ i.
        Keeps-bind P _ _ (k.loads i) (λ event.
          Keeps-bind P _ _ (k.k5 (record event { logical_effect_key = some "notify" }))
            (λ _. Keeps-gets P (λ r. sorted_keys (effects_of i r.store.service.effects)))))

  a4_steps-Keeps : (budget : ℕ) (c : Command) → Keeps P (a4_steps p f budget c)
  unfolding a4_steps
  a4_steps-Keeps budget c =
      Keeps-bind P _ _ (accept_and_deliver_one-Keeps P p f k budget false c)
        (λ i. Keeps-gets P (λ r. settlement_count i r.store.service.effects))

  -- H-B1 to H-B4
  b1_steps-Keeps : (budget : ℕ) (c : Command) → Keeps P (b1_steps p f budget c)
  unfolding b1_steps
  b1_steps-Keeps budget c = accept_and_deliver-Keeps P p f k budget (c ∷ []) (pair_of c)

  b2_steps-Keeps : (budget : ℕ) (c : Command) → Keeps P (b2_steps p f budget c)
  unfolding b2_steps
  b2_steps-Keeps budget c = accept_and_deliver-Keeps P p f k budget (c ∷ c ∷ []) (pair_of c)

  ignored-Keeps : (result : Result Stop String) → Keeps P (ignore_tool_error result)
  unfolding ignore_tool_error
  ignored-Keeps (ok i) = Keeps-pure P tt
  ignored-Keeps (err (tool_error message)) = Keeps-pure P tt
  ignored-Keeps (err (cutpoint_stop i e)) = record { at = λ r h. h }
  ignored-Keeps (err transient_failure) = record { at = λ r h. h }
  ignored-Keeps (err integrity_error) = record { at = λ r h. h }
  ignored-Keeps (err out_of_fuel) = record { at = λ r h. h }

  accept_conflicting-Keeps : (c : Command) → Keeps P (accept_conflicting p f c)
  unfolding accept_conflicting
  accept_conflicting-Keeps c = record {
    at = λ r h.
        (ignored-Keeps (accept_command f c r).0).at _ ((accept_command-Kept P p f k c).at r h);
  }

  b3_steps-Keeps : Keeps P (b3_steps p f)
  unfolding b3_steps
  b3_steps-Keeps =
      Keeps-bind P _ _
        (Keeps-with P p f k "cmd_b_conflict" "occ_b_conflict" _
          (λ c. accept_command-Kept P p f k (record c { amount = "100" })))
        (λ _.
          Keeps-bind P _ _
            (Keeps-with P p f k "cmd_b_conflict" "occ_b_conflict" _
              (λ c. accept_conflicting-Keeps (record c { amount = "101" })))
            (λ _. rows_for-Keeps P p f k (("cmd_b_conflict", "occ_b_conflict") ∷ [])))

  b4_steps-Keeps : (budget : ℕ) → Keeps P (b4_steps p f budget)
  unfolding b4_steps
  b4_steps-Keeps budget =
      Keeps-bind P _ _
        (Keeps-with P p f k "cmd_b_legit_repeat" "occ_b_legit_first" _ (λ first.
          Keeps-with P p f k "cmd_b_legit_repeat" "occ_b_legit_second" _
            (λ second. accept_each-Keeps P p f k (first ∷ second ∷ []))))
        (λ ids.
          Keeps-bind P (gets (λ r. rows_of_key "cmd_b_legit_repeat" r.store.service.journal)) _
            (Keeps-gets P _)
            (λ rows.
              Keeps-bind P _ _ (deliver_rows-Keeps P p f k budget rows)
                (λ _. Keeps-pure P (ids, rows))))

  -- H-S1 to H-S3
  s1_steps-Keeps : (budget : ℕ) → Keeps P (s1_steps p f budget)
  unfolding s1_steps
  s1_steps-Keeps budget =
      Keeps-bind P _ _
        (Keeps-with P p f k "cmd_s_recovery_first" "occ_s_recovery_first" _ (λ first.
          Keeps-with P p f k "cmd_s_recovery_second" "occ_s_recovery_second" _
            (λ second. accept_each-Keeps P p f k (first ∷ second ∷ []))))
        (λ ids. deliver_each-Keeps P p f k budget ids)

  s2_compat_steps-Keeps : (budget : ℕ) (c : Command) → Keeps P (s2_compat_steps p f budget c)
  unfolding s2_compat_steps
  s2_compat_steps-Keeps budget c =
      accept_and_deliver-Keeps P p f k budget (c ∷ c ∷ c ∷ []) (pair_of c)

  deliver_twice-Keeps :
      (budget : ℕ) (i : String) (rows : List JournalRow) → Keeps P (deliver_twice p f budget i rows)
  unfolding deliver_twice
  deliver_twice-Keeps budget i [] = Keeps-pure P tt
  deliver_twice-Keeps budget i (row ∷ rows) =
      Keeps-bind P _ _ (deliver_event-Kept P p f k i row.seq budget false) (λ _.
        Keeps-bind P _ _ k.restarts (λ _.
          Keeps-bind P _ _ (deliver_event-Kept P p f k i row.seq budget false)
            (λ _. Keeps-pure P tt)))

  s3_steps-Keeps : (budget : ℕ) (c : Command) → Keeps P (s3_steps p f budget c)
  unfolding s3_steps
  s3_steps-Keeps budget c = Keeps-bind P _ _ (accept_command-Kept P p f k c) (λ i.
      Keeps-bind P _ _ k.restarts (λ _. Keeps-bind P _ _ (accept_command-Kept P p f k c) (λ _.
        Keeps-bind P _ _ (rows_for-Keeps P p f k (pair_of c))
          (λ rows. Keeps-bind P _ _ (deliver_twice-Keeps budget i rows) (λ _. Keeps-pure P rows)))))

  -- Every branch, whatever its name.
  abbrev BranchKeeps : Branch p f → Type 0
  BranchKeeps (name, workload) = (root : String) (budget : ℕ) → Keeps P (workload root budget)

  ends-Keep :
      {A : Type 0} (m : M A) (h : A → Run → WorkloadReceipt)
      → Keeps P m
      → Keeps P (m >>= λ a. gets (h a))
  ends-Keep m h km = Keeps-bind P m _ km (λ a. Keeps-gets P (h a))

  branches-Keep : All BranchKeeps (branches p f)
  unfolding run_a1 run_a2 run_a3 run_a4 run_b1 run_b2 run_b3 run_b4 run_s1 run_s2 run_trans run_s3
  branches-Keep = (
    λ root budget.
        ends-Keep _ (rows_receipt root 1)
          (Keeps-with P p f k "cmd_a_effect_ack" "occ_a_effect_ack" _ (a1_steps-Keeps budget)),
    (
      λ root budget. ends-Keep _ (rows_receipt root 2) (a2_steps-Keeps budget),
      (
        λ root budget.
            ends-Keep _ (rows_receipt root 1)
              (Keeps-with P p f k "cmd_b_idempotent_retry" "occ_b_retry" _ (b1_steps-Keeps budget)),
        (
          λ root budget.
              ends-Keep _ (rows_receipt root 1)
                (Keeps-with P p f k "cmd_b_same_occurrence" "occ_b_same" _ (b2_steps-Keeps budget)),
          (
            λ root budget. ends-Keep _ (keys_receipt root) (
                Keeps-with P p f k "cmd_a_logical_multi" "occ_a_logical_multi" _
                  (a3_steps-Keeps budget)),
            (
              λ root budget. ends-Keep _ (restart_receipt root) (
                  Keeps-with P p f k "cmd_a_restart_retry" "occ_a_restart_retry" _
                    (a4_steps-Keeps budget)),
              (
                λ root budget. ends-Keep _ (conflict_receipt root) b3_steps-Keeps,
                (
                  λ root budget.
                      ends-Keep _ (λ found. repeat_receipt root found.0 found.1)
                        (b4_steps-Keeps budget),
                  (
                    λ root budget.
                        ends-Keep _ (λ _. validated_receipt root 2 recovery_pairs)
                          (s1_steps-Keeps budget),
                    (
                      λ root budget.
                          ends-Keep _ (λ _. validated_receipt root 1 compat_pairs)
                            (Keeps-with P p f k "cmd_s_compat" "occ_s_compat" _
                              (s2_compat_steps-Keeps budget)),
                      (
                        λ root budget.
                            ends-Keep _ (λ _. validated_receipt root 1 transient_pairs)
                              (Keeps-with P p f k "cmd_s_transient" "occ_s_transient" _
                                (accept_and_deliver_one-Keeps P p f k budget true)),
                        (
                          λ root budget. ends-Keep _ (rows_receipt root 1) (
                              Keeps-with P p f k "cmd_s_interleaved" "occ_s_interleaved" _
                                (s3_steps-Keeps budget)),
                          tt,
                        ),
                      ),
                    ),
                  ),
                ),
              ),
            ),
          ),
        ),
      ),
    ),
  )

  run_branch-Keeps :
      (bs : List (Branch p f)) (root : String) (budget : ℕ)
      → All BranchKeeps bs
      → Keeps P (run_branch p f bs root budget)
  unfolding run_branch
  run_branch-Keeps [] root budget all = record { at = λ r h. h }
  run_branch-Keeps ((name, workload) ∷ bs) root budget all = record {
    at = λ r h.
        if_holds P (r.workload_id == name) _ _ ((all.0 root budget).at r h)
          ((run_branch-Keeps bs root budget all.1).at r h);
  }

  pub run_hidden_workload-Keeps :
      (root : String) (budget : ℕ) → Keeps P (run_hidden_workload p f root budget)
  unfolding run_hidden_workload
  run_hidden_workload-Keeps root budget = run_branch-Keeps (branches p f) root budget branches-Keep
