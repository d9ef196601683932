-- ===== src/Agent/Probes/Kept.antt =====
-- The public workloads and the diagnostics of `RuntimeEngine` (src/agent_surface/runtime.py) keep what
-- the stages of the flow keep.
use frontier_long_horizon_en.Prelude.{
  ℕ, ◌+◌, String, true, false, List, [], ◌∷◌, Option-cases, inl, inr, ◌==◌, Bool,
}
use frontier_long_horizon_en.Prelude.Exec.{pure, gets}
use frontier_long_horizon_en.Substrate.Tables.{JournalRow}
use frontier_long_horizon_en.Substrate.Store.{max_seq}
use frontier_long_horizon_en.Substrate.Canonical.{Primitives}
use frontier_long_horizon_en.Agent.Runtime.{Command, Run, M, ◌>>=◌, find_event}
use frontier_long_horizon_en.Agent.Methods.{log_line}
use frontier_long_horizon_en.Agent.Flow.{Flow}
use frontier_long_horizon_en.Agent.Engine.Kept.{
  After-bind, Keeps, KeptBy, if_holds, accept_command-Kept, deliver_event-Kept,
}
use frontier_long_horizon_en.Agent.Workloads.{
  Scope, sequence_of, accept_all, deliver_all, log_canary, public_commands, run_commands,
  run_public_workload, public_receipt,
}
use frontier_long_horizon_en.Agent.Workloads.{log_accepted, log_window}
use frontier_long_horizon_en.Agent.Probes.{
  with_command, accept_each, rows_for, deliver_rows, deliver_accepted, deliver_each,
  accept_and_deliver, accept_and_deliver_one,
}
use frontier_long_horizon_en.Agent.Probes.Diagnostics.{
  rows_from, s5_receipt, s2_receipt, s5_steps, deliver_logged, s2_steps, run_s5_diagnostic,
  run_s2_diagnostic, run_cutpoint_diagnostic,
}

module _ (P : Run → Type 0) where
  pub Keeps-bind :
      {A B : Type 0} (m : M A) (k : A → M B)
      → Keeps P m
      → ((x : A) → Keeps P (k x))
      → Keeps P (m >>= k)
  Keeps-bind m k km kk = After-bind P P P m k km (λ r h. h) kk

  pub Keeps-pure : {A : Type 0} (x : A) → Keeps P (pure x)
  Keeps-pure x = record { at = λ r h. h }

  pub Keeps-gets : {A : Type 0} (h : Run → A) → Keeps P (gets h)
  Keeps-gets h = record { at = λ r once. once }

module _ (P : Run → Type 0) (p : Primitives) (f : Flow) (k : KeptBy P p f) where
  Keeps-log : (line : Run → String) → Keeps P (λ r. log_line (line r) r)
  Keeps-log line = record { at = λ r h. (k.log _).at r h }

  pub Keeps-with :
      {A : Type 0} (key occurrence : String) (steps : Command → M A)
      → ((c : Command) → Keeps P (steps c))
      → Keeps P (with_command p f key occurrence steps)
  Keeps-with key occurrence steps ks = record { at = λ r h. (ks _).at r h }

  pub accept_each-Keeps : (cs : List Command) → Keeps P (accept_each p f cs)
  unfolding accept_each
  accept_each-Keeps [] = Keeps-pure P []
  accept_each-Keeps (c ∷ cs) =
      Keeps-bind P _ _ (accept_command-Kept P p f k c)
        (λ i. Keeps-bind P _ _ (accept_each-Keeps cs) (λ is. Keeps-pure P (i ∷ is)))

  pub deliver_rows-Keeps :
      (budget : ℕ) (rows : List JournalRow) → Keeps P (deliver_rows p f budget rows)
  unfolding deliver_rows
  deliver_rows-Keeps budget [] = Keeps-pure P tt
  deliver_rows-Keeps budget (row ∷ rows) =
      Keeps-bind P _ _ (deliver_event-Kept P p f k row.event_id row.seq budget false)
        (λ _. deliver_rows-Keeps budget rows)

  sequence_of-Keeps : (i : String) → Keeps P (sequence_of p f i)
  unfolding sequence_of
  sequence_of-Keeps i = record {
    at = λ r h. elim (Option-cases (find_event i r.store.service.journal)) [
      | inl e ↦ rw (e, sequence_of) h
      | inr (row, e) ↦ rw (e, sequence_of) h
    ];
  }

  pub deliver_accepted-Keeps :
      (budget : ℕ) (retry : Bool) (i : String) → Keeps P (deliver_accepted p f budget retry i)
  unfolding deliver_accepted
  deliver_accepted-Keeps budget retry i =
      Keeps-bind P _ _ (sequence_of-Keeps i) (λ n. deliver_event-Kept P p f k i n budget retry)

  pub deliver_each-Keeps : (budget : ℕ) (is : List String) → Keeps P (deliver_each p f budget is)
  unfolding deliver_each
  deliver_each-Keeps budget [] = Keeps-pure P tt
  deliver_each-Keeps budget (i ∷ is) =
      Keeps-bind P _ _ (deliver_accepted-Keeps budget false i) (λ _. deliver_each-Keeps budget is)

  pub rows_for-Keeps : (scope : Scope) → Keeps P (rows_for p f scope)
  rows_for-Keeps scope = Keeps-gets P _

  pub accept_and_deliver-Keeps :
      (budget : ℕ) (cs : List Command) (scope : Scope)
      → Keeps P (accept_and_deliver p f budget cs scope)
  unfolding accept_and_deliver
  accept_and_deliver-Keeps budget cs scope = Keeps-bind P _ _ (accept_each-Keeps cs) (λ _.
      Keeps-bind P _ _ (rows_for-Keeps scope)
        (λ rows. Keeps-bind P _ _ (deliver_rows-Keeps budget rows) (λ _. Keeps-pure P rows)))

  pub accept_and_deliver_one-Keeps :
      (budget : ℕ) (retry : Bool) (c : Command)
      → Keeps P (accept_and_deliver_one p f budget retry c)
  unfolding accept_and_deliver_one
  accept_and_deliver_one-Keeps budget retry c =
      Keeps-bind P _ _ (accept_command-Kept P p f k c)
        (λ i. Keeps-bind P _ _ (deliver_accepted-Keeps budget retry i) (λ _. Keeps-pure P i))

  -- The public workloads.
  log_accepted-Keeps : Keeps P (log_accepted p f)
  unfolding log_accepted
  log_accepted-Keeps = Keeps-log _

  log_window-Keeps : Keeps P (log_window p f)
  unfolding log_window
  log_window-Keeps = Keeps-log _

  accept_all-Keeps : (cs : List Command) → Keeps P (accept_all p f cs)
  unfolding accept_all
  accept_all-Keeps [] = Keeps-pure P []
  accept_all-Keeps (c ∷ cs) = Keeps-bind P _ _ (accept_command-Kept P p f k c) (λ i.
      Keeps-bind P _ _ log_accepted-Keeps
        (λ _. Keeps-bind P _ _ (accept_all-Keeps cs) (λ is. Keeps-pure P (i ∷ is))))

  log_canary-Keeps : (i : String) → Keeps P (log_canary p f i)
  unfolding log_canary
  log_canary-Keeps i = Keeps-log _

  deliver_all-Keeps : (budget : ℕ) (is : List String) → Keeps P (deliver_all p f budget is)
  unfolding deliver_all
  deliver_all-Keeps budget [] = Keeps-pure P tt
  deliver_all-Keeps budget (i ∷ is) = Keeps-bind P _ _ (sequence_of-Keeps i) (λ n.
      Keeps-bind P _ _ log_window-Keeps (λ _.
        Keeps-bind P _ _ (deliver_event-Kept P p f k i n budget true)
          (λ _. Keeps-bind P _ _ (log_canary-Keeps i) (λ _. deliver_all-Keeps budget is))))

  run_commands-Keeps :
      (root : String) (budget : ℕ) (cs : List Command) → Keeps P (run_commands p f root budget cs)
  unfolding run_commands
  run_commands-Keeps root budget cs = Keeps-bind P _ _ (accept_all-Keeps cs) (λ ids.
      Keeps-bind P _ _ (deliver_all-Keeps budget ids)
        (λ _. Keeps-gets P (public_receipt p f root cs)))

  pub run_public_workload-Keeps :
      (root : String) (budget : ℕ) → Keeps P (run_public_workload p f root budget)
  unfolding run_public_workload
  run_public_workload-Keeps root budget = record {
    at = λ r h. elim (Option-cases (public_commands p f r.workload_id r.alias)) [
      | inl e ↦ rw (e, run_public_workload) h
      | inr (cs, e) ↦ rw (e, run_public_workload) ((run_commands-Keeps root budget cs).at r h)
    ];
  }

  -- The diagnostics.
  s5_steps-Keeps : (budget : ℕ) (c : Command) → Keeps P (s5_steps p f budget c)
  unfolding s5_steps
  s5_steps-Keeps budget c = Keeps-bind P _ _ (accept_command-Kept P p f k c) (λ i.
      Keeps-bind P _ _ (sequence_of-Keeps i) (λ n. Keeps-bind P _ _ log_window-Keeps (λ _.
        Keeps-bind P _ _ (deliver_event-Kept P p f k i n budget false) (λ _. Keeps-pure P i))))

  deliver_logged-Keeps :
      (budget : ℕ) (rows : List JournalRow) → Keeps P (deliver_logged p f budget rows)
  unfolding deliver_logged
  deliver_logged-Keeps budget [] = Keeps-pure P tt
  deliver_logged-Keeps budget (row ∷ rows) = Keeps-bind P _ _ log_window-Keeps (λ _.
      Keeps-bind P _ _ (deliver_event-Kept P p f k row.event_id row.seq budget false)
        (λ _. deliver_logged-Keeps budget rows))

  s2_steps-Keeps : (budget : ℕ) (c : Command) → Keeps P (s2_steps p f budget c)
  unfolding s2_steps
  s2_steps-Keeps budget c =
      Keeps-bind P (gets (λ r. max_seq (λ (q : JournalRow). q.seq) r.store.service.journal + 1)) _
        (Keeps-gets P _)
        (λ start. Keeps-bind P _ _ (accept_command-Kept P p f k c) (λ i.
          Keeps-bind P _ _ log_accepted-Keeps (λ _.
            Keeps-bind P (gets (λ r. rows_from start r.store.service.journal)) _ (Keeps-gets P _)
              (λ rows.
                Keeps-bind P _ _ (deliver_logged-Keeps budget rows) (λ _. Keeps-pure P rows)))))

  run_s5_diagnostic-Keeps :
      (root : String) (budget : ℕ) → Keeps P (run_s5_diagnostic p f root budget)
  unfolding run_s5_diagnostic
  run_s5_diagnostic-Keeps root budget =
      Keeps-bind P _ _
        (Keeps-with "cmd_diagnostic_s5" "occ_diagnostic_s5" _ (s5_steps-Keeps budget))
        (λ i. Keeps-gets P (s5_receipt root i))

  run_s2_diagnostic-Keeps :
      (root : String) (budget : ℕ) → Keeps P (run_s2_diagnostic p f root budget)
  unfolding run_s2_diagnostic
  run_s2_diagnostic-Keeps root budget =
      Keeps-bind P _ _ (Keeps-with "cmd_diagnostic" "occ_diagnostic" _ (s2_steps-Keeps budget))
        (λ rows. Keeps-gets P (s2_receipt root rows))

  pub run_cutpoint_diagnostic-Keeps :
      (root : String) (budget : ℕ) → Keeps P (run_cutpoint_diagnostic p f root budget)
  unfolding run_cutpoint_diagnostic
  run_cutpoint_diagnostic-Keeps root budget = record {
    at = λ r h. elim (Option-cases r.cutpoint) [
      | inl e ↦ rw (e, run_cutpoint_diagnostic) h
      | inr (c, e) ↦
          rw (e, run_cutpoint_diagnostic)
            (if_holds P (c == "s5.exit") _ _ ((run_s5_diagnostic-Keeps root budget).at r h)
              (if_holds P (c == "s2.exit") _ _ ((run_s2_diagnostic-Keeps root budget).at r h) h))
    ];
  }
