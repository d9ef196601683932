-- ===== src/Agent/Tools/Passes.antt =====
-- The set of passed public workloads in src/agent_surface/session.py: each member has a receipt.
use frontier_long_horizon_en.Prelude.{
  ◌+◌, ℕ, String, ◌≡◌, refl, Bool, true, false, ◌&&◌, ◌||◌, Option, none, some, List, [], ◌∷◌, ◌++◌,
  ◌==◌, if◌then◌else◌, Dict, lookup, insert, lookup-insert, contains, Result, ok, err, arith,
  eq_iff, Bool-cases, inl, inr,
}
use frontier_long_horizon_en.Substrate.Canonical.{Primitives}
use frontier_long_horizon_en.Substrate.Authority.{RecoveryAuthority}
use frontier_long_horizon_en.Substrate.Store.{Store}
use frontier_long_horizon_en.Substrate.Recovery.{restore_snapshot}
use frontier_long_horizon_en.Substrate.Errors.{Error}
use frontier_long_horizon_en.Substrate.Tables.{DeploymentRow}
use frontier_long_horizon_en.Agent.Session.{
  Session, Receipt, EngineRun, ToolError, message_of, public_workloads, passes_at, remove,
  active_revision_label, find_revisions,
}
use frontier_long_horizon_en.Agent.Tools.{
  Action, edit, run_workload, pause, restore, rollback, deploy, resume, workspace_edit, runtime_run,
  recovery_pause, recovery_restore, release_rollback, release_deploy, recovery_resume, perform,
  perform_all, when_paused, record_receipt, keep_run, run_with, run_checked, call_of, restore_with,
  rollback_to, rollback_one, rollback_checked, deploy_candidate, resume_labelled, resume_checked,
  config_root, starts_hidden,
}

-- A receipt of a workload with the outcome `pass`.
unfoldable pub passed_in : String → List Receipt → Bool
passed_in w [] = false
passed_in w (r ∷ rs) = ((r.workload_id == w) && (r.outcome == "pass")) || passed_in w rs

passed_in-append :
    (w : String) (rs : List Receipt) (r : Receipt)
    → passed_in w (rs ++ r ∷ [])
      ≡ (passed_in w rs || ((r.workload_id == w) && (r.outcome == "pass")))
unfolding passed_in
passed_in-append w [] r = ground arith
passed_in-append w (x ∷ rs) r = ground (arith, passed_in-append w rs r)

pub lookup-remove :
    (k j : String) (d : Dict (List String))
    → lookup j (remove k d) ≡ (if k == j then none else lookup j d)
unfolding remove
lookup-remove k j [] = ground arith
lookup-remove k j ((i, v) ∷ d) =
    ground (arith, eq_iff k j, eq_iff i k, eq_iff i j, lookup-remove k j d)

abbrev IsBacked : Dict (List String) → List Receipt → Type 0
IsBacked d rs = (root w : String) → contains w (passes_at root d) ≡ true → passed_in w rs ≡ true

remove-IsBacked :
    (k : String) (d : Dict (List String)) (rs : List Receipt)
    → IsBacked d rs
    → IsBacked (remove k d) rs
remove-IsBacked k d rs h root w c = ground (arith, lookup-remove k root d, h root w)

abbrev with_pass : String → List String → List String
with_pass w l = if contains w l then l else w ∷ l

insert-IsBacked :
    (k : String) (d : Dict (List String)) (rs : List Receipt) (r : Receipt)
    → (r.outcome == "pass") ≡ true
    → IsBacked d rs
    → IsBacked (insert k (with_pass r.workload_id (passes_at k d)) d) (rs ++ r ∷ [])
insert-IsBacked k d rs r passed h root w c = ground (
  arith,
  passed_in-append w rs r,
  lookup-insert k root (with_pass r.workload_id (passes_at k d)) d,
  eq_iff k root,
  eq_iff w r.workload_id,
  eq_iff r.workload_id w,
  h root w,
)

append-IsBacked :
    (d : Dict (List String)) (rs : List Receipt) (r : Receipt)
    → IsBacked d rs
    → IsBacked d (rs ++ r ∷ [])
append-IsBacked d rs r h root w c = ground (arith, passed_in-append w rs r, h root w)

record IsBackedIn (s : Session) : Type 0 where
  backed : IsBacked s.public_workload_pass s.workload_history

same-IsBackedIn :
    (s t : Session)
    → t.public_workload_pass ≡ s.public_workload_pass
    → t.workload_history ≡ s.workload_history
    → IsBackedIn s
    → IsBackedIn t
same-IsBackedIn s t p h sound = record { backed = λ root w. rw (p, h) (sound.backed root w) }

guarded :
    {A : Type 0} (tool : Session → Result ToolError A × Session) (s : Session)
    → IsBackedIn (tool s).1
    → IsBackedIn s
    → IsBackedIn (when_paused tool s).1
guarded tool s h sound = elim (Bool-cases (s.store.intake_state == "paused")) [
  | inl e ↦ rw e h
  | inr e ↦ rw e sound
]

-- What a tool that neither runs a workload nor restores leaves.
abbrev IsLeft : Session → Session → Type 0
IsLeft s t =
    (t.public_workload_pass ≡ s.public_workload_pass) × (t.workload_history ≡ s.workload_history)

module _ (p : Primitives) where
  edit_leaves :
      (path : Option String) (bytes : List ℕ) (s : Session)
      → IsLeft s (workspace_edit p path bytes s).1
  unfolding workspace_edit
  edit_leaves none bytes s = (refl, refl)
  edit_leaves (some path) bytes s = (refl, refl)

  rolled_back : (rows : List DeploymentRow) (s : Session) → IsLeft s (rollback_one p rows s).1
  unfolding rollback_one rollback_to
  rolled_back [] s = (refl, refl)
  rolled_back (row ∷ []) s = (ground arith, ground arith)
  rolled_back (row ∷ q ∷ rest) s = (refl, refl)

  rollback_leaves : (revision : String) (s : Session) → IsLeft s (rollback_checked p revision s).1
  unfolding rollback_checked
  rollback_leaves revision s =
      let left = rolled_back (find_revisions revision s.store.deployments) s in
      (ground (arith, left.0), ground (arith, left.1))

  deploy_leaves : (s : Session) → IsLeft s (deploy_candidate p s).1
  unfolding deploy_candidate
  deploy_leaves s = (ground arith, ground arith)

  kept-IsBackedIn :
      (s : Session) (o : Result ToolError Receipt × Store)
      → IsBackedIn s
      → IsBackedIn (keep_run p s o).1
  unfolding keep_run record_receipt
  kept-IsBackedIn s (err e, t) sound = record { backed = sound.backed }
  kept-IsBackedIn s (ok r, t) sound = elim (Bool-cases (contains r.workload_id public_workloads)) [
    | inl c ↦ elim (Bool-cases (r.outcome == "pass")) [
      | inl e ↦ record {
        backed =
            rw (c, e)
              (insert-IsBacked (config_root p s.active) s.public_workload_pass s.workload_history r
                e sound.backed);
      }
      | inr e ↦ record {
        backed =
            rw (c, e) (append-IsBacked s.public_workload_pass s.workload_history r sound.backed);
      }
    ]
    | inr c ↦ record {
      backed = rw c (append-IsBacked s.public_workload_pass s.workload_history r sound.backed);
    }
  ]

  module _ (run : EngineRun) where
    checked-IsBackedIn :
        (w : String) (c : Option String) (s : Session)
        → IsBackedIn s
        → IsBackedIn (run_checked p run w c s).1
    unfolding run_checked run_with
    checked-IsBackedIn w c s sound = elim (Bool-cases (starts_hidden p w)) [
      | inl e ↦ rw e sound
      | inr e ↦ rw e (kept-IsBackedIn s (run (call_of p run w c s) s.store) sound)
    ]

  module _ (a : RecoveryAuthority) where
    pause_leaves : (s : Session) → IsLeft s (recovery_pause p a s).1
    unfolding recovery_pause
    pause_leaves s = (ground arith, ground arith)

    restored-IsBackedIn :
        (i : String) (s : Session) → IsBackedIn s → IsBackedIn (restore_with p a i s).1
    unfolding restore_with
    restored-IsBackedIn i s sound = after (restore_snapshot p a i s.store)
      where
        after :
            (o : Result Error String × Store)
            → IsBackedIn
                (elim o.0 as (λ _. Result ToolError String × Session) [
                  | err e ↦ (err (message_of e), record s { store = o.1 })
                  | ok root ↦ (
                    ok root,
                    record s {
                      store = o.1;
                      public_workload_pass = remove (config_root p s.active) s.public_workload_pass;
                      trace_epoch = s.trace_epoch + 1;
                    },
                  )
                ]).1
        after (ok root, t) = record {
          backed =
              remove-IsBacked (config_root p s.active) s.public_workload_pass s.workload_history
                sound.backed;
        }
        after (err e, t) = record { backed = sound.backed }

    resume_leaves :
        (l : Result ToolError String) (s : Session) → IsLeft s (resume_labelled p a l s).1
    unfolding resume_labelled
    resume_leaves (err e) s = (refl, refl)
    resume_leaves (ok l) s = (ground arith, ground arith)

    module _ (run : EngineRun) where
      perform-IsBackedIn :
          (x : Action) (s : Session) → IsBackedIn s → IsBackedIn (perform p a run x s)
      unfolding perform runtime_run recovery_restore release_rollback release_deploy recovery_resume
          resume_checked
      perform-IsBackedIn (edit path bytes) s h =
          let left = edit_leaves path bytes s in
          same-IsBackedIn s (workspace_edit p path bytes s).1 left.0 left.1 h
      perform-IsBackedIn (run_workload w c) s h =
          guarded (run_checked p run w c) s (checked-IsBackedIn run w c s h) h
      perform-IsBackedIn pause s h =
          let left = pause_leaves s in same-IsBackedIn s (recovery_pause p a s).1 left.0 left.1 h
      perform-IsBackedIn (restore i) s h =
          guarded (restore_with p a i) s (restored-IsBackedIn i s h) h
      perform-IsBackedIn (rollback revision) s h =
          let left = rollback_leaves revision s in
          guarded (rollback_checked p revision) s
            (same-IsBackedIn s (rollback_checked p revision s).1 left.0 left.1 h) h
      perform-IsBackedIn deploy s h =
          let left = deploy_leaves s in
          guarded (deploy_candidate p) s
            (same-IsBackedIn s (deploy_candidate p s).1 left.0 left.1 h) h
      perform-IsBackedIn resume s h =
          let left = resume_leaves (active_revision_label s.store) s in
          guarded (resume_checked p a) s
            (same-IsBackedIn s (resume_checked p a s).1 left.0 left.1 h) h

      all-IsBackedIn :
          (xs : List Action) (s : Session) → IsBackedIn s → IsBackedIn (perform_all p a run xs s)
      unfolding perform_all
      all-IsBackedIn [] s h = h
      all-IsBackedIn (x ∷ xs) s h =
          all-IsBackedIn xs (perform p a run x s) (perform-IsBackedIn x s h)

      -- From a session that has no passes yet, whatever calls are made, every workload that counts
      -- as passed under some configuration has a receipt of that workload with the outcome `pass`.
      pub passes_are_backed :
          (xs : List Action) (s : Session) (root w : String)
          → s.public_workload_pass ≡ []
          → contains w (passes_at root (perform_all p a run xs s).public_workload_pass) ≡ true
          → passed_in w (perform_all p a run xs s).workload_history ≡ true
      passes_are_backed xs s root w none_yet c =
          (all-IsBackedIn xs s (record { backed = λ k v h. absurd (nothing_passed k v h) })).backed
            root w c
        where
          nothing_passed :
              (k v : String) → contains v (passes_at k s.public_workload_pass) ≡ true → ⊥
          nothing_passed k v h = ground (arith, none_yet)
