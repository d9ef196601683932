-- ===== src/Agent/Tools/Guards.antt =====
-- What the guards of the tools in src/agent_surface/session.py achieve: the intake is opened again
-- only after an authenticated recovery, with the candidate deployed and the public workloads passed.
use mathlib.Core.Path.{ap, sym, ◌∙◌}
use frontier_long_horizon_en.Prelude.{
  ℕ, ◌+◌, String, ◌≡◌, refl, true, false, Option, none, some, List, [], ◌∷◌, ◌==◌, Result, ok, err,
  arith, eq_iff, Bool-cases, inl, inr,
}
use frontier_long_horizon_en.Substrate.Canonical.{Primitives}
use frontier_long_horizon_en.Substrate.Authority.{RecoveryAuthority}
use frontier_long_horizon_en.Substrate.Tables.{DeploymentRow}
use frontier_long_horizon_en.Substrate.Store.{
  Store, pause_intake, append_audit, append_telemetry, set_intake_state, advance, state_root,
  audit_chain_valid, snapshot_is_valid, audit_root_before,
}
use frontier_long_horizon_en.Substrate.Recovery.{
  restore_snapshot, restore_payload, restored, recovery_provenance_exists, proof_is_consistent,
}
use frontier_long_horizon_en.Substrate.Recovery.Provenance.{provenance_survives}
use frontier_long_horizon_en.Agent.Session.{
  Session, Receipt, EngineRun, EngineCall, ToolError, find_revisions, active_revision_label,
}
use frontier_long_horizon_en.Agent.Tools.{
  Action, edit, run_workload, pause, restore, rollback, deploy, resume, workspace_edit, runtime_run,
  recovery_pause, recovery_restore, release_rollback, release_deploy, recovery_resume, resumed,
  all_public_pass, perform, perform_all, when_paused, record_receipt, restore_with, rollback_to,
  rollback_one, rollback_checked, deploy_candidate, resume_labelled, resume_checked, run_checked,
  run_with, keep_run, call_of,
}

-- What is asked of the engine: it leaves the state of the intake alone, as none of the store methods
-- of src/agent_surface/runtime.py writes it.
pub record KeepsIntake (run : EngineRun) : Type 0 where
  pub kept : (c : EngineCall) (s : Store) → (run c s).1.intake_state ≡ s.intake_state

module _ (p : Primitives) (a : RecoveryAuthority) where
  -- An open intake has behind it a recovery, a deployed candidate and the public workloads.
  pub record IsEarnedOpen (s : Session) : Type 0 where
    pub recovered : s.store.intake_state ≡ "open" → recovery_provenance_exists p a s.store ≡ true
    pub deployed : s.store.intake_state ≡ "open" → active_revision_label s.store ≡ ok "candidate"
    pub passed : s.store.intake_state ≡ "open" → all_public_pass p s ≡ true

  -- A paused intake asks for nothing.
  paused-IsEarnedOpen : (s : Session) → s.store.intake_state ≡ "paused" → IsEarnedOpen s
  paused-IsEarnedOpen s h = record {
    recovered = λ o. absurd (not_open o);
    deployed = λ o. absurd (not_open o);
    passed = λ o. absurd (not_open o);
  }
    where
      not_open : s.store.intake_state ≡ "open" → ⊥
      not_open o = ground (arith, ap (λ z. z == "open") h, ap (λ z. z == "open") o)

  -- A tool that asks for a paused intake and leaves it paused.
  guarded :
      {A : Type 0} (tool : Session → Result ToolError A × Session) (s : Session)
      → (s.store.intake_state ≡ "paused" → IsEarnedOpen (tool s).1)
      → IsEarnedOpen s
      → IsEarnedOpen (when_paused tool s).1
  guarded tool s h sound = elim (Bool-cases (s.store.intake_state == "paused")) [
    | inl e ↦ rw e (h ((eq_iff s.store.intake_state "paused").0 e))
    | inr e ↦ rw e sound
  ]

  paused_store :
      (s : Store)
      → (s.intake_state == "open") ≡ true
      → (pause_intake p a s).1.intake_state ≡ "paused"
  unfolding pause_intake append_audit append_telemetry set_intake_state
  paused_store s h = ground arith

  refused_store : (s : Store) → (s.intake_state == "open") ≡ false → (pause_intake p a s).1 ≡ s
  unfolding pause_intake
  refused_store s h = ground arith

  pause_store :
      (s : Session) → (recovery_pause p a s).1 ≡ record s { store = (pause_intake p a s.store).1 }
  unfolding recovery_pause
  pause_store s = ground arith

  pause-IsEarnedOpen : (s : Session) → IsEarnedOpen s → IsEarnedOpen (recovery_pause p a s).1
  pause-IsEarnedOpen s sound = elim (Bool-cases (s.store.intake_state == "open")) [
    | inl e ↦
        paused-IsEarnedOpen (recovery_pause p a s).1
          (ap (λ t. t.store.intake_state) (pause_store s) ∙ paused_store s.store e)
    | inr e ↦ rw (pause_store s ∙ ap (λ t. record s { store = t }) (refused_store s.store e)) sound
  ]

  edit-IsEarnedOpen :
      (path : Option String) (bytes : List ℕ) (s : Session)
      → IsEarnedOpen s
      → IsEarnedOpen (workspace_edit p path bytes s).1
  unfolding workspace_edit all_public_pass
  edit-IsEarnedOpen none bytes s sound = sound
  edit-IsEarnedOpen (some path) bytes s sound = record {
    recovered = sound.recovered;
    deployed = sound.deployed;
    passed = sound.passed;
  }

  -- A restoration and a change of release leave the intake as it was.
  restored_intake :
      (i : String) (s : Store) → (restore_snapshot p a i s).1.intake_state ≡ s.intake_state
  unfolding restore_snapshot restore_payload restored append_audit append_telemetry
  restored_intake i s = ground arith

  restored_session :
      (i : String) (s : Session)
      → (restore_with p a i s).1.store.intake_state ≡ s.store.intake_state
  unfolding restore_with
  restored_session i s = ground (arith, restored_intake i s.store)

  restore-IsEarnedOpen :
      (i : String) (s : Session) → IsEarnedOpen s → IsEarnedOpen (recovery_restore p a i s).1
  unfolding recovery_restore
  restore-IsEarnedOpen i s sound =
      guarded (restore_with p a i) s
        (λ h. paused-IsEarnedOpen (restore_with p a i s).1 (restored_session i s ∙ h)) sound

  rolled_back :
      (rows : List DeploymentRow) (s : Session)
      → (rollback_one p rows s).1.store.intake_state ≡ s.store.intake_state
  unfolding rollback_one rollback_to append_audit advance
  rolled_back [] s = refl
  rolled_back (row ∷ []) s = ground arith
  rolled_back (row ∷ q ∷ rest) s = refl

  rollback_known :
      (revision : String) (s : Session)
      → (rollback_checked p revision s).1.store.intake_state ≡ s.store.intake_state
  unfolding rollback_checked
  rollback_known revision s =
      ground (arith, rolled_back (find_revisions revision s.store.deployments) s)

  rollback-IsEarnedOpen :
      (revision : String) (s : Session)
      → IsEarnedOpen s
      → IsEarnedOpen (release_rollback p revision s).1
  unfolding release_rollback
  rollback-IsEarnedOpen revision s sound =
      guarded (rollback_checked p revision) s
        (λ h. paused-IsEarnedOpen (rollback_checked p revision s).1 (rollback_known revision s ∙ h))
        sound

  deployed_intake :
      (s : Session) → (deploy_candidate p s).1.store.intake_state ≡ s.store.intake_state
  unfolding deploy_candidate append_audit advance
  deployed_intake s = ground arith

  deploy-IsEarnedOpen : (s : Session) → IsEarnedOpen s → IsEarnedOpen (release_deploy p s).1
  unfolding release_deploy
  deploy-IsEarnedOpen s sound =
      guarded (deploy_candidate p) s
        (λ h. paused-IsEarnedOpen (deploy_candidate p s).1 (deployed_intake s ∙ h)) sound

  provenance_resumed :
      (s : Store)
      → recovery_provenance_exists p a s ≡ true
      → recovery_provenance_exists p a (resumed p s) ≡ true
  unfolding resumed recovery_provenance_exists proof_is_consistent audit_chain_valid
      snapshot_is_valid audit_root_before append_audit append_telemetry set_intake_state advance
  provenance_resumed s h =
      provenance_survives p a s s.service s.deployments (s.fake_tick + 1) "open" s.telemetry
        s.trace_spans "intake_resume"
        (state_root p (record s { fake_tick = s.fake_tick + 1; intake_state = "open" })) "operator"
        (s.fake_tick + 1) h

  resumed_label : (s : Store) → active_revision_label (resumed p s) ≡ active_revision_label s
  unfolding active_revision_label resumed append_audit append_telemetry
  resumed_label s = refl

  resumed_passes :
      (t : Store) (n : ℕ) (s : Session)
      → all_public_pass p (record s { store = t; trace_epoch = n }) ≡ all_public_pass p s
  unfolding all_public_pass
  resumed_passes t n s = refl

  resumed-IsEarnedOpen :
      (s : Session) (n : ℕ)
      → active_revision_label s.store ≡ ok "candidate"
      → recovery_provenance_exists p a s.store ≡ true
      → all_public_pass p s ≡ true
      → IsEarnedOpen (record s { store = resumed p s.store; trace_epoch = n })
  resumed-IsEarnedOpen s n label provenance passes = record {
    recovered = λ _. provenance_resumed s.store provenance;
    deployed = λ _. resumed_label s.store ∙ label;
    passed = λ _. resumed_passes (resumed p s.store) n s ∙ passes;
  }

  labelled-IsEarnedOpen :
      (l : Result ToolError String) (s : Session)
      → l ≡ active_revision_label s.store
      → IsEarnedOpen s
      → IsEarnedOpen (resume_labelled p a l s).1
  unfolding resume_labelled
  labelled-IsEarnedOpen (err e) s h sound = sound
  labelled-IsEarnedOpen (ok label) s h sound = elim (Bool-cases (label == "candidate")) [
    | inr e ↦ rw e sound
    | inl e ↦ elim (Bool-cases (recovery_provenance_exists p a s.store)) [
      | inr f ↦ rw (e, f) sound
      | inl f ↦ elim (Bool-cases (all_public_pass p s)) [
        | inr g ↦ rw (e, f, g) sound
        | inl g ↦
            let named : active_revision_label s.store ≡ ok "candidate" =
              sym h ∙ ap ok ((eq_iff label "candidate").0 e) in
            rw (e, f, g, resumed_label s.store ∙ named)
              (resumed-IsEarnedOpen s (s.trace_epoch + 1) named f g)
      ]
    ]
  ]

  resume-IsEarnedOpen : (s : Session) → IsEarnedOpen s → IsEarnedOpen (recovery_resume p a s).1
  unfolding recovery_resume resume_checked
  resume-IsEarnedOpen s sound =
      guarded (resume_checked p a) s
        (λ h. labelled-IsEarnedOpen (active_revision_label s.store) s refl sound) sound

  kept_intake :
      (s : Session) (o : Result ToolError Receipt × Store)
      → (keep_run p s o).1.store.intake_state ≡ o.1.intake_state
  unfolding keep_run record_receipt
  kept_intake s (ok r, t) = refl
  kept_intake s (err e, t) = refl

  module _ (run : EngineRun) (keeps : KeepsIntake run) where
    ran_intake :
        (w : String) (c : Option String) (s : Session)
        → (run_checked p run w c s).1.store.intake_state ≡ s.store.intake_state
    unfolding run_checked run_with
    ran_intake w c s = ground (
      arith,
      kept_intake s (run (call_of p run w c s) s.store),
      keeps.kept (call_of p run w c s) s.store,
    )

    run-IsEarnedOpen :
        (w : String) (c : Option String) (s : Session)
        → IsEarnedOpen s
        → IsEarnedOpen (runtime_run p run w c s).1
    unfolding runtime_run
    run-IsEarnedOpen w c s sound =
        guarded (run_checked p run w c) s
          (λ h. paused-IsEarnedOpen (run_checked p run w c s).1 (ran_intake w c s ∙ h)) sound

    pub perform-IsEarnedOpen :
        (x : Action) (s : Session) → IsEarnedOpen s → IsEarnedOpen (perform p a run x s)
    unfolding perform
    perform-IsEarnedOpen (edit path bytes) s h = edit-IsEarnedOpen path bytes s h
    perform-IsEarnedOpen (run_workload w c) s h = run-IsEarnedOpen w c s h
    perform-IsEarnedOpen pause s h = pause-IsEarnedOpen s h
    perform-IsEarnedOpen (restore i) s h = restore-IsEarnedOpen i s h
    perform-IsEarnedOpen (rollback revision) s h = rollback-IsEarnedOpen revision s h
    perform-IsEarnedOpen deploy s h = deploy-IsEarnedOpen s h
    perform-IsEarnedOpen resume s h = resume-IsEarnedOpen s h

    all-IsEarnedOpen :
        (xs : List Action) (s : Session) → IsEarnedOpen s → IsEarnedOpen (perform_all p a run xs s)
    unfolding perform_all
    all-IsEarnedOpen [] s h = h
    all-IsEarnedOpen (x ∷ xs) s h =
        all-IsEarnedOpen xs (perform p a run x s) (perform-IsEarnedOpen x s h)

    -- With an engine that leaves the state of the intake alone: from a paused session, whatever
    -- calls follow, the intake is open only if the latest recovery proof authenticates, the
    -- candidate is the one active revision, and the three public workloads have passed under the
    -- active configuration.
    pub intake_opens_earned :
        (xs : List Action) (s : Session)
        → s.store.intake_state ≡ "paused"
        → (perform_all p a run xs s).store.intake_state ≡ "open"
        → (recovery_provenance_exists p a (perform_all p a run xs s).store ≡ true)
          × (active_revision_label (perform_all p a run xs s).store ≡ ok "candidate")
          × (all_public_pass p (perform_all p a run xs s) ≡ true)
    intake_opens_earned xs s paused opened =
        let sound = all-IsEarnedOpen xs s (paused-IsEarnedOpen s paused) in
        (sound.recovered opened, sound.deployed opened, sound.passed opened)
