-- ===== src/Agent/Fixture/Restorable.antt =====
-- The recovery point of a seeded incident (src/event_service_substrate/instance.py).
use frontier_long_horizon_en.Prelude.{
  ℕ, zero, suc, String, ◌≡◌, refl, true, Result, ok, err, arith, ◌∙◌, ◌<◌, List, [], ◌∷◌,
}
use frontier_long_horizon_en.Substrate.Canonical.{Primitives, IsReliable}
use frontier_long_horizon_en.Substrate.Authority.{RecoveryAuthority}
use frontier_long_horizon_en.Substrate.Errors.{Error}
use frontier_long_horizon_en.Substrate.Store.{
  Store, initialize, advance, append_telemetry, append_audit, create_snapshot, state_root,
  pause_intake, audit_chain_valid, set_intake_state, find_snapshot, snapshot_row,
}
use frontier_long_horizon_en.Substrate.Store.Audit.{audit_chain_valid-append_audit}
use frontier_long_horizon_en.Substrate.Recovery.{restore_snapshot}
use frontier_long_horizon_en.Substrate.Recovery.Restore.{AreProofsNumbered}
use frontier_long_horizon_en.Substrate.Recovery.RoundTrip.{snapshot_round_trip}
use frontier_long_horizon_en.Agent.Session.{Workspace, config_file, read_bytes}
use frontier_long_horizon_en.Agent.Tools.{workspace_root}
use frontier_long_horizon_en.Agent.Fixture.{
  FixtureError, Fixture, build_fixture, copy_workspace, same_bytes, settings, seeded, bytes_root,
  register_revisions, history_rows, seed_history, seed_telemetry,
}

same_bytes_refl : (bytes : List ℕ) → same_bytes bytes bytes ≡ true
same_bytes_refl [] = refl
same_bytes_refl (b ∷ bs) = ground (arith, same_bytes_refl bs)

module _ (p : Primitives) (a : RecoveryAuthority) where
  -- The store of the recovery point, behind the files of `w`.
  abbrev recovery_point : Workspace → Result Error String × Store
  recovery_point w = create_snapshot p a "S0" (register_revisions p (workspace_root p w) initialize)

  empty_valid : audit_chain_valid p initialize ≡ true
  unfolding audit_chain_valid
  empty_valid = refl

  valid_recovery_point : (w : Workspace) → audit_chain_valid p (recovery_point w).1 ≡ true
  unfolding create_snapshot register_revisions append_audit find_snapshot audit_chain_valid
  valid_recovery_point w =
      let s = register_revisions p (workspace_root p w) initialize in
      audit_chain_valid-append_audit p "snapshot_create" (snapshot_row p a "S0" s).state_root
        "controller" 40 s
      ∙ audit_chain_valid-append_audit p "deployment_activate" (bytes_root p (settings p 1))
          "controller" 40 initialize
      ∙ empty_valid

  -- What the history leaves of the recovery point.
  record Behind (w : Workspace) (s : Store) : Type 0 where
    snapshots : s.snapshots ≡ (recovery_point w).1.snapshots
    intake : s.intake_state ≡ "open"
    audit_chain : s.audit_chain ≡ (recovery_point w).1.audit_chain
    proofs : s.proofs ≡ []

  IsBuilt : Workspace → Result FixtureError Fixture → Type 0
  IsBuilt w (err e) = ⊥
  IsBuilt w (ok x) = Behind w x.store

  seeded-IsBuilt : (w : Workspace) (profile : ℕ) → profile < 2 → IsBuilt w (seeded p a w profile)
  unfolding IsBuilt seeded seed_history history_rows seed_telemetry create_snapshot find_snapshot
      register_revisions append_audit advance append_telemetry
  seeded-IsBuilt w zero l = record {
    snapshots = refl;
    intake = refl;
    audit_chain = refl;
    proofs = refl;
  }
  seeded-IsBuilt w (suc zero) l = record {
    snapshots = refl;
    intake = refl;
    audit_chain = refl;
    proofs = refl;
  }
  seeded-IsBuilt w (suc (suc n)) l = omega arith

  returned :
      (w : Workspace) (r : Result FixtureError Fixture)
      → IsBuilt w r
      → (x : Fixture) × (r ≡ ok x) × Behind w x.store
  unfolding IsBuilt
  returned w (ok x) b = (x, refl, b)
  returned w (err e) b = elim b [ ]

  built :
      (template : Workspace) (profile : ℕ)
      → profile < 2
      → read_bytes config_file (copy_workspace template) ≡ settings p 1
      → (x : Fixture) × (build_fixture p a template profile ≡ ok x)
        × Behind (copy_workspace template) x.store
  unfolding build_fixture
  built template profile l h =
      let w = copy_workspace template in
      let (x, e, b) = returned w (seeded p a w profile) (seeded-IsBuilt w profile l) in
      (x, rw (h, same_bytes_refl (settings p 1)) e, b)

  valid_paused :
      (s : Store)
      → s.intake_state ≡ "open"
      → audit_chain_valid p s ≡ true
      → (audit_chain_valid p (pause_intake p a s).1 ≡ true)
        × ((pause_intake p a s).1.intake_state ≡ "paused")
        × ((pause_intake p a s).1.snapshots ≡ s.snapshots)
        × ((pause_intake p a s).1.proofs ≡ s.proofs)
  unfolding pause_intake audit_chain_valid append_audit append_telemetry set_intake_state advance
  valid_paused s o h =
      let paused = set_intake_state "paused" (advance s) in
      rw o (
        audit_chain_valid-append_audit p "intake_pause" (state_root p paused) "operator"
              paused.fake_tick paused
            ∙ h,
        refl,
        refl,
        refl,
      )

  no_proofs : (s : Store) → s.proofs ≡ [] → AreProofsNumbered s
  no_proofs s h = rw h tt

  created_root :
      (w : Workspace) → recovery_point w ≡ (ok (state_root p initialize), (recovery_point w).1)
  unfolding create_snapshot snapshot_row state_root find_snapshot register_revisions append_audit
  created_root w = refl

  -- If parsing a printed document gives it back and ordering ordered rows changes nothing: from a
  -- template whose settings file, its line feeds normalised, is that of revision r1,
  -- `build_fixture` returns a fixture for each of the two profiles; after a pause of the intake
  -- its snapshot S0 is restored, with the root of an empty service, and the service tables are
  -- empty again.
  pub fixture_can_be_restored :
      IsReliable p
      → (template : Workspace) (profile : ℕ) → profile < 2
      → read_bytes config_file (copy_workspace template) ≡ settings p 1
      → (x : Fixture) × (build_fixture p a template profile ≡ ok x)
        × ((restore_snapshot p a "S0" (pause_intake p a x.store).1).0
            ≡ ok (state_root p initialize))
        × ((restore_snapshot p a "S0" (pause_intake p a x.store).1).1.service
            ≡ p.order_service initialize.service)
  unfolding create_snapshot register_revisions audit_chain_valid
  fixture_can_be_restored rel template profile l h =
      let w = copy_workspace template in
      let (x, e, b) = built template profile l h in
      let (audited, paused, kept, unproved) =
        valid_paused x.store b.intake (rw b.audit_chain (valid_recovery_point w)) in
      let (answer, tables) =
        snapshot_round_trip p a rel "S0" (register_revisions p (workspace_root p w) initialize)
          (state_root p initialize) (recovery_point w).1 (pause_intake p a x.store).1
          (created_root w) (kept ∙ b.snapshots) paused audited
          (no_proofs (pause_intake p a x.store).1 (unproved ∙ b.proofs)) in
      (x, e, answer, tables)
