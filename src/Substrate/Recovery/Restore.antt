-- ===== src/Substrate/Recovery/Restore.antt =====
-- When `restore_snapshot` succeeds, and what it leaves behind.
use frontier_long_horizon_en.Prelude.{
  String, ◌⊎◌, ◌≡◌, refl, ◌∙◌, true, Option-cases, inl, inr, some, false, Result, arith, eq_iff, ok,
  err,
}
use frontier_long_horizon_en.Substrate.Errors.{Error}
use frontier_long_horizon_en.Substrate.Tables.{Service, SnapshotRow, ProofRow}
use frontier_long_horizon_en.Substrate.Canonical.{Primitives}
use frontier_long_horizon_en.Substrate.Authority.{RecoveryAuthority}
use frontier_long_horizon_en.Substrate.Store.{
  Store, max_seq, advance, append_telemetry, find_snapshot, state_root, append_audit,
  audit_chain_valid, snapshot_is_valid,
}
use frontier_long_horizon_en.Substrate.Store.Audit.{audit_chain_valid-append_audit}
use frontier_long_horizon_en.Substrate.Recovery.{
  newest, has_proof, transaction, restored, restore_body, restore_payload, restore_over,
  restore_snapshot, proof_is_consistent, recovery_is_valid,
}
use frontier_long_horizon_en.Substrate.Recovery.Provenance.{
  the_proof, the_proof-is_consistent, new_entry-lt, audit_seq-the_proof,
}
use frontier_long_horizon_en.Substrate.Store.Keys.{audit_max}
use frontier_long_horizon_en.Substrate.Recovery.Numbered.{
  AreWithin, newest-append, has_proof-above, AreWithin-append,
}

-- Each proof is named after its audit number, which the chain has reached.
abbrev pub AreProofsNumbered : Store → Type 0
AreProofsNumbered s = AreWithin (audit_max s.audit_chain) s.proofs

module _ (p : Primitives) (a : RecoveryAuthority) where
  -- The conditions under which a restoration goes through, with the row and the document.
  pub record IsRestorable (i : String) (row : SnapshotRow) (document : Service) (s : Store)
      : Type 0 where
    pub paused : s.intake_state ≡ "paused"
    pub audited : audit_chain_valid p s ≡ true
    pub found : find_snapshot i s.snapshots ≡ some row
    pub authentic : snapshot_is_valid p a i s ≡ true
    pub loaded : p.loads_service row.payload ≡ some document
    pub same : state_root p (record s { service = document }) ≡ row.state_root
    pub unused : has_proof (the_proof p a i document s).proof_id s.proofs ≡ false

  restore_body_succeeds :
      (i : String) (row : SnapshotRow) (document : Service) (s : Store)
      → state_root p (record s { service = document }) ≡ row.state_root
      → has_proof (the_proof p a i document s).proof_id s.proofs ≡ false
      → restore_body p a i row document s ≡ (ok row.state_root, restored p a i document s)
  unfolding restore_body the_proof state_root advance
  restore_body_succeeds i row document s same fresh =
      ground (arith, eq_iff (state_root p (record s { service = document })) row.state_root)

  restore_body_inversion :
      (i : String) (row : SnapshotRow) (document : Service) (s : Store) (root : String) (t : Store)
      → restore_body p a i row document s ≡ (ok root, t)
      → (state_root p (record s { service = document }) ≡ row.state_root)
        × (has_proof (the_proof p a i document s).proof_id s.proofs ≡ false)
        × (t ≡ restored p a i document s)
        × (root ≡ row.state_root)
  unfolding restore_body the_proof state_root advance
  restore_body_inversion i row document s root t h =
      let e = eq_iff (state_root p (record s { service = document })) row.state_root in
      (ground (arith, e), ground (arith, e), ground (arith, e), ground (arith, e))

  transaction_inversion :
      {A : Type 0} (committed : Store) (x : Result Error A × Store) (y : A) (t : Store)
      → transaction committed x ≡ (ok y, t)
      → x ≡ (ok y, t)
  unfolding transaction
  transaction_inversion committed (err e, s) y t h = ground arith
  transaction_inversion committed (ok y', s) y t h = h

  transaction_undoes :
      {A : Type 0} (committed : Store) (x : Result Error A × Store) (e : Error) (t : Store)
      → transaction committed x ≡ (err e, t)
      → t ≡ committed
  unfolding transaction
  transaction_undoes committed (err e', s) e t h = ground arith
  transaction_undoes committed (ok y', s) e t h = ground arith

  pub restore_snapshot_succeeds :
      (i : String) (row : SnapshotRow) (document : Service) (s : Store)
      → IsRestorable i row document s
      → restore_snapshot p a i s ≡ (ok row.state_root, restored p a i document s)
  unfolding restore_snapshot restore_over restore_payload transaction
  restore_snapshot_succeeds i row document s h = ground (
    arith,
    eq_iff s.intake_state "paused",
    restore_body_succeeds i row document s h.same h.unused,
  )

  pub restore_snapshot_inversion :
      (i : String) (s : Store) (root : String) (t : Store)
      → restore_snapshot p a i s ≡ (ok root, t)
      → (row : SnapshotRow) × (document : Service) × IsRestorable i row document s
        × (t ≡ restored p a i document s)
        × (root ≡ row.state_root)
  unfolding restore_snapshot restore_over restore_payload
  restore_snapshot_inversion i s root t h = elim (Option-cases (find_snapshot i s.snapshots)) [
    | inl missing ↦ absurd (ground (arith))
    | inr (row, found) ↦ elim (Option-cases (p.loads_service row.payload)) [
      | inl garbled ↦ absurd (ground (arith))
      | inr (document, loaded) ↦
          let e₁ = eq_iff s.intake_state "paused" in
          let (same, fresh, now, rooted) =
            restore_body_inversion i row document s root t (
              transaction_inversion s (restore_body p a i row document s) root t
                (ground (arith))) in
          (
            row,
            document,
            record {
              paused = ground (arith, e₁);
              audited = ground (arith);
              found = found;
              authentic = ground (arith);
              loaded = loaded;
              same = same;
              unused = fresh;
            },
            now,
            rooted,
          )
    ]
  ]

  -- A restoration that raises leaves the store as it was, or as the last commit left it: the
  -- second only if the intake is paused, the audit chain is valid and the snapshot is there and
  -- valid.
  pub restore_is_atomic :
      (committed : Store) (i : String) (s t : Store) (e : Error)
      → restore_over p a committed i s ≡ (err e, t)
      → (t ≡ s)
        ⊎ ((t ≡ committed)
            × (s.intake_state ≡ "paused")
            × (audit_chain_valid p s ≡ true)
            × (snapshot_is_valid p a i s ≡ true))
  unfolding restore_over restore_payload
  restore_is_atomic committed i s t e h = elim (Option-cases (find_snapshot i s.snapshots)) [
    | inl missing ↦ inl (ground (arith))
    | inr (row, found) ↦ elim (Option-cases (p.loads_service row.payload)) [
      | inl garbled ↦ inl (ground (arith))
      | inr (document, loaded) ↦
          let undone = transaction_undoes committed (restore_body p a i row document s) e t in
          ground (arith, eq_iff s.intake_state "paused", undone)
    ]
  ]

  state_root-restored :
      (i : String) (document : Service) (s : Store)
      → state_root p (restored p a i document s) ≡ state_root p (record s { service = document })
  unfolding restored state_root append_audit append_telemetry
  state_root-restored i document s = refl

  audit_chain_valid-restored :
      (i : String) (document : Service) (s : Store)
      → audit_chain_valid p (restored p a i document s) ≡ audit_chain_valid p s
  unfolding restored audit_chain_valid append_audit append_telemetry
  audit_chain_valid-restored i document s =
      let replaced = advance (record s { service = document }) in
      unfold audit_chain_valid in
      audit_chain_valid-append_audit p "snapshot_restore" (state_root p replaced) a.actor_scope
        replaced.fake_tick replaced

  recovery_is_valid-from :
      (s : Store) (proof : ProofRow)
      → audit_chain_valid p s ≡ true
      → newest s.proofs ≡ some proof
      → max_seq (λ r. r.seq) s.audit_chain ≡ proof.audit_seq
      → state_root p s ≡ proof.post_state_root
      → proof_is_consistent p a proof s ≡ true
      → recovery_is_valid p a s ≡ true
  unfolding recovery_is_valid
  recovery_is_valid-from s proof valid newest latest same consistent =
      ground (arith, eq_iff (state_root p s) proof.post_state_root)

  is_newest :
      (i : String) (document : Service) (s : Store)
      → AreProofsNumbered s
      → newest (restored p a i document s).proofs ≡ some (the_proof p a i document s)
  unfolding the_proof restored append_audit append_telemetry advance
  is_newest i document s numbered =
      newest-append (audit_max s.audit_chain) s.proofs (the_proof p a i document s) numbered
        (rw (audit_seq-the_proof p a i document s) (new_entry-lt p a document s))

  pub fresh_number :
      (i : String) (document : Service) (s : Store)
      → AreProofsNumbered s
      → has_proof (the_proof p a i document s).proof_id s.proofs ≡ false
  unfolding the_proof
  fresh_number i document s numbered =
      has_proof-above (audit_max s.audit_chain) (the_proof p a i document s).proof_id s.proofs
        numbered (rw (audit_seq-the_proof p a i document s) (new_entry-lt p a document s))

  AreProofsNumbered-restored :
      (i : String) (document : Service) (s : Store)
      → AreProofsNumbered s
      → AreProofsNumbered (restored p a i document s)
  unfolding the_proof restored append_audit append_telemetry advance
  AreProofsNumbered-restored i document s numbered =
      let lt = new_entry-lt p a document s in
      AreWithin-append (audit_max s.audit_chain) s.proofs (the_proof p a i document s) numbered
        (rw (audit_seq-the_proof p a i document s) (omega (arith, lt))) refl

  recovery_is_valid-restored :
      (i : String) (row : SnapshotRow) (document : Service) (s : Store)
      → AreProofsNumbered s
      → IsRestorable i row document s
      → recovery_is_valid p a (restored p a i document s) ≡ true
  unfolding state_root
  recovery_is_valid-restored i row document s numbered h =
      recovery_is_valid-from (restored p a i document s) (the_proof p a i document s)
        (audit_chain_valid-restored i document s ∙ h.audited) (is_newest i document s numbered)
        (unfold the_proof restored append_audit append_telemetry in refl)
        (unfold the_proof restored append_audit append_telemetry in refl)
        (the_proof-is_consistent p a i row document s h.found h.authentic h.same)

  intake_state-restored :
      (i : String) (document : Service) (s : Store)
      → (restored p a i document s).intake_state ≡ s.intake_state
  unfolding restored append_audit append_telemetry advance
  intake_state-restored i document s = refl

  -- If each recovery proof is named after an audit number that the chain has reached: every
  -- restoration that returns leaves a store whose recovery is valid, whose audit chain is valid,
  -- whose intake is still paused, whose service tables have the root that it returns, and whose
  -- proofs are again so named.
  pub restore_snapshot_recovers :
      (i : String) (s : Store) (root : String) (t : Store)
      → AreProofsNumbered s
      → restore_snapshot p a i s ≡ (ok root, t)
      → (recovery_is_valid p a t ≡ true)
        × (audit_chain_valid p t ≡ true)
        × (t.intake_state ≡ "paused")
        × (state_root p t ≡ root)
        × AreProofsNumbered t
  restore_snapshot_recovers i s root t numbered h =
      let (row, document, can, now, rooted) = restore_snapshot_inversion i s root t h in
      (
        rw now (recovery_is_valid-restored i row document s numbered can),
        rw now (audit_chain_valid-restored i document s ∙ can.audited),
        rw now (intake_state-restored i document s ∙ can.paused),
        rw (now, rooted) (state_root-restored i document s ∙ can.same),
        rw now (AreProofsNumbered-restored i document s numbered),
      )
