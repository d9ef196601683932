-- ===== src/Substrate/Recovery.antt =====
-- Authenticated restoration and its provenance: `restore_snapshot`, `recovery_is_valid` and
-- `recovery_provenance_exists` of src/event_service_substrate/store.py, and the queries of
-- src/strict_verifier/integrity.py. Proofs are in the modules below.
pub mod Numbered
pub mod Provenance
pub mod Restore
pub mod RoundTrip
use frontier_long_horizon_en.Prelude.{
  ℕ, ltb, ◌||◌, String, Bool, true, false, not, ◌&&◌, Option, none, some, List, [], ◌∷◌, ◌++◌,
  nat_eq, ◌==◌, if◌then◌else◌, last?, Result, ok, err,
}
use frontier_long_horizon_en.Substrate.Errors.{Error, runtime_error, value_error, integrity_error}
use frontier_long_horizon_en.Substrate.Tables.{
  Service, AuditRow, SnapshotRow, ProofFields, ProofRow,
}
use frontier_long_horizon_en.Substrate.Canonical.{Primitives}
use frontier_long_horizon_en.Substrate.Authority.{
  RecoveryAuthority, recovery_tag, recovery_tag_is_valid,
}
use frontier_long_horizon_en.Substrate.Store.{
  Store, max_seq, advance, append_telemetry, find_snapshot, find_audit, state_root, audit_root,
  audit_root_before, append_audit, audit_chain_valid, snapshot_is_valid,
}

-- The audit row that a proof refers to must say what the proof says.
unfoldable pub entry_matches : ProofFields → Option AuditRow → Bool
entry_matches f none = false
entry_matches f (some r) =
    r.action_kind == f.action_kind
    && (r.resulting_root == f.post_state_root
        && (r.actor == f.actor_scope
            && (r.entry_hash == f.audit_entry_hash && nat_eq r.at_tick f.action_tick)))

unfoldable pub root_matches : String → Option SnapshotRow → Bool
root_matches root none = false
root_matches root (some r) = r.state_root == root

-- `ORDER BY audit_seq DESC LIMIT 1`: a proof with the greatest number, of equal ones the first.
unfoldable pub newest : List ProofRow → Option ProofRow
newest [] = none
newest (r ∷ rs) = elim (newest rs) [
  | none ↦ some r
  | some q ↦ if ltb r.audit_seq q.audit_seq then some q else some r
]

-- Whether a row has this primary key.
unfoldable pub has_proof : ℕ → List ProofRow → Bool
has_proof n [] = false
has_proof n (r ∷ rs) = nat_eq r.proof_id n || has_proof n rs

-- `with self.connection`: a raise in the body brings the last commit back.
unfoldable pub transaction {ℓ} :
    {A : Type ℓ} → Store → Result Error A × Store → Result Error A × Store
transaction committed (err e, s) = (err e, committed)
transaction committed (ok a, s) = (ok a, s)

module _ (p : Primitives) (a : RecoveryAuthority) where
  -- The dictionary that `restore_snapshot` signs, from the stores before the replacement and after
  -- the audit entry.
  unfoldable pub proof_fields : String → Store → Store → Store → ProofFields
  unfolding max_seq
  proof_fields snapshot_id before replaced audited =
      let audit_seq = max_seq (λ r. r.seq) audited.audit_chain in
      record {
        proof_id = audit_seq;
        snapshot_id = snapshot_id;
        pre_state_root = state_root p before;
        post_state_root = state_root p replaced;
        prior_audit_root = audit_root p before;
        action_kind = "snapshot_restore";
        action_tick = replaced.fake_tick;
        actor_scope = a.actor_scope;
        audit_seq = audit_seq;
        audit_entry_hash = elim (last? audited.audit_chain) [ none ↦ "" | some r ↦ r.entry_hash ];
      }

  -- The store after the transaction, where the roots agree.
  unfoldable pub restored : String → Service → Store → Store
  unfolding advance append_telemetry proof_fields
  restored snapshot_id document s =
      let replaced = advance (record s { service = document }) in
      let audited =
        append_audit p "snapshot_restore" (state_root p replaced) a.actor_scope replaced.fake_tick
          replaced in
      let fields = proof_fields snapshot_id s replaced audited in
      let proof : ProofRow = record { fields = fields; auth_tag = recovery_tag p a fields } in
      append_telemetry replaced.fake_tick "control" "authenticated snapshot restored"
        (record audited { proofs = audited.proofs ++ proof ∷ [] })

  -- The body of the transaction: a raise leaves what was written before it, up to the audit entry.
  unfoldable pub restore_body : String → SnapshotRow → Service → Store → Result Error String × Store
  unfolding advance proof_fields restored has_proof
  restore_body snapshot_id row document s =
      let replaced = advance (record s { service = document }) in
      let audited =
        append_audit p "snapshot_restore" (state_root p replaced) a.actor_scope replaced.fake_tick
          replaced in
      let fields = proof_fields snapshot_id s replaced audited in
      if not (state_root p replaced == row.state_root)
      then (err (runtime_error "restored state does not match authenticated snapshot"), replaced)
      else if has_proof fields.proof_id s.proofs
      then (err integrity_error, audited)
      else (ok (state_root p replaced), restored snapshot_id document s)

  -- From the load of the payload on.
  unfoldable pub restore_payload :
      Store → String → SnapshotRow → Option Service → Store → Result Error String × Store
  unfolding restore_body transaction
  restore_payload committed snapshot_id row none s = (err (value_error "payload is not JSON"), s)
  restore_payload committed snapshot_id row (some document) s =
      transaction committed (restore_body snapshot_id row document s)

  -- `restore_snapshot`, for a connection whose last commit is the first store.
  unfoldable pub restore_over : Store → String → Store → Result Error String × Store
  unfolding restore_payload
  restore_over committed snapshot_id s =
      if not (s.intake_state == "paused")
      then (err (runtime_error "snapshot restoration requires paused intake"), s)
      else if not (audit_chain_valid p s)
      then (err (runtime_error "snapshot restoration requires a valid audit chain"), s)
      else elim (find_snapshot snapshot_id s.snapshots) [
        | none ↦ (err (value_error "authenticated snapshot is missing or invalid"), s)
        | some row ↦
            if not (snapshot_is_valid p a snapshot_id s)
            then (err (value_error "authenticated snapshot is missing or invalid"), s)
            else restore_payload committed snapshot_id row (p.loads_service row.payload) s
      ]

  -- `restore_snapshot`, for a connection that has no write pending.
  unfoldable pub restore_snapshot : String → Store → Result Error String × Store
  unfolding restore_over
  restore_snapshot snapshot_id s = restore_over s snapshot_id s

  -- The tests on a proof that `recovery_is_valid` and `recovery_provenance_exists` share.
  unfoldable pub proof_is_consistent : ProofRow → Store → Bool
  unfolding root_matches entry_matches
  proof_is_consistent proof s =
      snapshot_is_valid p a proof.snapshot_id s
      && (root_matches proof.post_state_root (find_snapshot proof.snapshot_id s.snapshots)
          && (recovery_tag_is_valid p a proof.fields proof.auth_tag
              && (entry_matches proof.fields (find_audit proof.audit_seq s.audit_chain)
                  && (audit_root_before p proof.audit_seq s == proof.prior_audit_root))))

  unfoldable pub recovery_provenance_exists : Store → Bool
  unfolding proof_is_consistent newest
  recovery_provenance_exists s =
      if not (audit_chain_valid p s)
      then false
      else elim (newest s.proofs) [ none ↦ false | some proof ↦ proof_is_consistent proof s ]

  unfoldable pub recovery_is_valid : Store → Bool
  unfolding proof_is_consistent max_seq newest
  recovery_is_valid s = if not (audit_chain_valid p s) then false else elim (newest s.proofs) [
    | none ↦ false
    | some proof ↦
        if not (nat_eq (max_seq (λ r. r.seq) s.audit_chain) proof.audit_seq)
        then false
        else if not (state_root p s == proof.post_state_root)
        then false
        else proof_is_consistent proof s
  ]

-- `recovery_proof_for_snapshot`: the proofs of one snapshot, and the tag of the last of them.
unfoldable pub proofs_for : String → List ProofRow → List ProofRow
proofs_for i [] = []
proofs_for i (r ∷ rs) =
    let rest = proofs_for i rs in
    if (r.snapshot_id == i) && (r.action_kind == "snapshot_restore") then r ∷ rest else rest

unfoldable pub recovery_proof_for_snapshot : Primitives → RecoveryAuthority → String → Store → Bool
unfolding proofs_for newest
recovery_proof_for_snapshot p a snapshot_id s = elim (newest (proofs_for snapshot_id s.proofs)) [
  | none ↦ false
  | some r ↦ recovery_tag_is_valid p a r.fields r.auth_tag
]
