-- ===== src/Substrate/Recovery/Provenance.antt =====
-- What the proof of a restoration attests, and for how long.
use mathlib.Core.Bool.{false≢true}
use frontier_long_horizon_en.Prelude.{
  ℕ, ◌<◌, ◌≤◌, String, ◌≡◌, refl, sym, ◌∙◌, Bool, true, ◌&&◌, none, some, List, [], ◌∷◌, ◌++◌,
  arith, eq_iff, ◌==◌, last?, last?-append, Option-cases, inl, inr,
}
use frontier_long_horizon_en.Substrate.Tables.{
  Service, AuditRow, SnapshotRow, ProofFields, ProofRow, DeploymentRow, TelemetryRow, SpanRow,
}
use frontier_long_horizon_en.Substrate.Canonical.{Primitives}
use frontier_long_horizon_en.Substrate.Authority.{
  RecoveryAuthority, recovery_tag, recovery_tag_is_valid, recovery_tag_accepted,
}
use frontier_long_horizon_en.Substrate.Store.{
  Store, advance, find_snapshot, find_audit, state_root, audit_root, audit_root_before,
  append_audit, next_entry, audit_chain_valid, snapshot_is_valid,
}
use frontier_long_horizon_en.Substrate.Store.Audit.{audit_chain_valid-append_audit}
use frontier_long_horizon_en.Substrate.Store.Keys.{
  audit_max, seq-next_entry, audit_max-append, find_audit-append_new, find_audit-append,
  find_audit-le, audit_before-append, audit_before-append_new,
}
use frontier_long_horizon_en.Substrate.Recovery.{
  entry_matches, root_matches, proof_fields, restored, proof_is_consistent, recovery_is_valid,
  recovery_provenance_exists, newest,
}

all_five :
    (b c d e f : Bool)
    → b ≡ true
    → c ≡ true
    → d ≡ true
    → e ≡ true
    → f ≡ true
    → (b && (c && (d && (e && f)))) ≡ true
all_five b c d e f hb hc hd he hf = ground arith

split_five :
    (b c d e f : Bool)
    → (b && (c && (d && (e && f)))) ≡ true
    → (b ≡ true) × (c ≡ true) × (d ≡ true) × (e ≡ true) × (f ≡ true)
split_five b c d e f h = ground arith

last_hash-append :
    (rows : List AuditRow) (r : AuditRow)
    → elim (last? (rows ++ r ∷ [])) [ none ↦ "" | some q ↦ q.entry_hash ] ≡ r.entry_hash
last_hash-append rows r = ground (arith, last?-append rows r)

matches_equal :
    (f : ProofFields) (r : AuditRow)
    → r.action_kind ≡ f.action_kind
    → r.resulting_root ≡ f.post_state_root
    → r.actor ≡ f.actor_scope
    → r.entry_hash ≡ f.audit_entry_hash
    → r.at_tick ≡ f.action_tick
    → entry_matches f (some r) ≡ true
unfolding entry_matches
matches_equal f r k o c h t =
    all_five _ _ _ _ _ ((eq_iff _ _).1 k) ((eq_iff _ _).1 o) ((eq_iff _ _).1 c) ((eq_iff _ _).1 h)
      (ground arith)

-- A matched entry stays matched when the table grows, and its number is within the table's.
entry_matches-append :
    (f : ProofFields) (n : ℕ) (rows : List AuditRow) (r : AuditRow)
    → entry_matches f (find_audit n rows) ≡ true
    → entry_matches f (find_audit n (rows ++ r ∷ [])) ≡ true
entry_matches-append f n rows r h = elim (Option-cases (find_audit n rows)) [
  | inl missing ↦ unfold entry_matches in cc (rw missing at h)
  | inr (q, found) ↦ rw (find_audit-append n rows r q found) (rw found at h)
]

entry_matches-le :
    (f : ProofFields) (n : ℕ) (rows : List AuditRow)
    → entry_matches f (find_audit n rows) ≡ true
    → n ≤ audit_max rows
entry_matches-le f n rows h = elim (Option-cases (find_audit n rows)) [
  | inl missing ↦ absurd (false≢true (unfold entry_matches in rw missing at h))
  | inr (q, found) ↦ find_audit-le n rows q found
]

module _ (p : Primitives) (a : RecoveryAuthority) where
  -- The entry that the restoration appends, and its number.
  pub new_entry : Service → Store → AuditRow
  unfolding advance
  new_entry document s =
      let replaced = advance (record s { service = document }) in
      next_entry p s.audit_chain "snapshot_restore" (state_root p replaced) a.actor_scope
        replaced.fake_tick

  pub new_entry-lt :
      (document : Service) (s : Store) → audit_max s.audit_chain < (new_entry document s).seq
  unfolding new_entry
  new_entry-lt document s = omega (
    arith,
    seq-next_entry p s.audit_chain "snapshot_restore"
        (state_root p (advance (record s { service = document }))) a.actor_scope
        (advance (record s { service = document })).fake_tick,
  )

  unfoldable pub the_proof : String → Service → Store → ProofRow
  unfolding restored
  the_proof i document s =
      let replaced = advance (record s { service = document }) in
      let audited =
        append_audit p "snapshot_restore" (state_root p replaced) a.actor_scope replaced.fake_tick
          replaced in
      let fields = proof_fields p a i s replaced audited in
      record { fields = fields; auth_tag = recovery_tag p a fields }

  pub audit_seq-the_proof :
      (i : String) (document : Service) (s : Store)
      → (the_proof i document s).audit_seq ≡ (new_entry document s).seq
  unfolding the_proof new_entry append_audit
  audit_seq-the_proof i document s =
      audit_max-append s.audit_chain (new_entry document s) (new_entry-lt document s)

  found_entry :
      (i : String) (document : Service) (s : Store)
      → find_audit (the_proof i document s).audit_seq (restored p a i document s).audit_chain
        ≡ some (new_entry document s)
  unfolding restored append_audit new_entry
  found_entry i document s =
      rw audit_seq-the_proof
        (find_audit-append_new s.audit_chain (new_entry document s) (new_entry-lt document s))

  audited_before :
      (i : String) (document : Service) (s : Store)
      → audit_root_before p (the_proof i document s).audit_seq (restored p a i document s)
        ≡ audit_root p s
  unfolding restored append_audit audit_root_before new_entry audit_root
  audited_before i document s = rw (
    audit_seq-the_proof,
    audit_before-append_new s.audit_chain (new_entry document s) (new_entry-lt document s),
  )

  entry_says_so :
      (i : String) (document : Service) (s : Store)
      → entry_matches (the_proof i document s).fields (some (new_entry document s)) ≡ true
  unfolding restored append_audit new_entry the_proof next_entry
  entry_says_so i document s =
      matches_equal (the_proof i document s).fields (new_entry document s) refl refl refl
        (sym (last_hash-append s.audit_chain (new_entry document s))) refl

  root_of_row :
      (i : String) (row : SnapshotRow) (document : Service) (s : Store)
      → find_snapshot i s.snapshots ≡ some row
      → state_root p (record s { service = document }) ≡ row.state_root
      → root_matches
          (the_proof i document s).post_state_root
          (find_snapshot i (restored p a i document s).snapshots)
        ≡ true
  unfolding the_proof restored append_audit root_matches state_root
  root_of_row i row document s found same = rw found ((eq_iff _ _).1 (sym same))

  still_valid :
      (i : String) (document : Service) (s : Store)
      → snapshot_is_valid p a i s ≡ true
      → snapshot_is_valid p a i (restored p a i document s) ≡ true
  unfolding restored append_audit snapshot_is_valid
  still_valid i document s valid = valid

  -- The proof that a restoration writes is consistent with the store that it leaves.
  pub the_proof-is_consistent :
      (i : String) (row : SnapshotRow) (document : Service) (s : Store)
      → find_snapshot i s.snapshots ≡ some row
      → snapshot_is_valid p a i s ≡ true
      → state_root p (record s { service = document }) ≡ row.state_root
      → proof_is_consistent p a (the_proof i document s) (restored p a i document s) ≡ true
  unfolding proof_is_consistent the_proof
  the_proof-is_consistent i row document s found valid same =
      all_five _ _ _ _ _ (still_valid i document s valid) (root_of_row i row document s found same)
        (recovery_tag_accepted p a (the_proof i document s).fields)
        (rw found_entry (entry_says_so i document s)) ((eq_iff _ _).1 (audited_before i document s))

  audit_root_before-append :
      (n : ℕ) (s : Store) (k root actor : String) (t : ℕ)
      → n ≤ audit_max s.audit_chain
      → audit_root_before p n (append_audit p k root actor t s) ≡ audit_root_before p n s
  unfolding append_audit audit_root_before
  audit_root_before-append n s k root actor t h = rw (
      audit_before-append n s.audit_chain (next_entry p s.audit_chain k root actor t)
        (omega (arith, seq-next_entry p s.audit_chain k root actor t)))

  -- The tests of a proof still pass after any further audit entry.
  proof_is_consistent-append_audit :
      (proof : ProofRow) (s : Store) (k root actor : String) (t : ℕ)
      → proof_is_consistent p a proof s ≡ true
      → proof_is_consistent p a proof (append_audit p k root actor t s) ≡ true
  unfolding proof_is_consistent append_audit snapshot_is_valid
  proof_is_consistent-append_audit proof s k root actor t h =
      let now = append_audit p k root actor t s in
      let (valid, rooted, signed, entered, prior) =
        split_five (snapshot_is_valid p a proof.snapshot_id s)
          (root_matches proof.post_state_root (find_snapshot proof.snapshot_id s.snapshots))
          (recovery_tag_is_valid p a proof.fields proof.auth_tag)
          (entry_matches proof.fields (find_audit proof.audit_seq s.audit_chain))
          (audit_root_before p proof.audit_seq s == proof.prior_audit_root) h in
      let entered' =
        entry_matches-append proof.fields proof.audit_seq s.audit_chain
          (next_entry p s.audit_chain k root actor t) entered in
      let prior' : (audit_root_before p proof.audit_seq now == proof.prior_audit_root) ≡ true =
        rw
          (audit_root_before-append proof.audit_seq s k root actor t
            (entry_matches-le proof.fields proof.audit_seq s.audit_chain entered))
          prior in
      all_five _ _ _ _ _ valid rooted signed entered' prior'

  -- What `recovery_provenance_exists` asks, taken apart and put together.
  pub provenance_parts :
      (s : Store)
      → recovery_provenance_exists p a s ≡ true
      → (audit_chain_valid p s ≡ true)
        × (proof : ProofRow) × (newest s.proofs ≡ some proof)
        × (proof_is_consistent p a proof s ≡ true)
  unfolding recovery_provenance_exists
  provenance_parts s h = ground arith

  pub provenance_from :
      (s : Store) (proof : ProofRow)
      → audit_chain_valid p s ≡ true
      → newest s.proofs ≡ some proof
      → proof_is_consistent p a proof s ≡ true
      → recovery_provenance_exists p a s ≡ true
  unfolding recovery_provenance_exists
  provenance_from s proof valid latest consistent = ground arith

  -- A valid recovery has a provenance.
  pub recovery_is_valid-provenance :
      (s : Store) → recovery_is_valid p a s ≡ true → recovery_provenance_exists p a s ≡ true
  unfolding recovery_is_valid recovery_provenance_exists
  recovery_is_valid-provenance s h = ground arith

  -- If the provenance of a recovery exists, it still does after any change of the service tables,
  -- the deployments, the clock, the intake, the telemetry and the spans, and one more audit entry.
  pub provenance_survives :
      (s : Store) (v : Service) (d : List DeploymentRow) (tick : ℕ) (intake : String)
      (m : List TelemetryRow) (x : List SpanRow) (k root actor : String) (t : ℕ)
      → recovery_provenance_exists p a s ≡ true
      → recovery_provenance_exists p a (
          append_audit p k root actor t (record s {
            service = v;
            deployments = d;
            fake_tick = tick;
            intake_state = intake;
            telemetry = m;
            trace_spans = x;
          }))
        ≡ true
  unfolding proof_is_consistent append_audit audit_chain_valid snapshot_is_valid audit_root_before
  provenance_survives s v d tick intake m x k root actor t h =
      let (valid, proof, latest, consistent) = provenance_parts s h in
      let t' : Store = record s {
        service = v;
        deployments = d;
        fake_tick = tick;
        intake_state = intake;
        telemetry = m;
        trace_spans = x;
      } in
      provenance_from (append_audit p k root actor t t') proof
        (audit_chain_valid-append_audit p k root actor t t' ∙ valid) latest
        (proof_is_consistent-append_audit proof t' k root actor t consistent)
