-- ===== src/Substrate/Recovery/RoundTrip.antt =====
-- A snapshot taken and restored, and how long a recovery counts as valid.
use frontier_long_horizon_en.Prelude.{
  ℕ, String, ◌≡◌, refl, sym, ap, true, false, none, some, List, [], ◌∷◌, ◌++◌, arith, eq_iff,
  eq_refl, ok,
}
use frontier_long_horizon_en.Substrate.Tables.{Service, SnapshotRow}
use frontier_long_horizon_en.Substrate.Canonical.{Primitives, IsReliable}
use frontier_long_horizon_en.Substrate.Authority.{RecoveryAuthority, snapshot_tag_accepted}
use frontier_long_horizon_en.Substrate.Store.{
  Store, find_snapshot, state_root, advance, append_telemetry, append_audit, next_entry,
  audit_chain_valid, snapshot_is_valid, snapshot_row, create_snapshot,
}
use frontier_long_horizon_en.Substrate.Store.Keys.{audit_max-append, seq-next_entry}
use frontier_long_horizon_en.Substrate.Recovery.{restored, restore_snapshot, recovery_is_valid}
use frontier_long_horizon_en.Substrate.Recovery.Restore.{
  IsRestorable, AreProofsNumbered, fresh_number, restore_snapshot_succeeds,
}

find_snapshot-append_new :
    (i : String) (rows : List SnapshotRow) (r : SnapshotRow)
    → find_snapshot i rows ≡ none
    → r.snapshot_id ≡ i
    → find_snapshot i (rows ++ r ∷ []) ≡ some r
unfolding find_snapshot
find_snapshot-append_new i [] r h e = ground (arith, eq_iff r.snapshot_id i)
find_snapshot-append_new i (x ∷ rows) r h e = ground (arith, find_snapshot-append_new i rows r)

module _ (p : Primitives) (a : RecoveryAuthority) where
  created :
      (i : String) (s : Store) (root : String) (s' : Store)
      → create_snapshot p a i s ≡ (ok root, s')
      → (find_snapshot i s'.snapshots ≡ some (snapshot_row p a i s))
        × (root ≡ (snapshot_row p a i s).state_root)
  unfolding create_snapshot append_audit snapshot_row
  created i s root s' h =
      ground (arith, find_snapshot-append_new i s.snapshots (snapshot_row p a i s))

  snapshot_row-IsValid :
      (i : String) (s t : Store)
      → find_snapshot i t.snapshots ≡ some (snapshot_row p a i s)
      → snapshot_is_valid p a i t ≡ true
  unfolding snapshot_is_valid snapshot_row
  snapshot_row-IsValid i s t h =
      let row = snapshot_row p a i s in
      rw (h, snapshot_is_valid)
        (ground (
          arith,
          eq_refl row.state_root,
          snapshot_tag_accepted p a i row.state_root row.payload row.created_tick,
        ))

  loads_back :
      IsReliable p
      → (i : String) (s : Store)
      → p.loads_service (snapshot_row p a i s).payload ≡ some (p.order_service s.service)
  unfolding snapshot_row
  loads_back rel i s = rel.loads_dumps (p.order_service s.service)

  root_again :
      IsReliable p
      → (i : String) (s t : Store)
      → state_root p (record t { service = p.order_service s.service })
        ≡ (snapshot_row p a i s).state_root
  unfolding snapshot_row state_root
  root_again rel i s t = rw rel.order_idem

  service-restored :
      (i : String) (document : Service) (s : Store) → (restored p a i document s).service ≡ document
  unfolding restored append_audit append_telemetry advance
  service-restored i document s = refl

  -- If parsing a printed document gives it back and ordering ordered rows changes nothing: a store
  -- takes a snapshot; later, whatever has become of the service tables, the deployments, the clock
  -- and the spans, a store that still has the snapshots, whose intake is paused, whose audit chain
  -- is valid, and whose recovery proofs are each named after an audit number that the chain has
  -- reached, restores it; the call returns the root that `create_snapshot` returned, and the
  -- service tables are those that the snapshot was taken of, in order.
  pub snapshot_round_trip :
      IsReliable p
      → (i : String) (s : Store) (root : String) (s' t : Store)
      → create_snapshot p a i s ≡ (ok root, s')
      → t.snapshots ≡ s'.snapshots
      → t.intake_state ≡ "paused"
      → audit_chain_valid p t ≡ true
      → AreProofsNumbered t
      → ((restore_snapshot p a i t).0 ≡ ok root)
        × ((restore_snapshot p a i t).1.service ≡ p.order_service s.service)
  snapshot_round_trip rel i s root s' t made kept paused audited numbered =
      let (found', rooted) = created i s root s' made in
      let row = snapshot_row p a i s in
      let found : find_snapshot i t.snapshots ≡ some row = rw kept found' in
      let document = p.order_service s.service in
      let can : IsRestorable p a i row document t = record {
        paused = paused;
        audited = audited;
        found = found;
        authentic = snapshot_row-IsValid i s t found;
        loaded = loads_back rel i s;
        same = root_again rel i s t;
        unused = fresh_number p a i document t numbered;
      } in
      let done = restore_snapshot_succeeds p a i row document t can in
      (rw done (ap ok (sym rooted)), rw done (service-restored i document t))

  -- If the recovery is valid, then after one more audit entry it is not.
  recovery_expires :
      (s : Store) (k root actor : String) (t : ℕ)
      → recovery_is_valid p a s ≡ true
      → recovery_is_valid p a (append_audit p k root actor t s) ≡ false
  unfolding recovery_is_valid append_audit
  recovery_expires s k root actor t h = ground (
    arith,
    seq-next_entry p s.audit_chain k root actor t,
    audit_max-append s.audit_chain (next_entry p s.audit_chain k root actor t),
  )
