-- ===== src/Examples/Clashes.antt =====
-- A restoration of src/event_service_substrate/store.py whose proof would have the key of another.
use frontier_long_horizon_en.Prelude.{◌≡◌, ◌⊎◌, refl, true, err, [], ◌∷◌}
use frontier_long_horizon_en.Substrate.Errors.{integrity_error}
use frontier_long_horizon_en.Substrate.Canonical.{digest}
use frontier_long_horizon_en.Substrate.Authority.{snapshot_tag, snapshot_tag_is_valid}
use frontier_long_horizon_en.Substrate.Store.{
  Store, initialize, create_snapshot, append_audit, next_entry, audit_chain_valid, audit_root,
  find_snapshot, snapshot_is_valid, state_root,
}
use frontier_long_horizon_en.Substrate.Recovery.{restore_over}
use frontier_long_horizon_en.Substrate.Recovery.Restore.{restore_is_atomic}
use frontier_long_horizon_en.Examples.Sessions.{measuring, authority}

-- A proof that has the number of the next audit entry.
abbrev clashing : Store
clashing = record (create_snapshot measuring authority "S0" initialize).1 {
  intake_state = "paused";
  proofs =
      record {
        fields = record {
          proof_id = 2;
          snapshot_id = "S0";
          pre_state_root = "";
          post_state_root = "";
          prior_audit_root = "";
          action_kind = "snapshot_restore";
          action_tick = 1;
          actor_scope = "operator";
          audit_seq = 2;
          audit_entry_hash = "";
        };
        auth_tag = "";
      }
      ∷ [];
}

undone :
    restore_over measuring authority initialize "S0" clashing ≡ (err integrity_error, initialize)
unfolding restore_over create_snapshot audit_chain_valid append_audit next_entry snapshot_is_valid
    snapshot_tag_is_valid snapshot_tag state_root digest audit_root find_snapshot
undone = refl

restore_is_atomic_example :
    (initialize ≡ clashing)
    ⊎ ((initialize ≡ initialize)
        × (clashing.intake_state ≡ "paused")
        × (audit_chain_valid measuring clashing ≡ true)
        × (snapshot_is_valid measuring authority "S0" clashing ≡ true))
restore_is_atomic_example =
    restore_is_atomic measuring authority initialize "S0" clashing initialize integrity_error undone
