-- ===== src/Examples/Recoveries.antt =====
-- The theorems on src/event_service_substrate at a store with one command, and its snapshot.
use frontier_long_horizon_en.Prelude.{String, ◌≡◌, refl, ap, true, [], ◌∷◌, ok}
use frontier_long_horizon_en.Substrate.Tables.{Service}
use frontier_long_horizon_en.Substrate.Authority.{RecoveryAuthority}
use frontier_long_horizon_en.Substrate.Store.{
  Store, initialize, audit_chain_valid, append_audit, create_snapshot, snapshot_row, state_root,
  find_snapshot,
}
use frontier_long_horizon_en.Substrate.Store.Audit.{
  audit_chain_valid-append_audit, audit_chain_is_determined,
}
use frontier_long_horizon_en.Substrate.Recovery.{
  restore_snapshot, recovery_is_valid, recovery_provenance_exists,
}
use frontier_long_horizon_en.Substrate.Recovery.Restore.{
  AreProofsNumbered, restore_snapshot_recovers,
}
use frontier_long_horizon_en.Substrate.Recovery.Provenance.{
  provenance_survives, recovery_is_valid-provenance,
}
use frontier_long_horizon_en.Substrate.Recovery.RoundTrip.{snapshot_round_trip}
use frontier_long_horizon_en.Examples.Instances.{
  spelled, spelled-IsReliable, spelled-IsCollisionFree,
}

abbrev authority : RecoveryAuthority
authority = record { key = 7 ∷ 7 ∷ []; scope = "scope"; actor_scope = "operator" }

abbrev one_command : Service
one_command = record {
  journal =
      record {
        seq = 1;
        event_id = "evt_1";
        command_key = "K-1";
        occurrence_id = "occ-1";
        payload_hash = "hash";
        accepted_tick = 41;
      }
      ∷ [];
  committed_seq = 1;
  effects = [];
  intents = [];
  event_marks = [];
  command_keys = [];
}

abbrev before : Store
before = record initialize { service = one_command }

abbrev with_snapshot : Store
with_snapshot = (create_snapshot spelled authority "S-1" before).1

root : String
root = (snapshot_row spelled authority "S-1" before).state_root

-- Later the service tables are empty, the clock has moved and the intake is paused.
abbrev damaged : Store
damaged = record with_snapshot {
  service = initialize.service;
  fake_tick = 60;
  intake_state = "paused";
}

snapshot_made : create_snapshot spelled authority "S-1" before ≡ (ok root, with_snapshot)
unfolding create_snapshot root find_snapshot
snapshot_made = refl

damaged_is_audited : audit_chain_valid spelled damaged ≡ true
unfolding create_snapshot find_snapshot audit_chain_valid root append_audit
damaged_is_audited =
    audit_chain_valid-append_audit spelled "snapshot_create" root "controller" 40 before

snapshot_round_trip_example :
    ((restore_snapshot spelled authority "S-1" damaged).0 ≡ ok root)
    × ((restore_snapshot spelled authority "S-1" damaged).1.service
        ≡ spelled.order_service one_command)
unfolding create_snapshot append_audit
snapshot_round_trip_example =
    snapshot_round_trip spelled authority spelled-IsReliable "S-1" before root with_snapshot damaged
      snapshot_made refl refl damaged_is_audited tt

abbrev recovered : Store
recovered = (restore_snapshot spelled authority "S-1" damaged).1

recovery_made : restore_snapshot spelled authority "S-1" damaged ≡ (ok root, recovered)
recovery_made = ap (λ r. (r, recovered)) snapshot_round_trip_example.0

restore_snapshot_recovers_example :
    (recovery_is_valid spelled authority recovered ≡ true)
    × (audit_chain_valid spelled recovered ≡ true)
    × (recovered.intake_state ≡ "paused")
    × (state_root spelled recovered ≡ root)
    × AreProofsNumbered recovered
unfolding create_snapshot append_audit
restore_snapshot_recovers_example =
    restore_snapshot_recovers spelled authority "S-1" damaged root recovered tt recovery_made

audit_chain_is_determined_example : with_snapshot.audit_chain ≡ damaged.audit_chain
unfolding create_snapshot append_audit audit_chain_valid
audit_chain_is_determined_example =
    audit_chain_is_determined spelled spelled-IsCollisionFree with_snapshot damaged
      damaged_is_audited damaged_is_audited refl

provenance_survives_example :
    recovery_provenance_exists spelled authority (
      append_audit spelled "deploy" "r" "operator" 70 (record recovered {
        service = one_command;
        deployments = [];
        fake_tick = 70;
        intake_state = "open";
        telemetry = [];
        trace_spans = [];
      }))
    ≡ true
provenance_survives_example =
    provenance_survives spelled authority recovered one_command [] 70 "open" [] [] "deploy" "r"
      "operator" 70
      (recovery_is_valid-provenance spelled authority recovered restore_snapshot_recovers_example.0)
