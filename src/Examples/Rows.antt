-- ===== src/Examples/Rows.antt =====
-- Encodings of the rows and the documents of src/event_service_substrate.
use frontier_long_horizon_en.Prelude.{refl}
use frontier_long_horizon_en.Substrate.Tables.{
  JournalRow, EffectRow, IntentRow, MarkRow, KeyRow, Service, DeploymentRow, AuditRow, ProofFields,
  TelemetryRow,
}
use frontier_long_horizon_en.Substrate.Canonical.{AuditFields, SnapshotFields, FileEntry}
use frontier_long_horizon_en.Examples.Codec.{Codec, number, text, pair, along, optional, listed}

pub journal_row_code : Codec JournalRow
journal_row_code =
    along
      (λ x. record {
        seq = x.0;
        event_id = x.1.0;
        command_key = x.1.1.0;
        occurrence_id = x.1.1.1.0;
        payload_hash = x.1.1.1.1.0;
        accepted_tick = x.1.1.1.1.1;
      })
      (λ r. (
        r.seq,
        (r.event_id, (r.command_key, (r.occurrence_id, (r.payload_hash, r.accepted_tick)))),
      ))
      (λ r. refl) (pair number (pair text (pair text (pair text (pair text number)))))

pub effect_row_code : Codec EffectRow
effect_row_code =
    along
      (λ x. record {
        effect_id = x.0;
        occurrence_id = x.1.0;
        amount = x.1.1.0;
        kind = x.1.1.1.0;
        logical_effect_key = x.1.1.1.1.0;
        source_event_id = x.1.1.1.1.1.0;
        committed_tick = x.1.1.1.1.1.1;
      })
      (λ r. (
        r.effect_id,
        (
          r.occurrence_id,
          (r.amount, (r.kind, (r.logical_effect_key, (r.source_event_id, r.committed_tick)))),
        ),
      ))
      (λ r. refl) (pair text (pair text (pair number (pair text (pair text (pair text number))))))

pub intent_row : Codec IntentRow
intent_row =
    along
      (λ x. record {
        intent_id = x.0;
        source_event_id = x.1.0;
        command_key = x.1.1.0;
        occurrence_id = x.1.1.1.0;
        logical_effect_key = x.1.1.1.1.0;
        created_tick = x.1.1.1.1.1.0;
        state = x.1.1.1.1.1.1.0;
        effect_id = x.1.1.1.1.1.1.1;
      })
      (λ r. (
        r.intent_id,
        (
          r.source_event_id,
          (
            r.command_key,
            (r.occurrence_id, (r.logical_effect_key, (r.created_tick, (r.state, r.effect_id)))),
          ),
        ),
      ))
      (λ r. refl)
      (pair text
        (pair text (pair text (pair text (pair text (pair number (pair text (optional text))))))))

pub mark_row : Codec MarkRow
mark_row =
    along (λ x. record { event_id = x.0; mark_key = x.1.0; mark_state = x.1.1 })
      (λ r. (r.event_id, (r.mark_key, r.mark_state))) (λ r. refl) (pair text (pair text text))

pub key_row : Codec KeyRow
key_row =
    along
      (λ x. record {
        command_key = x.0;
        occurrence_id = x.1.0;
        event_id = x.1.1.0;
        state = x.1.1.1;
      })
      (λ r. (r.command_key, (r.occurrence_id, (r.event_id, r.state)))) (λ r. refl)
      (pair text (pair text (pair text text)))

pub service : Codec Service
service =
    along
      (λ x. record {
        journal = x.0;
        committed_seq = x.1.0;
        effects = x.1.1.0;
        intents = x.1.1.1.0;
        event_marks = x.1.1.1.1.0;
        command_keys = x.1.1.1.1.1;
      })
      (λ r.
        (r.journal, (r.committed_seq, (r.effects, (r.intents, (r.event_marks, r.command_keys))))))
      (λ r. refl)
      (pair (listed journal_row_code) (
        pair number (
          pair (listed effect_row_code)
            (pair (listed intent_row) (pair (listed mark_row) (listed key_row))))))

pub deployment_row : Codec DeploymentRow
deployment_row =
    along
      (λ x. record {
        revision = x.0;
        code_root = x.1.0;
        config_root = x.1.1.0;
        config_bytes = x.1.1.1.0;
        activated_tick = x.1.1.1.1.0;
        status = x.1.1.1.1.1;
      })
      (λ r. (
        r.revision,
        (r.code_root, (r.config_root, (r.config_bytes, (r.activated_tick, r.status)))),
      ))
      (λ r. refl) (pair text (pair text (pair text (pair (listed number) (pair number text)))))

pub audit_row : Codec AuditRow
audit_row =
    along
      (λ x. record {
        seq = x.0;
        action_kind = x.1.0;
        prior_root = x.1.1.0;
        resulting_root = x.1.1.1.0;
        actor = x.1.1.1.1.0;
        entry_hash = x.1.1.1.1.1.0;
        at_tick = x.1.1.1.1.1.1;
      })
      (λ r. (
        r.seq,
        (r.action_kind, (r.prior_root, (r.resulting_root, (r.actor, (r.entry_hash, r.at_tick))))),
      ))
      (λ r. refl) (pair number (pair text (pair text (pair text (pair text (pair text number))))))

pub proof_fields_code : Codec ProofFields
proof_fields_code =
    along
      (λ x. record {
        proof_id = x.0;
        snapshot_id = x.1.0;
        pre_state_root = x.1.1.0;
        post_state_root = x.1.1.1.0;
        prior_audit_root = x.1.1.1.1.0;
        action_kind = x.1.1.1.1.1.0;
        action_tick = x.1.1.1.1.1.1.0;
        actor_scope = x.1.1.1.1.1.1.1.0;
        audit_seq = x.1.1.1.1.1.1.1.1.0;
        audit_entry_hash = x.1.1.1.1.1.1.1.1.1;
      })
      (λ r. (
        r.proof_id,
        (
          r.snapshot_id,
          (
            r.pre_state_root,
            (
              r.post_state_root,
              (
                r.prior_audit_root,
                (
                  r.action_kind,
                  (r.action_tick, (r.actor_scope, (r.audit_seq, r.audit_entry_hash))),
                ),
              ),
            ),
          ),
        ),
      ))
      (λ r. refl)
      (pair number (
        pair text (
          pair text
            (pair text (pair text (pair text (pair number (pair text (pair number text)))))))))

pub telemetry_row : Codec TelemetryRow
telemetry_row =
    along (λ x. record { seq = x.0; tick = x.1.0; channel = x.1.1.0; message = x.1.1.1 })
      (λ r. (r.seq, (r.tick, (r.channel, r.message)))) (λ r. refl)
      (pair number (pair number (pair text text)))

pub audit_fields : Codec AuditFields
audit_fields =
    along
      (λ x. record {
        seq = x.0;
        action_kind = x.1.0;
        prior_root = x.1.1.0;
        resulting_root = x.1.1.1.0;
        actor = x.1.1.1.1.0;
        at_tick = x.1.1.1.1.1;
      })
      (λ r. (r.seq, (r.action_kind, (r.prior_root, (r.resulting_root, (r.actor, r.at_tick))))))
      (λ r. refl) (pair number (pair text (pair text (pair text (pair text number)))))

pub snapshot_fields : Codec SnapshotFields
snapshot_fields =
    along
      (λ x. record {
        snapshot_id = x.0;
        state_root = x.1.0;
        cursor_seq = x.1.1.0;
        journal_root = x.1.1.1.0;
        effect_root = x.1.1.1.1.0;
        payload = x.1.1.1.1.1.0;
        created_tick = x.1.1.1.1.1.1;
      })
      (λ r. (
        r.snapshot_id,
        (
          r.state_root,
          (r.cursor_seq, (r.journal_root, (r.effect_root, (r.payload, r.created_tick)))),
        ),
      ))
      (λ r. refl)
      (pair text (pair text (pair number (pair text (pair text (pair (listed number) number))))))

pub file_entry_code : Codec FileEntry
file_entry_code =
    along (λ x. record { path = x.0; size = x.1.0; digest_text = x.1.1 })
      (λ r. (r.path, (r.size, r.digest_text))) (λ r. refl) (pair text (pair number text))
