-- ===== src/Examples/Documents.antt =====
-- Encodings of the documents of src/event_service_substrate.
use frontier_long_horizon_en.Prelude.{
  ℕ, zero, suc, String, ◌≡◌, refl, Option, none, some, List, [], ◌∷◌,
}
use frontier_long_horizon_en.Substrate.Tables.{
  JournalRow, EffectRow, Service, DeploymentRow, AuditRow, ProofFields, TelemetryRow,
}
use frontier_long_horizon_en.Substrate.Canonical.{
  Document, audit_fields, service_tables, journal_table, effects_table, deployments_table,
  runtime_table, telemetry_table, audit_table, snapshots_table, snapshot_claim, recovery_claim,
  event_key, effect_key, intent_key, span_key, command_payload, tree_entries, AuditFields,
  SnapshotFields, FileEntry,
}
use frontier_long_horizon_en.Examples.Codec.{Codec, then, number, text, pair, optional, listed}
use frontier_long_horizon_en.Examples.Rows.{
  journal_row_code, effect_row_code, service, deployment_row, audit_row, proof_fields_code,
  telemetry_row, audit_fields as fields_of_audit, snapshot_fields, file_entry_code,
}

audit_fields_codec : Codec (AuditFields)
audit_fields_codec = fields_of_audit

service_tables_codec : Codec (Service)
service_tables_codec = service

journal_table_codec : Codec (List JournalRow)
journal_table_codec = listed journal_row_code

effects_table_codec : Codec (List EffectRow)
effects_table_codec = listed effect_row_code

deployments_table_codec : Codec (List DeploymentRow)
deployments_table_codec = listed deployment_row

runtime_table_codec : Codec (ℕ × String)
runtime_table_codec = pair number text

telemetry_table_codec : Codec (List TelemetryRow)
telemetry_table_codec = listed telemetry_row

audit_table_codec : Codec (List AuditRow)
audit_table_codec = listed audit_row

snapshots_table_codec : Codec (List SnapshotFields)
snapshots_table_codec = listed snapshot_fields

snapshot_claim_codec : Codec (String × (String × (String × (List ℕ × ℕ))))
snapshot_claim_codec = pair text (pair text (pair text (pair (listed number) number)))

recovery_claim_codec : Codec (String × ProofFields)
recovery_claim_codec = pair text proof_fields_code

event_key_codec : Codec (String × (String × (ℕ × String)))
event_key_codec = pair text (pair text (pair number text))

effect_key_codec : Codec (String × (String × (String × (ℕ × String))))
effect_key_codec = pair text (pair text (pair text (pair number text)))

intent_key_codec : Codec (String × (String × (String × (String × (ℕ × String)))))
intent_key_codec = pair text (pair text (pair text (pair text (pair number text))))

span_key_codec : Codec (String × (String × (Option String × (Option String × (Option String × ℕ)))))
span_key_codec =
    pair text
      (pair text (pair (optional text) (pair (optional text) (pair (optional text) number))))

command_payload_codec : Codec (String × (String × (String × String)))
command_payload_codec = pair text (pair text (pair text text))

tree_entries_codec : Codec (List FileEntry)
tree_entries_codec = listed file_entry_code

document_put : Document → List ℕ → List ℕ
document_put (audit_fields a) rest = 0 ∷ (audit_fields_codec).put a rest
document_put (service_tables a) rest = 1 ∷ (service_tables_codec).put a rest
document_put (journal_table a) rest = 2 ∷ (journal_table_codec).put a rest
document_put (effects_table a) rest = 3 ∷ (effects_table_codec).put a rest
document_put (deployments_table a) rest = 4 ∷ (deployments_table_codec).put a rest
document_put (runtime_table a b) rest = 5 ∷ (runtime_table_codec).put (a, b) rest
document_put (telemetry_table a) rest = 6 ∷ (telemetry_table_codec).put a rest
document_put (audit_table a) rest = 7 ∷ (audit_table_codec).put a rest
document_put (snapshots_table a) rest = 8 ∷ (snapshots_table_codec).put a rest
document_put (snapshot_claim a b c d e) rest =
    9 ∷ (snapshot_claim_codec).put (a, (b, (c, (d, e)))) rest
document_put (recovery_claim a b) rest = 10 ∷ (recovery_claim_codec).put (a, b) rest
document_put (event_key a b c d) rest = 11 ∷ (event_key_codec).put (a, (b, (c, d))) rest
document_put (effect_key a b c d e) rest = 12 ∷ (effect_key_codec).put (a, (b, (c, (d, e)))) rest
document_put (intent_key a b c d e f) rest =
    13 ∷ (intent_key_codec).put (a, (b, (c, (d, (e, f))))) rest
document_put (span_key a b c d e f) rest = 14 ∷ (span_key_codec).put (a, (b, (c, (d, (e, f))))) rest
document_put (command_payload a b c d) rest = 15 ∷ (command_payload_codec).put (a, (b, (c, d))) rest
document_put (tree_entries a) rest = 16 ∷ tree_entries_codec.put a rest

document_get : List ℕ → Option (Document × List ℕ)
document_get [] = none
document_get (zero ∷ l) = then ((audit_fields_codec).get l) (λ x rest. some (audit_fields x, rest))
document_get (suc zero ∷ l) =
    then ((service_tables_codec).get l) (λ x rest. some (service_tables x, rest))
document_get (suc (suc zero) ∷ l) =
    then ((journal_table_codec).get l) (λ x rest. some (journal_table x, rest))
document_get (suc (suc (suc zero)) ∷ l) =
    then ((effects_table_codec).get l) (λ x rest. some (effects_table x, rest))
document_get (suc (suc (suc (suc zero))) ∷ l) =
    then ((deployments_table_codec).get l) (λ x rest. some (deployments_table x, rest))
document_get (suc (suc (suc (suc (suc zero)))) ∷ l) =
    then ((runtime_table_codec).get l) (λ x rest. some (runtime_table x.0 x.1, rest))
document_get (suc (suc (suc (suc (suc (suc zero))))) ∷ l) =
    then ((telemetry_table_codec).get l) (λ x rest. some (telemetry_table x, rest))
document_get (suc (suc (suc (suc (suc (suc (suc zero)))))) ∷ l) =
    then ((audit_table_codec).get l) (λ x rest. some (audit_table x, rest))
document_get (suc (suc (suc (suc (suc (suc (suc (suc zero))))))) ∷ l) =
    then ((snapshots_table_codec).get l) (λ x rest. some (snapshots_table x, rest))
document_get (suc (suc (suc (suc (suc (suc (suc (suc (suc zero)))))))) ∷ l) =
    then ((snapshot_claim_codec).get l)
      (λ x rest. some (snapshot_claim x.0 x.1.0 x.1.1.0 x.1.1.1.0 x.1.1.1.1, rest))
document_get (suc (suc (suc (suc (suc (suc (suc (suc (suc (suc zero))))))))) ∷ l) =
    then ((recovery_claim_codec).get l) (λ x rest. some (recovery_claim x.0 x.1, rest))
document_get (suc (suc (suc (suc (suc (suc (suc (suc (suc (suc (suc zero)))))))))) ∷ l) =
    then ((event_key_codec).get l) (λ x rest. some (event_key x.0 x.1.0 x.1.1.0 x.1.1.1, rest))
document_get (suc (suc (suc (suc (suc (suc (suc (suc (suc (suc (suc (suc zero))))))))))) ∷ l) =
    then ((effect_key_codec).get l)
      (λ x rest. some (effect_key x.0 x.1.0 x.1.1.0 x.1.1.1.0 x.1.1.1.1, rest))
document_get
      (suc (suc (suc (suc (suc (suc (suc (suc (suc (suc (suc (suc (suc zero)))))))))))) ∷ l) =
    then ((intent_key_codec).get l)
      (λ x rest. some (intent_key x.0 x.1.0 x.1.1.0 x.1.1.1.0 x.1.1.1.1.0 x.1.1.1.1.1, rest))
document_get
      (suc (suc (suc (suc (suc (suc (suc (suc (suc (suc (suc (suc (suc (suc zero))))))))))))) ∷ l) =
    then ((span_key_codec).get l)
      (λ x rest. some (span_key x.0 x.1.0 x.1.1.0 x.1.1.1.0 x.1.1.1.1.0 x.1.1.1.1.1, rest))
document_get
      (suc (suc (suc (suc (suc (suc (suc (suc (suc (suc (suc (suc (suc (suc (suc zero))))))))))))))
        ∷ l) =
    then ((command_payload_codec).get l)
      (λ x rest. some (command_payload x.0 x.1.0 x.1.1.0 x.1.1.1, rest))
document_get
      (suc (
          suc (
            suc (suc (suc (suc (suc (suc (suc (suc (suc (suc (suc (suc (suc (suc zero)))))))))))))))
        ∷ l) =
    then (tree_entries_codec.get l) (λ x rest. some (tree_entries x, rest))
document_get (_ ∷ _) = none

document_back : (d : Document) (rest : List ℕ) → document_get (document_put d rest) ≡ some (d, rest)
unfolding document_put document_get
document_back (audit_fields a) rest = rw ((audit_fields_codec).get-put a rest) refl
document_back (service_tables a) rest = rw ((service_tables_codec).get-put a rest) refl
document_back (journal_table a) rest = rw ((journal_table_codec).get-put a rest) refl
document_back (effects_table a) rest = rw ((effects_table_codec).get-put a rest) refl
document_back (deployments_table a) rest = rw ((deployments_table_codec).get-put a rest) refl
document_back (runtime_table a b) rest = rw ((runtime_table_codec).get-put (a, b) rest) refl
document_back (telemetry_table a) rest = rw ((telemetry_table_codec).get-put a rest) refl
document_back (audit_table a) rest = rw ((audit_table_codec).get-put a rest) refl
document_back (snapshots_table a) rest = rw ((snapshots_table_codec).get-put a rest) refl
document_back (snapshot_claim a b c d e) rest =
    rw ((snapshot_claim_codec).get-put (a, (b, (c, (d, e)))) rest) refl
document_back (recovery_claim a b) rest = rw ((recovery_claim_codec).get-put (a, b) rest) refl
document_back (event_key a b c d) rest = rw ((event_key_codec).get-put (a, (b, (c, d))) rest) refl
document_back (effect_key a b c d e) rest =
    rw ((effect_key_codec).get-put (a, (b, (c, (d, e)))) rest) refl
document_back (intent_key a b c d e f) rest =
    rw ((intent_key_codec).get-put (a, (b, (c, (d, (e, f))))) rest) refl
document_back (span_key a b c d e f) rest =
    rw ((span_key_codec).get-put (a, (b, (c, (d, (e, f))))) rest) refl
document_back (command_payload a b c d) rest =
    rw ((command_payload_codec).get-put (a, (b, (c, d))) rest) refl
document_back (tree_entries a) rest = rw (tree_entries_codec.get-put a rest) refl

pub document : Codec Document
document = record { put = document_put; get = document_get; get-put = document_back }
