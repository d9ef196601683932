-- ===== src/Examples/Serving.antt =====
-- The theorems on src/agent_surface/session.py and src/agent_surface/runtime.py together, at a whole
-- repair with the engine of the repository and its repaired flow.
use Prim.Native.Nat.{◌/◌, ◌%◌}
use Prim.Native.String.{◌++◌ as append_text}
use frontier_long_horizon_en.Substrate.Store.{find_audit, audit_root_before, audit_root}
use frontier_long_horizon_en.Substrate.Authority.{recovery_tag_is_valid, recovery_tag}
use frontier_long_horizon_en.Agent.Methods.{effect_by_key, settle, advance_cursor, new_effect_id}
use frontier_long_horizon_en.Agent.Flow.{deliver}
use frontier_long_horizon_en.Agent.Methods.{
  prepare, get_event_id, append, register, payload_hash, new_event_id, load,
}
use frontier_long_horizon_en.Substrate.Authority.{snapshot_tag_is_valid, snapshot_tag}
use frontier_long_horizon_en.Substrate.Canonical.{digest}
use frontier_long_horizon_en.Substrate.Store.{
  audit_chain_valid, next_entry, snapshot_is_valid, state_root,
}
use frontier_long_horizon_en.Prelude.{
  ℕ, zero, suc, ◌+◌, String, ◌≡◌, refl, true, none, some, List, [], ◌∷◌, ok, ltb, if◌then◌else◌,
}
use frontier_long_horizon_en.Substrate.Canonical.{
  Primitives, Document, tree_entries, event_key, effect_key,
}
use frontier_long_horizon_en.Substrate.Store.{initialize, create_snapshot}
use frontier_long_horizon_en.Substrate.Recovery.{recovery_provenance_exists}
use frontier_long_horizon_en.Agent.Flow.{logical_identity}
use frontier_long_horizon_en.Agent.Trace.{Codecs, TraceAuthority}
use frontier_long_horizon_en.Agent.Session.{active_revision_label, Session, EngineRun}
use frontier_long_horizon_en.Agent.Tools.{all_public_pass, perform_all}
use frontier_long_horizon_en.Agent.Tools.Served.{served, served_intake_opens_earned}
use frontier_long_horizon_en.Agent.Runs.{budget}
use frontier_long_horizon_en.Examples.Sessions.{authority, row, repair, total, files, ending}

-- Ids are told apart by the tick at which they are made.
abbrev pub mark : ℕ → String → String
mark zero s = append_text "b" s
mark (suc n) s = append_text "a" (mark n s)

abbrev pub stamped : Document → List ℕ
stamped (tree_entries es) = total es ∷ []
stamped (event_key k o tick w) = (100 + tick) ∷ []
stamped (effect_key i o l tick w) = (100 + tick) ∷ []
stamped _ = []

abbrev pub stamp_text : List ℕ → String
stamp_text [] = "empty"
stamp_text (n ∷ []) = if ltb n 100 then ending (n ∷ []) else mark (n / 10) (mark (n % 10) "")
stamp_text (n ∷ m ∷ l) = stamp_text (m ∷ l)

abbrev pub stamping : Primitives
stamping = record {
  sha256 = stamp_text;
  hmac_sha256 = λ k l. "tag";
  canonical_json = stamped;
  loads_service = λ l. some initialize.service;
  str_of = λ n. "n";
  order_service = λ v. v;
  order_deployments = λ v. v;
  order_snapshots = λ v. v;
}

abbrev opaque : Codecs
opaque = record {
  sha256 = λ l. "sha";
  hmac_sha256 = λ k l. "mac";
  hmac_bytes = λ k l. [];
  canonical_json = λ g. [];
  json_decode = λ l. none;
  urlsafe_b64 = λ l. "b64";
  decode_urlsafe_b64 = λ s. none;
  decode_ascii = λ l. none;
}

abbrev trace_key : TraceAuthority
trace_key = record { key = []; scope = "trace" }

abbrev engine : EngineRun
engine = served stamping opaque 1 trace_key (λ w. budget 3) (λ w. logical_identity)

abbrev begun : Session
begun = record {
  session_id = "session";
  store = record (create_snapshot stamping authority "S0" initialize).1 {
    intake_state = "paused";
    deployments = row "r0" "available" ∷ row "r1" "active" ∷ row "candidate" "placeholder" ∷ [];
  };
  active = files;
  candidate = files;
  initial = files;
  workload_history = [];
  public_workload_pass = [];
  trace_epoch = 1;
}

repaired_is_open : (perform_all stamping authority engine repair begun).store.intake_state ≡ "open"
unfolding perform_all served audit_chain_valid create_snapshot next_entry digest snapshot_is_valid
    snapshot_tag_is_valid snapshot_tag state_root prepare get_event_id append register payload_hash
    new_event_id deliver load effect_by_key settle advance_cursor new_effect_id
    recovery_tag_is_valid recovery_tag find_audit audit_root_before audit_root
repaired_is_open = refl

served_intake_opens_earned_example :
    (recovery_provenance_exists stamping authority
        (perform_all stamping authority engine repair begun).store
      ≡ true)
    × (active_revision_label (perform_all stamping authority engine repair begun).store
        ≡ ok "candidate")
    × (all_public_pass stamping (perform_all stamping authority engine repair begun) ≡ true)
served_intake_opens_earned_example =
    served_intake_opens_earned stamping opaque 1 trace_key (λ w. budget 3) (λ w. logical_identity)
      authority repair begun refl repaired_is_open
