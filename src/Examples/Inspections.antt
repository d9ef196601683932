-- ===== src/Examples/Inspections.antt =====
-- The theorems on the reading tools of src/agent_surface/session.py, at a session in the epoch of a
-- capability, and after a restoration.
use frontier_long_horizon_en.Prelude.{
  eq_iff, Bool-cases, String, [], arith, eq_iff, false, inl, inr, ok, true, ◌==◌, ◌≡◌, ◌≢◌,
}
use mathlib.Core.Path.{subst}
use frontier_long_horizon_en.Substrate.Store.{create_snapshot, append_audit}
use frontier_long_horizon_en.Agent.Session.{Session}
use frontier_long_horizon_en.Agent.Trace.{Context, Grant, issue, grant_of, parse, split_dot}
use frontier_long_horizon_en.Agent.Trace.Validity.{IsGranted, parse-issue}
use frontier_long_horizon_en.Agent.Inspect.{
  Sql, Rows, granted_then, state_inspect, telemetry_trace, journal_rows,
}
use frontier_long_horizon_en.Agent.Inspect.Granted.{inspection-IsGranted}
use frontier_long_horizon_en.Agent.Inspect.Expiry.{by_restore, earlier_tokens_expire}
use frontier_long_horizon_en.Examples.Capabilities.{
  context, readable, readable-IsReliable, selector, accepted, authority as tracing,
}
use frontier_long_horizon_en.Examples.Sessions.{
  measuring, authority, start, after_restore, restore_returns,
}

abbrev plain : Sql
plain = record {
  like = λ pattern message. true;
  order_handles = λ handles. handles;
  order_effects = λ effects. effects;
}

-- A session in the epoch of the capability.
abbrev current : Session
current = record start { trace_epoch = 2 }

abbrev token : String
token = issue readable tracing context

abbrev no_rows : Rows
no_rows = journal_rows []

token_is_not_public : (token == "public") ≡ false
token_is_not_public = elim (Bool-cases (token == "public")) [
  | inr other ↦ other
  | inl same ↦
      let fine : parse readable tracing "public" ≡ ok (grant_of context) =
        subst (λ t. parse readable tracing t ≡ ok (grant_of context))
          ((eq_iff token "public").0 same)
          (parse-issue readable tracing context readable-IsReliable) in
      unfold parse split_dot in cc (fine)
]

shown :
    state_inspect measuring authority plain readable tracing token selector "journal" current
    ≡ ok no_rows
unfolding state_inspect granted_then create_snapshot append_audit
shown = rw (token_is_not_public, accepted)

inspection-IsGranted_example :
    (g : Grant) × IsGranted readable tracing token "session" 2 "journal" selector g
inspection-IsGranted_example =
    inspection-IsGranted measuring authority plain readable tracing token selector "journal" current
      no_rows shown token_is_not_public

-- A token of the epoch before the restoration.
abbrev earlier : Context
earlier = record context { epoch = 1 }

earlier_tokens_expire_example :
    telemetry_trace measuring authority plain readable tracing
      (issue readable tracing earlier)
      after_restore
    ≢ ok []
earlier_tokens_expire_example =
    earlier_tokens_expire measuring authority plain readable tracing start after_restore earlier []
      readable-IsReliable (by_restore "S0" "other" restore_returns) (omega arith)
