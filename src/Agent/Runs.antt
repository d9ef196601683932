-- ===== src/Agent/Runs.antt =====
-- `RuntimeEngine.run` and `_issue_capability` (src/agent_surface/runtime.py): a run from its checks to
-- the receipt with its capability. What the settings and the service module of the active workspace
-- are is part of the engine, since they are the candidate's own. Proofs are in the modules below.
pub mod Capability
pub mod Effects
use frontier_long_horizon_en.Prelude.{
  ℕ, String, Bool, true, false, ◌&&◌, ◌||◌, Option, none, some, List, [], ◌∷◌, map, ◌==◌,
  if◌then◌else◌, contains, join, Result, ok, err,
}
use frontier_long_horizon_en.Prelude.Exec.{Exec}
use frontier_long_horizon_en.Substrate.Tables.{SpanRow}
use frontier_long_horizon_en.Substrate.Canonical.{Primitives}
use frontier_long_horizon_en.Substrate.Store.{Store}
use frontier_long_horizon_en.Agent.Runtime.{Stop, tool_error, Run, M, new_run}
use frontier_long_horizon_en.Agent.Runtime as Runtime
use frontier_long_horizon_en.Agent.Methods.{control}
use frontier_long_horizon_en.Agent.Flow.{Flow}
use frontier_long_horizon_en.Agent.Trace.{
  Codecs, TraceAuthority, Context, Selector, derive_placeholder, issue,
}
use frontier_long_horizon_en.Agent.Workloads.{WorkloadReceipt, run_public_workload}
use frontier_long_horizon_en.Agent.Probes.Diagnostics.{run_cutpoint_diagnostic}
use frontier_long_horizon_en.Agent.Probes.Hidden.{run_hidden_workload}

-- `settings.toml`: not there, without an attempt budget that `int` reads, or with this budget.
pub data Settings : Type 0 where
  missing : Settings
  invalid : Settings
  budget : ℕ → Settings

-- The engine, with what it finds in its workspace: the settings, and the module that is imported or
-- what the import raises.
pub record Engine : Type 0 where
  pub profile : ℕ
  pub trace_authority : TraceAuthority
  pub session_id : String
  pub trace_epoch : ℕ
  pub active_config_root : String
  pub settings : Settings
  pub service : Result Stop Flow

-- `sorted(VIEWS)`
abbrev pub views : List String
views = "effects" ∷ "journal" ∷ "keys" ∷ "trace" ∷ []

pub data Kind : Type 0 where
  public_workload hidden_workload diagnostic : Kind

-- `workload_id.startswith("H-")`
unfoldable pub is_hidden : String → Bool
is_hidden (String.◌∷◌ c (String.◌∷◌ d rest)) = String.◌∷◌ c (String.◌∷◌ d String.[]) == "H-"
is_hidden _ = false

-- The branches of `run` on the name and the cutpoint.
unfoldable pub kind_of : String → Option String → Result Stop Kind
unfolding is_hidden
kind_of workload_id cutpoint =
    if contains workload_id ("P1" ∷ "P2" ∷ "P3" ∷ [])
    then elim cutpoint [
      | none ↦ ok public_workload
      | some _ ↦ err (tool_error "public workloads do not accept cutpoints")
    ]
    else if is_hidden workload_id
    then ok hidden_workload
    else elim cutpoint [
      | none ↦ err (tool_error (join ("unknown workload or missing cutpoint: " ∷ workload_id ∷ [])))
      | some c ↦
          if (c == "s5.exit") || (c == "s2.exit")
          then ok diagnostic
          else err (tool_error (join ("unknown workload or missing cutpoint: " ∷ workload_id ∷ [])))
    ]

abbrev pub is_transient : String → Bool
is_transient workload_id = contains workload_id ("P1" ∷ "P2" ∷ "H-TRANS" ∷ [])

abbrev pub cutpoint_text : Option String → String
cutpoint_text none = "None"
cutpoint_text (some c) = c

-- `trace_selectors`: the first of equal selectors, in order.
abbrev pub same_text : Option String → Option String → Bool
same_text none none = true
same_text (some s) (some t) = s == t
same_text _ _ = false

abbrev pub is_seen : Runtime.Selector → List Runtime.Selector → Bool
is_seen s [] = false
is_seen s (t ∷ ts) =
    ((t.event_id == s.event_id)
      && (same_text t.command_key s.command_key && same_text t.occurrence_id s.occurrence_id))
    || is_seen s ts

unfoldable pub distinct_from : List Runtime.Selector → List Runtime.Selector → List Runtime.Selector
distinct_from seen [] = []
distinct_from seen (s ∷ ss) =
    let rest = distinct_from seen ss in
    let more = distinct_from (s ∷ seen) ss in if is_seen s seen then rest else s ∷ more

unfoldable pub trace_selectors : Run → List Runtime.Selector
unfolding distinct_from
trace_selectors r = distinct_from [] r.selectors

-- The dictionary of a selector.
abbrev pub selector_fields : Runtime.Selector → Selector
selector_fields s =
    ("event_id", some s.event_id)
    ∷ ("command_key", s.command_key)
    ∷ ("occurrence_id", s.occurrence_id)
    ∷ []

abbrev pub renamed : String → String → SpanRow → SpanRow
renamed token handle q =
    if q.correlation_handle == handle then record q { correlation_handle = token } else q

-- The UPDATE of `_issue_capability`.
unfoldable pub replace_handle : String → String → Store → Store
replace_handle token handle s = record s { trace_spans = map (renamed token handle) s.trace_spans }

unfoldable pub run_kind : Kind → Primitives → Flow → String → ℕ → M WorkloadReceipt
unfolding run_public_workload run_hidden_workload run_cutpoint_diagnostic
run_kind public_workload p f = run_public_workload p f
run_kind hidden_workload p f = run_hidden_workload p f
run_kind diagnostic p f = run_cutpoint_diagnostic p f

module _ (p : Primitives) (x : Codecs) (e : Engine) where
  -- The arguments of a capability, for a run that began at this tick.
  abbrev pub context : String → ℕ → ℕ → List Selector → Context
  context workload_id run_id tick selectors = record {
    session_id = e.session_id;
    epoch = e.trace_epoch;
    run_id = run_id;
    workload_id = workload_id;
    alias = workload_id;
    tick = tick;
    selectors = selectors;
    views = views;
  }

  -- `_new_handle`
  unfoldable pub new_handle : String → ℕ → Store → String
  unfolding derive_placeholder
  new_handle workload_id run_id s = derive_placeholder x (context workload_id run_id s.fake_tick [])

  -- The run of a workload, with the control line that announces it.
  unfoldable pub begin : String → Option String → ℕ → Store → Run
  unfolding new_handle new_run control
  begin workload_id cutpoint run_id s =
      let handle = new_handle workload_id run_id s in
      (control
        (join (
          "workload "
          ∷ workload_id
          ∷ " cutpoint "
          ∷ cutpoint_text cutpoint
          ∷ " handle "
          ∷ handle
          ∷ " alias "
          ∷ workload_id
          ∷ []))
        (new_run s e.profile cutpoint workload_id workload_id handle (is_transient workload_id))).1

  -- `_issue_capability`
  unfoldable pub issue_capability : ℕ → Run → String × Store
  unfolding issue replace_handle trace_selectors
  issue_capability run_id r =
      let token =
        issue x e.trace_authority
          (record (context r.workload_id run_id r.start_tick
            (map selector_fields (trace_selectors r))) { alias = r.alias }) in
      (token, replace_handle token r.handle r.store)

  unfoldable pub finish :
      ℕ → Result Stop WorkloadReceipt → Run → Result Stop WorkloadReceipt × Store
  unfolding issue_capability
  finish run_id (err stop) r = (err stop, r.store)
  finish run_id (ok w) r =
      let (token, s) = issue_capability run_id r in (ok (record w { handle = token }), s)

  unfoldable pub run_loaded :
      ℕ → Flow → Kind → String → Option String → ℕ → Exec Store Stop WorkloadReceipt
  unfolding run_kind begin finish
  run_loaded attempts f kind workload_id cutpoint run_id s =
      let (result, r) =
        run_kind kind p f e.active_config_root attempts (begin workload_id cutpoint run_id s) in
      finish run_id result r

  -- `run`, behind its checks in their order.
  unfoldable pub run_admitted :
      ℕ → Flow → Result Stop Kind → String → Option String → ℕ → Exec Store Stop WorkloadReceipt
  unfolding run_loaded
  run_admitted attempts f (err stop) workload_id cutpoint run_id s = (err stop, s)
  run_admitted attempts f (ok kind) workload_id cutpoint run_id s =
      run_loaded attempts f kind workload_id cutpoint run_id s

  unfoldable pub run_serviced :
      ℕ → Result Stop Flow → String → Option String → ℕ → Exec Store Stop WorkloadReceipt
  unfolding run_admitted kind_of
  run_serviced attempts (err stop) workload_id cutpoint run_id s = (err stop, s)
  run_serviced attempts (ok f) workload_id cutpoint run_id s =
      run_admitted attempts f (kind_of workload_id cutpoint) workload_id cutpoint run_id s

  unfoldable pub run_configured :
      Settings → String → Option String → ℕ → Exec Store Stop WorkloadReceipt
  unfolding run_serviced
  run_configured missing workload_id cutpoint run_id s =
      (err (tool_error "active workspace settings.toml missing"), s)
  run_configured invalid workload_id cutpoint run_id s =
      (err (tool_error "active workspace configuration invalid"), s)
  run_configured (budget attempts) workload_id cutpoint run_id s =
      run_serviced attempts e.service workload_id cutpoint run_id s

  unfoldable pub run : String → Option String → ℕ → Exec Store Stop WorkloadReceipt
  unfolding run_configured
  run = run_configured e.settings
