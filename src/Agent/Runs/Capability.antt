-- ===== src/Agent/Runs/Capability.antt =====
-- The capability in a receipt of `RuntimeEngine.run` (src/agent_surface/runtime.py), as
-- `TraceCapabilityAuthority` (src/agent_surface/trace.py) validates it.
use frontier_long_horizon_en.Prelude.{
  ℕ, String, ◌≡◌, ◌≢◌, true, Option, none, List, map, contains, Result, ok, err, arith,
}
use frontier_long_horizon_en.Substrate.Canonical.{Primitives}
use frontier_long_horizon_en.Substrate.Store.{Store}
use frontier_long_horizon_en.Agent.Runtime.{Stop, Run}
use frontier_long_horizon_en.Agent.Flow.{Flow}
use frontier_long_horizon_en.Agent.Trace.{
  Codecs, Grant, Selector, IsReliable, grant_of, issue, validate,
}
use frontier_long_horizon_en.Agent.Trace.Validity.{issued_is_valid, stale_is_refused}
use frontier_long_horizon_en.Agent.Workloads.{WorkloadReceipt}
use frontier_long_horizon_en.Agent.Runs.{
  Settings, missing, invalid, budget, Engine, views, Kind, kind_of, context, selector_fields,
  trace_selectors, issue_capability, finish, run_loaded, run_admitted, run_serviced, run_configured,
  run,
}

module _ (p : Primitives) (x : Codecs) (e : Engine) where
  -- The handle is a token of the engine's authority for its session and its epoch.
  pub record IsIssued (token : String) : Type 0 where
    pub workload_id : String
    pub alias : String
    pub run_id : ℕ
    pub tick : ℕ
    pub selectors : List Selector
    pub issued :
        token
        ≡ issue x e.trace_authority
            (record (context p x e workload_id run_id tick selectors) { alias = alias })

  finish-IsIssued :
      (run_id : ℕ) (result : Result Stop WorkloadReceipt) (r : Run) (w : WorkloadReceipt)
      (s : Store)
      → finish p x e run_id result r ≡ (ok w, s)
      → IsIssued w.handle
  unfolding finish issue_capability
  finish-IsIssued run_id (err stop) r w s h = absurd (ground (arith, h))
  finish-IsIssued run_id (ok v) r w s h = record {
    workload_id = r.workload_id;
    alias = r.alias;
    run_id = run_id;
    tick = r.start_tick;
    selectors = map selector_fields (trace_selectors r);
    issued = ground (arith, h);
  }

  checked-IsIssued :
      (n : ℕ) (f : Flow) (kind : Result Stop Kind) (workload_id : String) (cutpoint : Option String)
      (run_id : ℕ) (s s' : Store) (w : WorkloadReceipt)
      → run_admitted p x e n f kind workload_id cutpoint run_id s ≡ (ok w, s')
      → IsIssued w.handle
  unfolding run_admitted run_loaded
  checked-IsIssued n f (err stop) workload_id cutpoint run_id s s' w h = absurd (ground (arith, h))
  checked-IsIssued n f (ok kind) workload_id cutpoint run_id s s' w h =
      finish-IsIssued run_id _ _ w s' h

  with-IsIssued :
      (n : ℕ) (service : Result Stop Flow) (workload_id : String) (cutpoint : Option String)
      (run_id : ℕ) (s s' : Store) (w : WorkloadReceipt)
      → run_serviced p x e n service workload_id cutpoint run_id s ≡ (ok w, s')
      → IsIssued w.handle
  unfolding run_serviced
  with-IsIssued n (err stop) workload_id cutpoint run_id s s' w h = absurd (ground (arith, h))
  with-IsIssued n (ok f) workload_id cutpoint run_id s s' w h =
      checked-IsIssued n f (kind_of workload_id cutpoint) workload_id cutpoint run_id s s' w h

  configured-IsIssued :
      (t : Settings) (workload_id : String) (cutpoint : Option String) (run_id : ℕ) (s s' : Store)
      (w : WorkloadReceipt)
      → run_configured p x e t workload_id cutpoint run_id s ≡ (ok w, s')
      → IsIssued w.handle
  unfolding run_configured
  configured-IsIssued missing workload_id cutpoint run_id s s' w h = absurd (ground (arith, h))
  configured-IsIssued invalid workload_id cutpoint run_id s s' w h = absurd (ground (arith, h))
  configured-IsIssued (budget n) workload_id cutpoint run_id s s' w h =
      with-IsIssued n e.service workload_id cutpoint run_id s s' w h

  -- If encodings are decoded again and have no dot: the handle in the receipt of a run that
  -- returns is valid for the engine's session and epoch and each of its views, and for no grant in
  -- another epoch.
  pub run_handle_is_authorised :
      (workload_id : String) (cutpoint : Option String) (run_id : ℕ) (s s' : Store)
      (w : WorkloadReceipt) (view : String) (later : ℕ) (g : Grant)
      → IsReliable x
      → run p x e workload_id cutpoint run_id s ≡ (ok w, s')
      → contains view views ≡ true
      → e.trace_epoch ≢ later
      → ((given : Grant) × (validate x e.trace_authority w.handle e.session_id e.trace_epoch view
              none
            ≡ ok given))
        × (validate x e.trace_authority w.handle e.session_id later view none ≢ ok g)
  unfolding run
  run_handle_is_authorised workload_id cutpoint run_id s s' w view later g r h v older =
      let i = configured-IsIssued e.settings workload_id cutpoint run_id s s' w h in
      let c = record (context p x e i.workload_id i.run_id i.tick i.selectors) {
        alias = i.alias;
      } in
      rw i.issued (
        (grant_of c, issued_is_valid x e.trace_authority c view r v),
        stale_is_refused x e.trace_authority c e.session_id later view none g r older,
      )
