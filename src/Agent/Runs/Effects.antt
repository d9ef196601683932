-- ===== src/Agent/Runs/Effects.antt =====
-- What a run of `RuntimeEngine` (src/agent_surface/runtime.py) leaves of the store.
use mathlib.Core.Path.{subst, ◌∙◌}
use frontier_long_horizon_en.Prelude.{ℕ, String, ◌≡◌, refl, sym, Option, List, Result, ok, err}
use frontier_long_horizon_en.Substrate.Tables.{TelemetryRow, SpanRow}
use frontier_long_horizon_en.Substrate.Canonical.{Primitives}
use frontier_long_horizon_en.Substrate.Store.{Store, append_telemetry}
use frontier_long_horizon_en.Agent.Runtime.{Stop, Run, new_run}
use frontier_long_horizon_en.Agent.Methods.{control}
use frontier_long_horizon_en.Agent.Flow.{
  Flow, logical_identity_flow, Policy, baseline, logical_identity, broad_event_dedup, intent_outbox,
  flow_of,
}
use frontier_long_horizon_en.Agent.Trace.{Codecs}
use frontier_long_horizon_en.Agent.Engine.Kept.{Keeps, KeptBy}
use frontier_long_horizon_en.Agent.Engine.Once.{IsOnce}
use frontier_long_horizon_en.Agent.Engine.Once.Stages.{logical_identity_flow-KeepsOnce}
use frontier_long_horizon_en.Agent.Engine.Frame.{
  Outside, outside, template_flow-Frames, logical_identity_flow-Frames,
  broad_event_dedup_flow-Frames, intent_outbox_flow-Frames,
}
use frontier_long_horizon_en.Agent.Workloads.{WorkloadReceipt}
use frontier_long_horizon_en.Agent.Probes.Kept.{
  run_public_workload-Keeps, run_cutpoint_diagnostic-Keeps,
}
use frontier_long_horizon_en.Agent.Probes.Hidden.Kept.{run_hidden_workload-Keeps}
use frontier_long_horizon_en.Agent.Runs.{
  Settings, missing, invalid, budget, Engine, Kind, public_workload, hidden_workload, diagnostic,
  kind_of, begin, run_kind, replace_handle, issue_capability, finish, run_loaded, run_admitted,
  run_serviced, run_configured, run,
}

-- A property of stores that telemetry and spans do not touch.
pub record IsRobust (Q : Store → Type 0) : Type 0 where
  pub spans : (s : Store) (l : List SpanRow) → Q s → Q (record s { trace_spans = l })
  pub telemetry : (s : Store) (l : List TelemetryRow) → Q s → Q (record s { telemetry = l })

module _ (Q : Store → Type 0) (p : Primitives) (x : Codecs) (e : Engine) (robust : IsRobust Q) where
  abbrev Holds : Run → Type 0
  Holds r = Q r.store

  run_kind-Keeps :
      (kind : Kind) (f : Flow) (root : String) (n : ℕ)
      → KeptBy Holds p f
      → Keeps Holds (run_kind kind p f root n)
  unfolding run_kind
  run_kind-Keeps public_workload f root n k = run_public_workload-Keeps Holds p f k root n
  run_kind-Keeps hidden_workload f root n k = run_hidden_workload-Keeps Holds p f k root n
  run_kind-Keeps diagnostic f root n k = run_cutpoint_diagnostic-Keeps Holds p f k root n

  begin-Holds :
      (w : String) (c : Option String) (n : ℕ) (s : Store) → Q s → Q (begin p x e w c n s).store
  unfolding begin control new_run append_telemetry
  begin-Holds w c n s h = robust.telemetry s _ h

  finish-Holds :
      (n : ℕ) (result : Result Stop WorkloadReceipt) (r : Run)
      → Holds r
      → Q (finish p x e n result r).1
  unfolding finish issue_capability replace_handle
  finish-Holds n (err stop) r h = h
  finish-Holds n (ok w) r h = robust.spans r.store _ h

  checked-Holds :
      (n : ℕ) (f : Flow) (kind : Result Stop Kind) (w : String) (c : Option String) (i : ℕ)
      (s : Store)
      → KeptBy Holds p f
      → Q s
      → Q (run_admitted p x e n f kind w c i s).1
  unfolding run_admitted run_loaded
  checked-Holds n f (err stop) w c i s k h = h
  checked-Holds n f (ok kind) w c i s k h = finish-Holds i _ _ (
      (run_kind-Keeps kind f e.active_config_root n k).at (begin p x e w c i s)
        (begin-Holds w c i s h))

  with-Holds :
      (n : ℕ) (service : Result Stop Flow) (w : String) (c : Option String) (i : ℕ) (s : Store)
      → ((f : Flow) → service ≡ ok f → KeptBy Holds p f)
      → Q s
      → Q (run_serviced p x e n service w c i s).1
  unfolding run_serviced
  with-Holds n (err stop) w c i s k h = h
  with-Holds n (ok f) w c i s k h = checked-Holds n f (kind_of w c) w c i s (k f refl) h

  configured-Holds :
      (t : Settings) (w : String) (c : Option String) (i : ℕ) (s : Store)
      → ((f : Flow) → e.service ≡ ok f → KeptBy Holds p f)
      → Q s
      → Q (run_configured p x e t w c i s).1
  unfolding run_configured
  configured-Holds missing w c i s k h = h
  configured-Holds invalid w c i s k h = h
  configured-Holds (budget n) w c i s k h = with-Holds n e.service w c i s k h

  -- Whatever is run, a property that the flow keeps is kept.
  pub run-Holds :
      (f : Flow) (w : String) (c : Option String) (i : ℕ) (s : Store)
      → e.service ≡ ok f
      → KeptBy Holds p f
      → Q s
      → Q (run p x e w c i s).1
  unfolding run
  run-Holds f w c i s loaded k h =
      configured-Holds e.settings w c i s (λ g same. subst (KeptBy Holds p) (same_flow g same) k) h
    where
      same_flow : (g : Flow) → e.service ≡ ok g → f ≡ g
      same_flow g same = cc (sym loaded ∙ same)

-- The rows of the service and what is outside of it are no spans and no telemetry.
IsOnce-IsRobust : IsRobust (λ s. IsOnce s.service)
IsOnce-IsRobust = record { spans = λ s l h. h; telemetry = λ s l h. h }

policy-Frames :
    (o : Outside) (p : Primitives) (t : Policy) → KeptBy (λ r. outside r.store ≡ o) p (flow_of p t)
unfolding flow_of
policy-Frames o p baseline = template_flow-Frames o p
policy-Frames o p logical_identity = logical_identity_flow-Frames o p
policy-Frames o p broad_event_dedup = broad_event_dedup_flow-Frames o p
policy-Frames o p intent_outbox = intent_outbox_flow-Frames o p

module _ (p : Primitives) (x : Codecs) (e : Engine) where
  -- If the workspace holds the repaired flow: from a store with at most one journal row for each
  -- command and occurrence, at most one effect for each event and key, and no empty id, a run
  -- leaves such a store, whichever workload and cutpoint it is asked for and whether it returns or
  -- raises.
  pub run-IsOnce :
      (w : String) (c : Option String) (i : ℕ) (s : Store)
      → e.service ≡ ok (logical_identity_flow p)
      → IsOnce s.service
      → IsOnce (run p x e w c i s).1.service
  run-IsOnce w c i s loaded h =
      run-Holds (λ s. IsOnce s.service) p x e IsOnce-IsRobust (logical_identity_flow p) w c i s
        loaded (logical_identity_flow-KeepsOnce p) h

  -- If the workspace holds a flow of the repository, a run leaves the snapshots, the recovery
  -- proofs, the deployments, the audit chain and the state of the intake as they were, whichever
  -- workload and cutpoint it is asked for and whether it returns or raises.
  pub outside-run :
      (t : Policy) (w : String) (c : Option String) (i : ℕ) (s : Store)
      → e.service ≡ ok (flow_of p t)
      → outside (run p x e w c i s).1 ≡ outside s
  outside-run t w c i s loaded =
      run-Holds (λ v. outside v ≡ outside s) p x e
        (record { spans = λ v l h. h; telemetry = λ v l h. h }) (flow_of p t) w c i s loaded
        (policy-Frames (outside s) p t) refl
