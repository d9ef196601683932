-- ===== src/Agent/Inspect/Expiry.antt =====
-- The expiry of trace capabilities: the tools of src/agent_surface/session.py that change what is
-- deployed or restore the state begin a new epoch, in which earlier tokens are refused.
use frontier_long_horizon_en.Prelude.{
  Bool, List, Result, String, [], ap, arith, err, false, if◌then◌else◌, none, ok, refl, true, ◌+◌,
  ◌∷◌, ◌≡◌, ◌≢◌, ◌≤◌,
}
use frontier_long_horizon_en.Substrate.Canonical.{Primitives}
use frontier_long_horizon_en.Substrate.Authority.{RecoveryAuthority}
use frontier_long_horizon_en.Substrate.Tables.{SpanRow, DeploymentRow}
use mathlib.Core.Path.{subst}
use frontier_long_horizon_en.Substrate.Errors.{Error}
use frontier_long_horizon_en.Substrate.Recovery.{restore_snapshot}
use frontier_long_horizon_en.Agent.Session.{message_of, remove, Session, ToolError}
use frontier_long_horizon_en.Agent.Tools.{
  after_metadata, config_root, restore_with, recovery_restore, rollback_one, release_rollback,
  release_deploy,
}
use frontier_long_horizon_en.Agent.Trace.{Codecs, TraceAuthority, Context, IsReliable, issue}
use frontier_long_horizon_en.Agent.Trace.Validity.{stale_is_refused}
use frontier_long_horizon_en.Agent.Inspect.{Sql, telemetry_trace}
use frontier_long_horizon_en.Agent.Inspect.Granted.{granted_then_ok}

-- A call that returns begins the next epoch.
Renews : {A : Type 0} → Session → Result ToolError A × Session → Type 0
Renews s (err e, t) = Unit
Renews s (ok v, t) = t.trace_epoch ≡ s.trace_epoch + 1

Renews-raised : (A : Type 0) (s t : Session) (e : ToolError) → Renews {A = A} s (err e, t)
unfolding Renews
Renews-raised A s t e = tt

if-Renews :
    {A : Type 0} (s : Session) (b : Bool) (u r : Result ToolError A × Session)
    → Renews s u
    → Renews s r
    → Renews s (if b then u else r)
if-Renews s true u r hu hr = hu
if-Renews s false u r hu hr = hr

-- With the session whose epoch is raised, which is not the one before the call.
after_metadata-Renews :
    {A : Type 0} (l : Result ToolError String) (v : A) (s t : Session)
    → t.trace_epoch ≡ s.trace_epoch
    → Renews s (after_metadata l v t)
unfolding Renews
after_metadata-Renews (err e) v s t same = tt
after_metadata-Renews (ok label) v s t same = ap (λ n. n + 1) same

module _ (p : Primitives) where
  release_deploy-Renews : (s : Session) → Renews s (release_deploy p s)
  unfolding release_deploy
  release_deploy-Renews s = search (if-Renews, Renews-raised, after_metadata-Renews)

  rollback_one-Renews : (rows : List DeploymentRow) (s : Session) → Renews s (rollback_one p rows s)
  unfolding rollback_one
  rollback_one-Renews [] s = Renews-raised _ s s _
  rollback_one-Renews (r ∷ []) s = search (if-Renews, Renews-raised, after_metadata-Renews)
  rollback_one-Renews (r ∷ q ∷ rows) s = Renews-raised _ s s _

  release_rollback-Renews : (i : String) (s : Session) → Renews s (release_rollback p i s)
  unfolding release_rollback
  release_rollback-Renews i s = search (if-Renews, Renews-raised, rollback_one-Renews)

  restore_with-Renews :
      (a : RecoveryAuthority) (i : String) (s : Session) → Renews s (restore_with p a i s)
  unfolding restore_with Renews
  restore_with-Renews a i s = finish (restore_snapshot p a i s.store).0
    where
      finish :
          (r : Result Error String)
          → Renews {A = String} s (elim r [
            | err e ↦ (err (message_of e), record s { store = (restore_snapshot p a i s.store).1 })
            | ok root ↦ (
              ok root,
              record s {
                store = (restore_snapshot p a i s.store).1;
                public_workload_pass = remove (config_root p s.active) s.public_workload_pass;
                trace_epoch = s.trace_epoch + 1;
              },
            )
          ])
      finish (err e) = tt
      finish (ok root) = refl

  recovery_restore-Renews :
      (a : RecoveryAuthority) (i : String) (s : Session) → Renews s (recovery_restore p a i s)
  unfolding recovery_restore
  recovery_restore-Renews a i s = search (if-Renews, Renews-raised, restore_with-Renews)

-- A call that returns, of a tool that begins a new epoch.
pub data Renewal (p : Primitives) (authority : RecoveryAuthority) (s t : Session) : Type 0 where
  by_deploy : (v : String × String) → release_deploy p s ≡ (ok v, t) → Renewal p authority s t
  by_rollback :
      (i : String) (v : String × String)
      → release_rollback p i s ≡ (ok v, t)
      → Renewal p authority s t
  by_restore :
      (i root : String) → recovery_restore p authority i s ≡ (ok root, t) → Renewal p authority s t

module _ (p : Primitives) (authority : RecoveryAuthority) (q : Sql) (x : Codecs)
    (a : TraceAuthority) where
  epoch-Renewal : (s t : Session) → Renewal p authority s t → t.trace_epoch ≡ s.trace_epoch + 1
  unfolding Renews
  epoch-Renewal s t (by_deploy v h) = subst (Renews s) h (release_deploy-Renews p s)
  epoch-Renewal s t (by_rollback i v h) = subst (Renews s) h (release_rollback-Renews p i s)
  epoch-Renewal s t (by_restore i root h) =
      subst (Renews s) h (recovery_restore-Renews p authority i s)

  -- If encodings are decoded again and have no dot: after a deployment, a rollback or a
  -- restoration that returns, `telemetry_trace` returns for no token that was issued in the epoch
  -- before the call or in an older one.
  pub earlier_tokens_expire :
      (s t : Session) (c : Context) (spans : List SpanRow)
      → IsReliable x
      → Renewal p authority s t
      → c.epoch ≤ s.trace_epoch
      → telemetry_trace p authority q x a (issue x a c) t ≢ ok spans
  unfolding telemetry_trace
  earlier_tokens_expire s t c spans r renewed older shown =
      let next = epoch-Renewal s t renewed in
      let (g, accepted, rest) = granted_then_ok _ _ spans shown in
      stale_is_refused x a c t.session_id t.trace_epoch "trace" none g r
        (λ same. omega (arith, same, next, older)) accepted
