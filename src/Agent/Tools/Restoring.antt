-- ===== src/Agent/Tools/Restoring.antt =====
-- A restoration in src/agent_surface/session.py calls for new runs of the public workloads.
use frontier_long_horizon_en.Prelude.{ℕ, String, ◌≡◌, false, arith, eq_refl, ok}
use frontier_long_horizon_en.Substrate.Canonical.{Primitives}
use frontier_long_horizon_en.Substrate.Authority.{RecoveryAuthority}
use frontier_long_horizon_en.Agent.Session.{Session, remove, all_public}
use frontier_long_horizon_en.Agent.Tools.{
  recovery_restore, restore_with, recovery_resume, resume_checked, resume_labelled, config_root,
  all_public_pass,
}
use frontier_long_horizon_en.Agent.Tools.Passes.{lookup-remove}

module _ (p : Primitives) (a : RecoveryAuthority) where
  passes_after :
      (i : String) (s : Session) (root : String) (t : Session)
      → recovery_restore p a i s ≡ (ok root, t)
      → (t.public_workload_pass ≡ remove (config_root p s.active) s.public_workload_pass)
        × (t.active ≡ s.active)
  unfolding recovery_restore restore_with
  passes_after i s root t h = (ground arith, ground arith)

  none_left :
      (s t : Session)
      → t.public_workload_pass ≡ remove (config_root p s.active) s.public_workload_pass
      → t.active ≡ s.active
      → all_public_pass p t ≡ false
  unfolding all_public_pass all_public
  none_left s t passes active =
      rw (passes, active)
        (ground (
          arith,
          lookup-remove (config_root p s.active) (config_root p s.active) s.public_workload_pass,
          eq_refl (config_root p s.active),
        ))

  no_resume :
      (t : Session) (m : ℕ) (u : Session)
      → all_public_pass p t ≡ false
      → recovery_resume p a t ≡ (ok m, u)
      → ⊥
  unfolding recovery_resume resume_checked resume_labelled
  no_resume t m u h e = ground arith

  -- A restoration that returns takes back the passes under the active configuration: they are not
  -- all there, and `recovery.resume` does not return on the session that it leaves.
  pub restore_takes_back_passes :
      (i : String) (s : Session) (root : String) (t : Session)
      → recovery_restore p a i s ≡ (ok root, t)
      → (all_public_pass p t ≡ false)
        × ((m : ℕ) (u : Session) → recovery_resume p a t ≡ (ok m, u) → ⊥)
  restore_takes_back_passes i s root t h =
      let (passes, active) = passes_after i s root t h in
      let cleared = none_left s t passes active in (cleared, λ m u e. no_resume t m u cleared e)
