-- ===== src/Agent/Fixture/Public.antt =====
-- The two profiles of the incident (src/event_service_substrate/instance.py) look alike.
use frontier_long_horizon_en.Prelude.{◌≡◌, refl, not, Bool-cases, inl, inr, Result, ok, err}
use frontier_long_horizon_en.Substrate.Canonical.{Primitives}
use frontier_long_horizon_en.Substrate.Authority.{RecoveryAuthority}
use frontier_long_horizon_en.Substrate.Store.{
  deployment_root, runtime_root, telemetry_root, audit_root, snapshot_root,
}
use frontier_long_horizon_en.Agent.Session.{Workspace, config_file, read_bytes}
use frontier_long_horizon_en.Agent.Fixture.{
  FixtureError, Fixture, build_fixture, copy_workspace, same_bytes, settings, seeded,
}
use frontier_long_horizon_en.Agent.Fixture.Views.{Readers, PublicView, public_view}

module _ (p : Primitives) (a : RecoveryAuthority) (q : Readers) where
  -- What is shown of a fixture, if it is built.
  abbrev pub shown : Result FixtureError Fixture → Result FixtureError (PublicView p q)
  shown (err e) = err e
  shown (ok x) = public_view p q x

  seeded_alike : (w : Workspace) → shown (seeded p a w 0) ≡ shown (seeded p a w 1)
  unfolding seeded public_view deployment_root runtime_root telemetry_root audit_root snapshot_root
  seeded_alike w = refl

  -- Whatever the template, the fixtures of the two profiles show the public the same: the same
  -- files, the same status with its logs, count of effects and shared roots, the same difference
  -- of revisions, or the same error.
  pub profiles_look_alike :
      (template : Workspace)
      → shown (build_fixture p a template 0) ≡ shown (build_fixture p a template 1)
  unfolding build_fixture public_view
  profiles_look_alike template =
      elim (Bool-cases
        (not (same_bytes (read_bytes config_file (copy_workspace template)) (settings p 1)))) [
          | inl e ↦ rw e refl
          | inr e ↦ rw e (seeded_alike (copy_workspace template))
        ]
