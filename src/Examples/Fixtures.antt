-- ===== src/Examples/Fixtures.antt =====
-- The theorems on src/event_service_substrate/instance.py at a template of two files.
use frontier_long_horizon_en.Prelude.{◌≡◌, refl, some, [], ◌∷◌, ok, arith}
use frontier_long_horizon_en.Substrate.Canonical.{Primitives, IsReliable}
use frontier_long_horizon_en.Substrate.Store.{initialize, state_root, pause_intake}
use frontier_long_horizon_en.Substrate.Recovery.{restore_snapshot}
use frontier_long_horizon_en.Agent.Session.{Workspace, config_file, read_bytes}
use frontier_long_horizon_en.Agent.Fixture.{Fixture, build_fixture, settings, copy_workspace}
use frontier_long_horizon_en.Agent.Fixture.Views.{Readers}
use frontier_long_horizon_en.Agent.Fixture.Public.{shown, profiles_look_alike}
use frontier_long_horizon_en.Agent.Fixture.Restorable.{fixture_can_be_restored}
use frontier_long_horizon_en.Examples.Instances.{spelled, spelled-IsReliable}
use frontier_long_horizon_en.Examples.Sessions.{authority}

-- Numbers are all written as one.
abbrev pub plain : Primitives
plain = record spelled { str_of = λ n. "1" }

pub plain-IsReliable : IsReliable plain
plain-IsReliable = record {
  loads_dumps = spelled-IsReliable.loads_dumps;
  order_idem = spelled-IsReliable.order_idem;
}

abbrev pub template : Workspace
template = (config_file, settings plain 1) ∷ ("service/flow.py", 1 ∷ 2 ∷ []) ∷ []

abbrev readers : Readers
readers = record { attempt_budget = λ l. some 1; unified_diff = λ l m. "-3 +1" }

profiles_look_alike_example :
    shown plain authority readers (build_fixture plain authority template 0)
    ≡ shown plain authority readers (build_fixture plain authority template 1)
profiles_look_alike_example = profiles_look_alike plain authority readers template

pub settings_kept : read_bytes config_file (copy_workspace template) ≡ settings plain 1
unfolding copy_workspace settings read_bytes
settings_kept = refl

fixture_can_be_restored_example :
    (x : Fixture) × (build_fixture plain authority template 1 ≡ ok x)
    × ((restore_snapshot plain authority "S0" (pause_intake plain authority x.store).1).0
        ≡ ok (state_root plain initialize))
    × ((restore_snapshot plain authority "S0" (pause_intake plain authority x.store).1).1.service
        ≡ plain.order_service initialize.service)
fixture_can_be_restored_example =
    fixture_can_be_restored plain authority plain-IsReliable template 1 (omega arith) settings_kept
