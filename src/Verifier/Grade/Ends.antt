-- ===== src/Verifier/Grade/Ends.antt =====
-- How `grade` of src/strict_verifier/verifier.py ends: early, with the episode invalid, or with the
-- store, the workspace and the workloads that it needs.
use frontier_long_horizon_en.Prelude.{
  ◌⊎◌, Bool-cases, Dict, List, Option, [], false, inl, inr, insert, lookup, lookup-insert, none,
  refl, some, sym, true, ◌≡◌,
}
use frontier_long_horizon_en.Substrate.Canonical.{Primitives}
use frontier_long_horizon_en.Substrate.Store.{Store}
use frontier_long_horizon_en.Ground.Transcript.{Hashing}
use frontier_long_horizon_en.Agent.Session.{Workspace, Receipt, EngineRun}
use frontier_long_horizon_en.Verifier.Reward.{Predicates}
use frontier_long_horizon_en.Verifier.Workloads.{Workload, member_workloads}
use frontier_long_horizon_en.Verifier.Workspaces.{is_file}
use frontier_long_horizon_en.Verifier.Checks.{Materials}
use frontier_long_horizon_en.Verifier.Replay.{Replay}
use frontier_long_horizon_en.Verifier.Grade.{
  ended, replay_members, replay_with, replay_active, replay_store, replay, provenance_check,
  graded_replay,
}

module _ (h : Hashing) (p : Primitives) (run : EngineRun) (m : Materials) where
  abbrev pub graded : Predicates
  graded = (graded_replay h p run m).predicates

  -- What `grade` needs to come to its end.
  pub record Ready : Type 0 where
    pub store : Store
    pub store_found : m.fixture_store ≡ some store
    pub workspace : Workspace
    pub workspace_found : m.active ≡ some workspace
    pub configured : is_file "service/settings.toml" (some workspace) ≡ true
    pub members : List Workload
    pub members_found : member_workloads m.profile ≡ some members

  valid_episode-provenance_check :
      (d : Predicates)
      → lookup "valid_episode" (provenance_check h p run m (insert "valid_episode" false d))
        ≡ some false
  unfolding provenance_check
  valid_episode-provenance_check d = rw (
    lookup-insert "integrity_provenance_pass" "valid_episode" _ (insert "valid_episode" false d),
    lookup-insert "valid_episode" "valid_episode" false d,
  )

  IsInvalid : Replay → Type 0
  IsInvalid r = lookup "valid_episode" (provenance_check h p run m r.predicates) ≡ some false

  ended-IsInvalid :
      (results : Dict Receipt) (d : Predicates) → IsInvalid (ended h p run m results d)
  unfolding IsInvalid
  ended-IsInvalid results d = valid_episode-provenance_check d

  members_cases :
      (o : Option (List Workload)) (w : Workspace) (r : Dict Receipt) (t : Store) (d : Predicates)
      → IsInvalid (replay_members h p run m o w r t d)
        ⊎ ((members : List Workload) × (o ≡ some members))
  unfolding replay_members
  members_cases none w r t d = inl (ended-IsInvalid r d)
  members_cases (some members) w r t d = inr (members, refl)

  with_cases :
      (w : Workspace) (t : Store) (d : Predicates)
      → IsInvalid (replay_with h p run m w t d)
        ⊎ ((members : List Workload) × (member_workloads m.profile ≡ some members))
  unfolding replay_with
  with_cases w t d = members_cases (member_workloads m.profile) w _ _ _

  active_cases :
      (o : Option Workspace) (t : Store) (d : Predicates)
      → IsInvalid (replay_active h p run m o t d)
        ⊎ ((w : Workspace) × (o ≡ some w)
            × (is_file "service/settings.toml" (some w) ≡ true)
            × ((members : List Workload) × (member_workloads m.profile ≡ some members)))
  unfolding replay_active
  active_cases none t d = inl (ended-IsInvalid [] d)
  active_cases (some w) t d = elim (Bool-cases (is_file "service/settings.toml" (some w))) [
    | inr missing ↦ inl (rw missing (ended-IsInvalid [] d))
    | inl settings ↦ elim (with_cases w t d) [
      | inl invalid ↦ inl (rw settings invalid)
      | inr found ↦ inr (w, refl, settings, found)
    ]
  ]

  store_cases :
      (o : Option Store) (d : Predicates)
      → o ≡ m.fixture_store
      → IsInvalid (replay_store h p run m o d) ⊎ Ready
  unfolding replay_store
  store_cases none d same = inl (ended-IsInvalid [] d)
  store_cases (some s) d same = elim (active_cases m.active _ _) [
    | inl invalid ↦ inl invalid
    | inr (w, found, settings, (members, profile)) ↦ inr (record {
      store = s;
      store_found = sym same;
      workspace = w;
      workspace_found = found;
      configured = settings;
      members = members;
      members_found = profile;
    })
  ]

  pub graded_cases : (lookup "valid_episode" graded ≡ some false) ⊎ Ready
  unfolding graded_replay replay IsInvalid
  graded_cases = store_cases m.fixture_store _ refl
