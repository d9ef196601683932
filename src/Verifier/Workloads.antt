-- ===== src/Verifier/Workloads.antt =====
-- src/strict_verifier/workloads.py: the registry of workloads, each with its cutpoint.
use frontier_long_horizon_en.Prelude.{
  ℕ, String, Option, none, some, List, [], ◌∷◌, nat_eq, if◌then◌else◌,
}

abbrev pub Workload : Type 0
Workload = String × Option String

abbrev pub shared_hidden_workloads : List String
shared_hidden_workloads = "H-TRANS" ∷ "H-S1" ∷ "H-S2" ∷ "H-S3" ∷ []

abbrev pub member_a_workloads : List Workload
member_a_workloads =
    ("H-A1", some "s5.exit") ∷ ("H-A2", none) ∷ ("H-A3", none) ∷ ("H-A4", some "s5.exit") ∷ []

abbrev pub member_b_workloads : List Workload
member_b_workloads =
    ("H-B1", some "s2.exit") ∷ ("H-B2", none) ∷ ("H-B3", none) ∷ ("H-B4", none) ∷ []

-- `none` where the source raises.
unfoldable pub member_workloads : ℕ → Option (List Workload)
member_workloads profile =
    if nat_eq profile 0
    then some member_a_workloads
    else if nat_eq profile 1
    then some member_b_workloads
    else none

-- A workload without a cutpoint, as `grade` runs the public and the shared ones.
abbrev pub without_cutpoint : List String → List Workload
without_cutpoint [] = []
without_cutpoint (w ∷ ws) = (w, none) ∷ without_cutpoint ws
