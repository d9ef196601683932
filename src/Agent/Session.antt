-- ===== src/Agent/Session.antt =====
-- `AgentSession` of src/agent_surface/session.py: the tools that change the session, with their
-- guards. Not modelled: the metadata file, which nothing reads back, and the reading tools but for
-- `release_status`. Proofs are in the modules below.
use frontier_long_horizon_en.Prelude.{
  ℕ, String, Bool, ◌&&◌, Option, none, some, List, [], ◌∷◌, ◌==◌, if◌then◌else◌, Dict, lookup,
  contains, Result, ok, err,
}
use frontier_long_horizon_en.Substrate.Errors.{Error, runtime_error, value_error, integrity_error}
use frontier_long_horizon_en.Substrate.Tables.{DeploymentRow}
use frontier_long_horizon_en.Substrate.Store.{Store}

-- The files of a directory. The files that are read are there: the template has them, and no tool
-- removes one.
abbrev pub Workspace : Type 0
Workspace = Dict (List ℕ)

abbrev pub config_file : String
config_file = "service/settings.toml"

-- `CODE_FILES`, in the order that `tree_root` sorts them into.
abbrev pub code_files : List String
code_files =
    "service/contract.md" ∷ "service/flow.py" ∷ "service/runtime.py" ∷ "service/store.py" ∷ []

unfoldable pub read_bytes : String → Workspace → List ℕ
read_bytes path w = elim (lookup path w) [ none ↦ [] | some bytes ↦ bytes ]

-- The parts of a receipt of `_build_receipt` that the session looks at.
pub record Receipt : Type 0 where
  pub workload_id : String
  pub outcome : String
  pub active_config_root : String

pub record Session : Type 0 where
  pub session_id : String
  pub store : Store
  pub active : Workspace
  pub candidate : Workspace
  pub initial : Workspace
  pub workload_history : List Receipt
  pub public_workload_pass : Dict (List String)
  pub trace_epoch : ℕ

-- The text of a `ToolError`.
abbrev pub ToolError : Type 0
ToolError = String

-- A tool gives its answer or raises, and leaves a session.
abbrev pub Tool : Type 0 → Type 0
Tool A = Session → Result ToolError A × Session

-- What a run of the engine is given: the code of the active workspace is the candidate's own, so
-- what it does to the store is a parameter.
pub record EngineCall : Type 0 where
  pub workspace : Workspace
  pub session_id : String
  pub trace_epoch : ℕ
  pub workload_id : String
  pub cutpoint : Option String
  pub run_id : ℕ

abbrev pub EngineRun : Type 0
EngineRun = EngineCall → Store → Result ToolError Receipt × Store

abbrev pub public_workloads : List String
public_workloads = "P1" ∷ "P2" ∷ "P3" ∷ []

-- `{"P1", "P2", "P3"} <= passes`
unfoldable pub all_public : List String → Bool
all_public passes = contains "P1" passes && (contains "P2" passes && contains "P3" passes)

abbrev pub passes_at : String → Dict (List String) → List String
passes_at root d = elim (lookup root d) [ none ↦ [] | some l ↦ l ]

-- `d.pop(k, None)`
unfoldable pub remove : String → Dict (List String) → Dict (List String)
remove k [] = []
remove k ((j, v) ∷ d) = let rest = remove k d in if j == k then rest else (j, v) ∷ rest

abbrev pub message_of : Error → String
message_of (runtime_error m) = m
message_of (value_error m) = m
message_of integrity_error = "integrity error"

-- The revisions whose status is `active`.
unfoldable pub active_revisions : List DeploymentRow → List String
active_revisions [] = []
active_revisions (r ∷ rs) =
    let rest = active_revisions rs in if r.status == "active" then r.revision ∷ rest else rest

-- `_active_revision_label`
unfoldable pub active_revision_label : Store → Result ToolError String
unfolding active_revisions
active_revision_label s = elim (active_revisions s.deployments) [
  | r ∷ [] ↦ ok r
  | _ ↦ err "active revision is not unique"
]

unfoldable pub find_revisions : String → List DeploymentRow → List DeploymentRow
find_revisions k [] = []
find_revisions k (r ∷ rs) =
    let rest = find_revisions k rs in if r.revision == k then r ∷ rest else rest

-- `UPDATE deployments SET status = 'available'`
unfoldable pub set_available : List DeploymentRow → List DeploymentRow
set_available [] = []
set_available (r ∷ rs) = record r { status = "available" } ∷ set_available rs

-- `UPDATE … SET status = 'active', activated_tick = ? WHERE revision = ?`
unfoldable pub activate_at : String → ℕ → List DeploymentRow → List DeploymentRow
activate_at k tick [] = []
activate_at k tick (r ∷ rs) =
    (if r.revision == k then record r { status = "active"; activated_tick = tick } else r)
    ∷ activate_at k tick rs

-- `UPDATE deployments SET status = 'active' WHERE revision = 'candidate'`
unfoldable pub activate : String → List DeploymentRow → List DeploymentRow
activate k [] = []
activate k (r ∷ rs) =
    (if r.revision == k then record r { status = "active" } else r) ∷ activate k rs

-- The UPDATE of the artifact of the candidate.
unfoldable pub replace_artifact :
    String → String → String → List ℕ → ℕ → List DeploymentRow → List DeploymentRow
replace_artifact k code config bytes tick [] = []
replace_artifact k code config bytes tick (r ∷ rs) =
    (if r.revision == k
      then record r {
        code_root = code;
        config_root = config;
        config_bytes = bytes;
        activated_tick = tick;
      }
      else r)
    ∷ replace_artifact k code config bytes tick rs
