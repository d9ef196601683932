-- ===== src/Verifier/Workspaces.antt =====
-- src/strict_verifier/reconstruct.py, and the search of `Verifier._session_touches_privileged`: what
-- the verifier reads from the workspaces of a session. A workspace whose directory is missing is
-- `none`.
use Prim.Native.Char.{code}
use frontier_long_horizon_en.Prelude.{
  String, Bool, true, false, ◌&&◌, ◌||◌, Option, none, some, List, [], ◌∷◌, nat_eq, ◌==◌,
  if◌then◌else◌, lookup,
}
use frontier_long_horizon_en.Substrate.Canonical.{Primitives}
use frontier_long_horizon_en.Agent.Session.{Workspace, config_file, code_files}
use frontier_long_horizon_en.Agent.Tools as Tools

-- `path.is_file()`
unfoldable pub is_file : String → Option Workspace → Bool
is_file path none = false
is_file path (some w) = elim (lookup path w) [ none ↦ false | some _ ↦ true ]

unfoldable pub all_files : List String → Option Workspace → Bool
unfolding is_file
all_files [] w = true
all_files (f ∷ fs) w = is_file f w && all_files fs w

module _ (p : Primitives) where
  -- `tree_root` raises where a file cannot be read, and `workspace_root` then returns None.
  unfoldable pub workspace_root : Option Workspace → Option String
  unfolding all_files
  workspace_root none = none
  workspace_root (some w) =
      if all_files code_files (some w) then some (Tools.workspace_root p w) else none

  unfoldable pub config_root : Option Workspace → Option String
  unfolding is_file
  config_root none = none
  config_root (some w) = if is_file config_file (some w) then some (Tools.config_root p w) else none

unfoldable pub candidate_is_deployed : Option String → Option String → Bool
candidate_is_deployed (some a) (some c) = a == c
candidate_is_deployed _ _ = false

-- `text.startswith(prefix)`, `part in text` and `text.endswith(suffix)`
abbrev pub starts_with : String → String → Bool
starts_with String.[] text = true
starts_with (String.◌∷◌ c cs) String.[] = false
starts_with (String.◌∷◌ c cs) (String.◌∷◌ d ds) = nat_eq (code c) (code d) && starts_with cs ds

abbrev pub occurs_in : String → String → Bool
occurs_in part String.[] = part == ""
occurs_in part (String.◌∷◌ d ds) = starts_with part (String.◌∷◌ d ds) || occurs_in part ds

abbrev pub ends_with : String → String → Bool
ends_with suffix String.[] = suffix == ""
ends_with suffix (String.◌∷◌ d ds) = suffix == String.◌∷◌ d ds || ends_with suffix ds

abbrev pub any_occurs : List String → String → Bool
any_occurs [] text = false
any_occurs (b ∷ bs) text = occurs_in b text || any_occurs bs text

-- `banned`, less the word that the test leaves out.
abbrev pub banned : List String
banned = "strict_verifier" ∷ "workloads.py" ∷ "service.sqlite3" ∷ []

abbrev pub path_is_privileged : String → Bool
path_is_privileged text =
    any_occurs banned text && (occurs_in "strict_verifier" text || ends_with "workloads.py" text)

-- The loop over the paths below the candidate and the active workspace, written with slashes and in
-- lower case.
unfoldable pub touches_privileged : List String → Bool
touches_privileged [] = false
touches_privileged (t ∷ ts) = path_is_privileged t || touches_privileged ts
