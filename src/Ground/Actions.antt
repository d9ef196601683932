-- ===== src/Ground/Actions.antt =====
-- src/training_ground/actions.py: the check of an action. A value is a JSON value: a text, a
-- dictionary, or the text of another value.
use frontier_long_horizon_en.Prelude.{
  String, Option, none, some, List, [], ◌∷◌, ◌==◌, if◌then◌else◌, contains, Result, ok, err, ◌>>=◌,
}

mutual
  pub data Value : Type 0 where
    text : String → Value
    dict : Fields → Value
    other : String → Value

  pub data Fields : Type 0 where
    no_fields : Fields
    field : String → Value → Fields → Fields

-- `EnvironmentError`, by the place that raises it.
pub data EnvironmentError : Type 0 where
  not_reset : EnvironmentError
  episode_ended : EnvironmentError
  action_is_no_dict : EnvironmentError
  unsupported_fields : List String → EnvironmentError
  tool_is_no_text : EnvironmentError
  unknown_tool : String → EnvironmentError
  arguments_are_no_dict : EnvironmentError
  no_prior_handle : EnvironmentError
  wrong_signature : String → EnvironmentError
  -- a `ToolError` of the gateway: the tool, its code and its text
  refused : String → String → String → EnvironmentError

-- `EnvironmentError.code`
abbrev pub code_of : EnvironmentError → String
code_of not_reset = "environment_error"
code_of episode_ended = "episode_ended"
code_of action_is_no_dict = "invalid_action"
code_of (unsupported_fields keys) = "invalid_action"
code_of tool_is_no_text = "invalid_action"
code_of (unknown_tool tool) = "unknown_tool"
code_of arguments_are_no_dict = "invalid_arguments"
code_of no_prior_handle = "invalid_arguments"
code_of (wrong_signature tool) = "invalid_arguments"
code_of (refused tool code message) = code

abbrev pub allowed_tools : List String
allowed_tools =
    "release.status" ∷ "workspace.read" ∷ "workspace.edit" ∷ "telemetry.logs" ∷ "telemetry.trace"
    ∷ "state.inspect" ∷ "runtime.run" ∷ "recovery.pause" ∷ "recovery.restore" ∷ "release.rollback"
    ∷ "release.deploy" ∷ "recovery.resume" ∷ []

abbrev pub allowed_action_keys : List String
allowed_action_keys = "tool" ∷ "arguments" ∷ []

unfoldable pub get : String → Fields → Option Value
get k no_fields = none
get k (field j v fs) = let rest = get k fs in if j == k then some v else rest

-- `set(action.keys()) - _ALLOWED_ACTION_KEYS`
unfoldable pub extra_keys : Fields → List String
extra_keys no_fields = []
extra_keys (field k v fs) =
    let rest = extra_keys fs in if contains k allowed_action_keys then rest else k ∷ rest

unfoldable pub arguments_in : Fields → Result EnvironmentError Fields
unfolding get
arguments_in fs = elim (get "arguments" fs) [
  | none ↦ ok no_fields
  | some (dict arguments) ↦ ok arguments
  | some (text t) ↦ err arguments_are_no_dict
  | some (other t) ↦ err arguments_are_no_dict
]

unfoldable pub tool_in : Fields → Result EnvironmentError String
unfolding get
tool_in fs = elim (get "tool" fs) [
  | some (text tool) ↦ if contains tool allowed_tools then ok tool else err (unknown_tool tool)
  | _ ↦ err tool_is_no_text
]

unfoldable pub keys_in : Fields → Result EnvironmentError (Unit {0})
unfolding extra_keys
keys_in fs = elim (extra_keys fs) [ [] ↦ ok tt | k ∷ ks ↦ err (unsupported_fields (k ∷ ks)) ]

-- The tool and its arguments.
unfoldable pub validate_action : Value → Result EnvironmentError (String × Fields)
unfolding keys_in tool_in arguments_in
validate_action (dict fs) = keys_in fs >>= λ checked.
    tool_in fs >>= λ tool. arguments_in fs >>= λ arguments. ok (tool, arguments)
validate_action (text t) = err action_is_no_dict
validate_action (other t) = err action_is_no_dict
