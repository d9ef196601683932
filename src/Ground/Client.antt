-- ===== src/Ground/Client.antt =====
-- The tool call of a step, in src/training_ground/episode.py and actions.py, and the termination
-- test of src/training_ground/observations.py. The gateway's client is a parameter, with its own
-- state; so are the sizes and digests of JSON values.
use frontier_long_horizon_en.Prelude.{
  ℕ, String, Bool, false, not, ◌&&◌, Option, none, some, ◌==◌, if◌then◌else◌, Result, ok, err,
}
use frontier_long_horizon_en.Ground.Actions.{
  Value, text, dict, other, Fields, no_fields, field, EnvironmentError, no_prior_handle,
  wrong_signature, refused, get, validate_action,
}
use frontier_long_horizon_en.Verifier.Checks.{Materials}

-- The fields of a status that the environment looks at.
pub record Status : Type 0 where
  pub session_id : String
  pub tick : ℕ
  pub incident : String
  pub public_canary : String

-- `is_terminated`
unfoldable pub is_terminated : Status → Bool
is_terminated s = (s.incident == "closed") && (s.public_canary == "pass")

-- What a call of the client comes to: a value, a `ToolError`, or an `OSError`.
pub data Reply : Type 0 where
  replied : Value → Reply
  tool_error : String → String → Reply
  lost : Reply

-- The client of the gateway, `G` being the state of the process behind it, and the disk that a
-- verifier finds.
pub record Client (G : Type 0) : Type 0 where
  -- whether the arguments fit the method of a tool
  pub binds : String → Fields → Bool
  pub call : String → Fields → G → Reply × G
  -- `none` where the call raises
  pub release_status : G → Option Status × G
  pub materials : G → Materials

-- The sizes and digests of JSON values, and the dictionary of an error.
pub record Encoding : Type 0 where
  pub action_bytes : Value → ℕ
  pub result_bytes : Value → ℕ
  pub text_of : Value → String
  pub arguments_digest : Fields → String
  pub result_digest : Value → String
  pub error_result : EnvironmentError → Value
  pub gateway_unavailable : Value

-- How the tool call of a step went.
pub data Attempt : Type 0 where
  answered : String → Fields → Value → Attempt
  raised : String → Fields → EnvironmentError → Attempt
  broken : String → Fields → Attempt

module _ (e : Encoding) where
  -- The tool and the arguments that are recorded if the action is not valid.
  unfoldable pub raw_tool : Value → String
  unfolding get
  raw_tool (dict fs) = elim (get "tool" fs) [ none ↦ "unknown" | some v ↦ e.text_of v ]
  raw_tool (text t) = "unknown"
  raw_tool (other t) = "unknown"

  unfoldable pub raw_arguments : Value → Fields
  unfolding get
  raw_arguments (dict fs) = elim (get "arguments" fs) [
    | some (dict arguments) ↦ arguments
    | _ ↦ no_fields
  ]
  raw_arguments (text t) = no_fields
  raw_arguments (other t) = no_fields

  unfoldable pub request_bytes : Value → ℕ
  request_bytes (dict fs) = e.action_bytes (dict fs)
  request_bytes (text t) = 0
  request_bytes (other t) = 0

-- `{**arguments, "handle": handle}`
unfoldable pub with_handle : String → Fields → Fields
with_handle handle no_fields = field "handle" (text handle) no_fields
with_handle handle (field k v fs) =
    let rest = with_handle handle fs in
    if k == "handle" then field "handle" (text handle) fs else field k v rest

-- The handle `__from_previous__` stands for that of the last run.
unfoldable pub fill_handle : Option String → String → Fields → Result EnvironmentError Fields
unfolding get with_handle
fill_handle previous tool arguments =
    let asked : Bool = elim (get "handle" arguments) [
      | some (text t) ↦ t == "__from_previous__"
      | _ ↦ false
    ] in
    if (tool == "telemetry.trace") && asked
    then elim previous [
      | none ↦ err no_prior_handle
      | some handle ↦
          if handle == "" then err no_prior_handle else ok (with_handle handle arguments)
    ]
    else ok arguments

-- The handle that a run returns is kept.
unfoldable pub keep_handle : String → Value → Option String → Option String
unfolding get
keep_handle tool (dict fs) previous =
    if tool == "runtime.run"
    then elim (get "handle" fs) [
      | some (text t) ↦ if t == "" then previous else some t
      | _ ↦ previous
    ]
    else previous
keep_handle tool (text t) previous = previous
keep_handle tool (other t) previous = previous

-- The error of a result, which the observation shows.
unfoldable pub error_in : Value → Option Value
unfolding get
error_in (dict fs) = get "error" fs
error_in (text t) = none
error_in (other t) = none

module _ {G : Type 0} (c : Client G) (e : Encoding) where
  -- `dispatch_action`
  unfoldable pub dispatch_action : String → Fields → G → Attempt × G
  dispatch_action tool arguments g =
      let (reply, g1) = c.call tool arguments g in
      if not (c.binds tool arguments)
      then (raised tool arguments (wrong_signature tool), g)
      else elim reply [
        | replied v ↦ (answered tool arguments v, g1)
        | tool_error code message ↦ (raised tool arguments (refused tool code message), g1)
        | lost ↦ (broken tool arguments, g1)
      ]

  -- The `try` statement around the call.
  unfoldable pub attempt : Value → Option String → G → Attempt × G
  unfolding dispatch_action fill_handle raw_tool raw_arguments
  attempt action previous g = elim (validate_action action) [
    | err x ↦ (raised (raw_tool e action) (raw_arguments e action) x, g)
    | ok (tool, arguments) ↦ elim (fill_handle previous tool arguments) [
      | err x ↦ (raised tool arguments x, g)
      | ok filled ↦ dispatch_action tool filled g
    ]
  ]
