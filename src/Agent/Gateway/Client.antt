-- ===== src/Agent/Gateway/Client.antt =====
-- `ToolClient` of src/agent_surface/gateway.py: the requests that its methods send, and what they
-- make of the answers. The text of a parse error is left out of the message that tells of it.
use frontier_long_horizon_en.Prelude.{
  ℕ, ◌+◌, String, Option, none, some, List, [], ◌∷◌, not, ◌==◌, if◌then◌else◌, Result, ok, err,
}
use frontier_long_horizon_en.Agent.Gateway.{
  ToolException, tool_error, Argument, text_value, window_value, selector_value, Arguments,
  object_sent, Reply, result_reply, error_reply, Json,
}

-- The methods of `ToolClient` that stand for a tool, with their arguments.
pub data Call : Type 0 where
  release_status : Call
  workspace_read : String → Call
  workspace_edit : String → String → Call
  telemetry_logs : String → Option (ℕ × ℕ) → Call
  telemetry_trace : String → Call
  state_inspect : String → List (String × String) → String → Call
  runtime_run : String → Option String → Call
  recovery_pause : Call
  recovery_restore : String → Call
  release_rollback : String → Call
  release_deploy : Call
  recovery_resume : Call
  leak_probe : Call

abbrev pub text_argument : String → String → String × Argument
text_argument name value = (name, text_value value)

unfoldable pub tool_of : Call → String
tool_of release_status = "release.status"
tool_of (workspace_read path) = "workspace.read"
tool_of (workspace_edit path content) = "workspace.edit"
tool_of (telemetry_logs alias window) = "telemetry.logs"
tool_of (telemetry_trace handle) = "telemetry.trace"
tool_of (state_inspect source selector view) = "state.inspect"
tool_of (runtime_run workload_id cutpoint) = "runtime.run"
tool_of recovery_pause = "recovery.pause"
tool_of (recovery_restore snapshot_id) = "recovery.restore"
tool_of (release_rollback revision) = "release.rollback"
tool_of release_deploy = "release.deploy"
tool_of recovery_resume = "recovery.resume"
tool_of leak_probe = "system.leak_probe"

unfoldable pub arguments_of : Call → Arguments
arguments_of (workspace_read path) = text_argument "path" path ∷ []
arguments_of (workspace_edit path content) =
    text_argument "path" path ∷ text_argument "content" content ∷ []
arguments_of (telemetry_logs alias none) = text_argument "alias" alias ∷ []
arguments_of (telemetry_logs alias (some (first, last))) =
    text_argument "alias" alias ∷ ("window", window_value first last) ∷ []
arguments_of (telemetry_trace handle) = text_argument "handle" handle ∷ []
arguments_of (state_inspect source selector view) =
    text_argument "source" source
    ∷ ("selector", selector_value selector)
    ∷ text_argument "view" view
    ∷ []
arguments_of (runtime_run workload_id none) = text_argument "workload_id" workload_id ∷ []
arguments_of (runtime_run workload_id (some cutpoint)) =
    text_argument "workload_id" workload_id ∷ text_argument "cutpoint" cutpoint ∷ []
arguments_of (recovery_restore snapshot_id) = text_argument "snapshot_id" snapshot_id ∷ []
arguments_of (release_rollback revision) = text_argument "revision" revision ∷ []
arguments_of _ = []

-- The count of requests, and what is behind the pipes.
pub record Client {ℓ} (W : Type ℓ) : Type ℓ where
  pub request_id : ℕ
  pub pipes : W

-- An exception with the default code of `ToolError`.
abbrev pub plain_error : String → ToolException
plain_error message = tool_error "tool_error" message

unfoldable pub outcome_of {ℓ} : {J : Type ℓ} → Reply J → Result ToolException J
outcome_of (result_reply result) = ok result
outcome_of (error_reply code message) = err (tool_error code message)

-- `str` of a number, and the writing of a line with the reading of the next, which may find the
-- end of the file.
module _ {ℓ} {J W : Type ℓ} (j : Json J) (str_of : ℕ → String)
    (transport : String → W → Option String × W) where
  -- What `_call` makes of the line it has read.
  unfoldable pub received : String → Option String → Result ToolException J
  unfolding outcome_of
  received request_id none = err (plain_error "gateway closed connection")
  received request_id (some line) = elim (j.loads_response line) [
    | none ↦ err (plain_error "gateway returned invalid JSON")
    | some response ↦
        if not (response.id == request_id)
        then err (plain_error "gateway response id mismatch")
        else outcome_of response.reply
  ]

  -- `_call`
  unfoldable pub call : String → Arguments → Client W → Result ToolException J × Client W
  unfolding received
  call tool arguments c =
      let request_id = str_of c.request_id in
      let (line, w) =
        transport
          (j.dumps_request
            (record { id = some request_id; tool = some tool; arguments = object_sent arguments }))
          c.pipes in
      (received request_id line, record { request_id = c.request_id + 1; pipes = w })

  -- Calls one after another, with what each returns or raises.
  unfoldable pub call_all : List Call → Client W → List (Result ToolException J) × Client W
  unfolding call tool_of arguments_of
  call_all [] c = ([], c)
  call_all (x ∷ xs) c =
      let (result, c') = call (tool_of x) (arguments_of x) c in
      let (results, last) = call_all xs c' in (result ∷ results, last)

  -- `close`: a `ToolError` is passed over.
  unfoldable pub close : Client W → Client W
  unfolding call
  close c = (call "system.close" [] c).1
