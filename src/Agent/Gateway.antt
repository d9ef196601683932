-- ===== src/Agent/Gateway.antt =====
-- The tool gateway (src/agent_surface/gateway.py): the requests of `ToolClient`, and the loop of
-- `_Controller` that answers them. JSON, and the tools of the session, are parameters.
pub mod Client
pub mod Remote
use Prim.Native.String.{◌++◌ as append_text}
use frontier_long_horizon_en.Prelude.{
  ℕ, String, Option, none, some, List, [], ◌∷◌, ◌==◌, if◌then◌else◌, lookup, Result, ok, err,
}

-- `ToolError` with its code and message, `RuntimeError`, the errors of values, types and keys, and
-- any other exception.
pub data ToolException : Type 0 where
  tool_error : String → String → ToolException
  runtime_error : String → ToolException
  value_error : ToolException
  type_error : ToolException
  key_error : ToolException
  other_error : ToolException

-- The arguments that the client sends.
pub data Argument : Type 0 where
  text_value : String → Argument
  window_value : ℕ → ℕ → Argument
  selector_value : List (String × String) → Argument

abbrev pub Arguments : Type 0
Arguments = List (String × Argument)

-- `request.get("arguments", {})`: absent, an object, or something else.
pub data Sent : Type 0 where
  absent : Sent
  object_sent : Arguments → Sent
  other_sent : Sent

-- A request that is an object, with a text or nothing under `id` and `tool`.
pub record Request : Type 0 where
  pub id : Option String
  pub tool : Option String
  pub arguments : Sent

-- What is under `result`, or under `error`.
pub data Reply {ℓ} (J : Type ℓ) : Type ℓ where
  result_reply : J → Reply J
  error_reply : String → String → Reply J

pub record Response {ℓ} (J : Type ℓ) : Type ℓ where
  pub id : String
  pub reply : Reply J

-- What a line holds: an object, another value of JSON, or no JSON.
pub data Line : Type 0 where
  object_line : Request → Line
  value_line : Line
  no_json : Line

pub record Json {ℓ} (J : Type ℓ) : Type ℓ where
  pub dumps_request : Request → String
  pub loads_request : String → Line
  pub dumps_response : Response J → String
  pub loads_response : String → Option (Response J)
  pub empty_object : J

-- A method of the session, called with keyword arguments.
abbrev pub Method {ℓ} : Type ℓ → Type ℓ → Type ℓ
Method J S = Arguments → S → Result ToolException J × S

-- The bound methods of `_Controller.__init__`.
pub record Tools {ℓ} (J S : Type ℓ) : Type ℓ where
  pub release_status : Method J S
  pub workspace_read : Method J S
  pub workspace_edit : Method J S
  pub telemetry_logs : Method J S
  pub telemetry_trace : Method J S
  pub state_inspect : Method J S
  pub runtime_run : Method J S
  pub recovery_pause : Method J S
  pub recovery_restore : Method J S
  pub release_rollback : Method J S
  pub release_deploy : Method J S
  pub recovery_resume : Method J S
  pub leak_probe : Method J S

-- How the loop goes on: with the next line, or not, since the connection is closed or since the
-- request has no method `get`.
pub data Process {ℓ} (S : Type ℓ) : Type ℓ where
  running : S → Process S
  closed : S → Process S
  crashed : S → Process S

module _ {ℓ} {J S : Type ℓ} (j : Json J) (t : Tools J S) where
  -- `self._tools`
  abbrev pub method_table : List (String × Method J S)
  method_table =
      ("release.status", t.release_status)
      ∷ ("workspace.read", t.workspace_read)
      ∷ ("workspace.edit", t.workspace_edit)
      ∷ ("telemetry.logs", t.telemetry_logs)
      ∷ ("telemetry.trace", t.telemetry_trace)
      ∷ ("state.inspect", t.state_inspect)
      ∷ ("runtime.run", t.runtime_run)
      ∷ ("recovery.pause", t.recovery_pause)
      ∷ ("recovery.restore", t.recovery_restore)
      ∷ ("release.rollback", t.release_rollback)
      ∷ ("release.deploy", t.release_deploy)
      ∷ ("recovery.resume", t.recovery_resume)
      ∷ ("system.leak_probe", t.leak_probe)
      ∷ []

  -- `_dispatch`
  unfoldable pub dispatch : String → Method J S
  dispatch tool arguments s =
      if tool == "system.close" then (ok j.empty_object, s) else elim (lookup tool method_table) [
        | none ↦ (err (tool_error "unknown_tool" (append_text "unknown tool " tool)), s)
        | some method ↦ method arguments s
      ]

  -- The handlers of `handle`.
  unfoldable pub error_of : ToolException → Reply J
  error_of (tool_error code message) = error_reply code message
  error_of (runtime_error message) = error_reply "tool_execution_failed" message
  error_of value_error = error_reply "tool_execution_failed" "tool execution failed"
  error_of type_error = error_reply "tool_execution_failed" "tool execution failed"
  error_of key_error = error_reply "tool_execution_failed" "tool execution failed"
  error_of other_error = error_reply "tool_execution_failed" "tool execution failed"

  unfoldable pub reply_of : Result ToolException J → Reply J
  unfolding error_of
  reply_of (ok result) = result_reply result
  reply_of (err e) = error_of e

  -- The `try` block of `handle`.
  unfoldable pub attempt : Option String → Sent → S → Result ToolException J × S
  unfolding dispatch
  attempt none arguments s = (err key_error, s)
  attempt (some tool) absent s = dispatch tool [] s
  attempt (some tool) (object_sent arguments) s = dispatch tool arguments s
  attempt (some tool) other_sent s =
      (err (tool_error "invalid_arguments" "arguments must be an object"), s)

  abbrev pub id_of : Option String → String
  id_of none = "unknown"
  id_of (some id) = id

  unfoldable pub handle : Request → S → Response J × S
  unfolding attempt reply_of
  handle request s =
      let (result, s') = attempt request.tool request.arguments s in
      (record { id = id_of request.id; reply = reply_of result }, s')

  unfoldable pub after : Option String → S → Process S
  after none s = running s
  after (some tool) s = if tool == "system.close" then closed s else running s

  -- The body of the loop of `serve`: the line that it writes, if any, and how it goes on.
  unfoldable pub serve_line : Line → S → Option String × Process S
  unfolding handle after
  serve_line no_json s = (
    some (
        j.dumps_response
          (record { id = "unknown"; reply = error_reply "invalid_json" "invalid JSON" })),
    running s,
  )
  serve_line value_line s = (none, crashed s)
  serve_line (object_line request) s =
      let (response, s') = handle request s in
      (some (j.dumps_response response), after request.tool s')

  -- What is written for a line: a process that has ended reads no more.
  unfoldable pub exchange : String → Process S → Option String × Process S
  unfolding serve_line
  exchange line (running s) = serve_line (j.loads_request line) s
  exchange line (closed s) = (none, closed s)
  exchange line (crashed s) = (none, crashed s)

  abbrev pub written : Option String → List String → List String
  written none lines = lines
  written (some line) lines = line ∷ lines

  -- `serve`, from the lines of the input to those of the output.
  unfoldable pub serve : List String → Process S → List String × Process S
  unfolding exchange
  serve [] c = ([], c)
  serve (line ∷ lines) c =
      let (out, c') = exchange line c in
      let (outs, last) = serve lines c' in (written out outs, last)
