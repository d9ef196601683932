-- ===== src/Examples/Wires.antt =====
-- Calls over the gateway (src/agent_surface/gateway.py), with requests and responses as texts.
use frontier_long_horizon_en.Prelude.{
  ℕ, ◌+◌, String, ◌≡◌, refl, Option, none, some, List, [], ◌∷◌, ◌++◌, ok, err,
}
use frontier_long_horizon_en.Agent.Gateway.{
  Argument, text_value, window_value, selector_value, Sent, absent, object_sent, other_sent,
  Request, Reply, result_reply, error_reply, Response, Line, object_line, no_json, Json, Method,
  Tools, exchange, ToolException, runtime_error, type_error,
}
use frontier_long_horizon_en.Agent.Gateway.Client.{
  Call, workspace_edit, release_deploy, recovery_restore, call_all,
}
use frontier_long_horizon_en.Agent.Gateway.Remote.{IsReliable, remote_calls, apply_all, client_at}
use frontier_long_horizon_en.Examples.Codec.{Codec, number, text, pair, along, optional, listed}
use frontier_long_horizon_en.Examples.Instances.{spell, unspell, unspell-spell}

-- A value with one of three shapes, and how to tell them apart.
abbrev Shapes : Type 0
Shapes = Option String × (Option (ℕ × ℕ) × Option (List (String × String)))

abbrev argument_from : Shapes → Argument
argument_from (some s, rest) = text_value s
argument_from (none, (some (m, n), rest)) = window_value m n
argument_from (none, (none, some l)) = selector_value l
argument_from (none, (none, none)) = selector_value []

abbrev shapes_of : Argument → Shapes
shapes_of (text_value s) = (some s, (none, none))
shapes_of (window_value m n) = (none, (some (m, n), none))
shapes_of (selector_value l) = (none, (none, some l))

argument_back : (a : Argument) → argument_from (shapes_of a) ≡ a
argument_back (text_value s) = refl
argument_back (window_value m n) = refl
argument_back (selector_value l) = refl

argument : Codec Argument
argument = along argument_from shapes_of argument_back (
    pair (optional text)
      (pair (optional (pair number number)) (optional (listed (pair text text)))))

abbrev sent_from : Option (Option (List (String × Argument))) → Sent
sent_from none = absent
sent_from (some none) = other_sent
sent_from (some (some l)) = object_sent l

abbrev sent_parts : Sent → Option (Option (List (String × Argument)))
sent_parts absent = none
sent_parts other_sent = some none
sent_parts (object_sent l) = some (some l)

sent_back : (s : Sent) → sent_from (sent_parts s) ≡ s
sent_back absent = refl
sent_back other_sent = refl
sent_back (object_sent l) = refl

request : Codec Request
request =
    along (λ x. record { id = x.0; tool = x.1.0; arguments = sent_from x.1.1 })
      (λ r. (r.id, (r.tool, sent_parts r.arguments))) (λ r. rw (sent_back r.arguments) refl)
      (pair (optional text)
        (pair (optional text) (optional (optional (listed (pair text argument))))))

abbrev reply_from : Option String × (String × String) → Reply String
reply_from (some result, rest) = result_reply result
reply_from (none, (code, message)) = error_reply code message

abbrev reply_parts : Reply String → Option String × (String × String)
reply_parts (result_reply result) = (some result, ("", ""))
reply_parts (error_reply code message) = (none, (code, message))

reply_back : (r : Reply String) → reply_from (reply_parts r) ≡ r
reply_back (result_reply result) = refl
reply_back (error_reply code message) = refl

response : Codec (Response String)
response =
    along (λ x. record { id = x.0; reply = reply_from x.1 }) (λ r. (r.id, reply_parts r.reply))
      (λ r. rw (reply_back r.reply) refl) (pair text (pair (optional text) (pair text text)))

abbrev line_of : Option (Request × List ℕ) → Line
line_of none = no_json
line_of (some (r, rest)) = object_line r

abbrev response_of : Option (Response String × List ℕ) → Option (Response String)
response_of none = none
response_of (some (r, rest)) = some r

wire : Json String
wire = record {
  dumps_request = λ r. spell (request.put r []);
  loads_request = λ l. line_of (request.get (unspell l));
  dumps_response = λ r. spell (response.put r []);
  loads_response = λ l. response_of (response.get (unspell l));
  empty_object = "{}";
}

wire-IsReliable : IsReliable wire
unfolding wire
wire-IsReliable = record {
  loads_request-dumps = λ r. rw (unspell-spell (request.put r []), request.get-put r []) refl;
  loads_response-dumps = λ r. rw (unspell-spell (response.put r []), response.get-put r []) refl;
}

-- A session that keeps the names of the tools that returned.
abbrev kept : String → Method String (List String)
kept name arguments s = (ok name, s ++ name ∷ [])

abbrev raised : ToolException → Method String (List String)
raised e arguments s = (err e, s)

abbrev tools : Tools String (List String)
tools = record {
  release_status = kept "release.status";
  workspace_read = kept "workspace.read";
  workspace_edit = kept "workspace.edit";
  telemetry_logs = kept "telemetry.logs";
  telemetry_trace = raised type_error;
  state_inspect = kept "state.inspect";
  runtime_run = kept "runtime.run";
  recovery_pause = kept "recovery.pause";
  recovery_restore = raised (runtime_error "intake must be paused before restoration");
  release_rollback = kept "release.rollback";
  release_deploy = kept "release.deploy";
  recovery_resume = kept "recovery.resume";
  leak_probe = kept "system.leak_probe";
}

abbrev calls : List Call
calls = workspace_edit "service/flow.py" "flow" ∷ recovery_restore "S0" ∷ release_deploy ∷ []

abbrev digits : ℕ → String
digits n = "n"

remote_calls_example :
    call_all wire digits (exchange wire tools) calls (client_at wire tools digits 0 []) ≡ (
      (apply_all wire tools digits calls []).0,
      client_at wire tools digits (0 + 3) (apply_all wire tools digits calls []).1,
    )
remote_calls_example = remote_calls wire tools digits wire-IsReliable calls 0 []
