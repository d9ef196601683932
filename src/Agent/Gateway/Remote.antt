-- ===== src/Agent/Gateway/Remote.antt =====
-- Calls over the gateway (src/agent_surface/gateway.py) against calls of the session itself.
use frontier_long_horizon_en.Prelude.{
  ℕ, ◌+◌, String, ◌≡◌, refl, some, List, [], ◌∷◌, Result, ok, err, length, arith, ap, ◌∙◌, eq_refl,
}
use frontier_long_horizon_en.Agent.Gateway.{
  ToolException, tool_error, runtime_error, value_error, type_error, key_error, other_error,
  Arguments, object_sent, object_line, Method, Process, running, Request, Response, Json, Tools,
  dispatch, error_of, reply_of, attempt, handle, after, serve_line, exchange,
}
use frontier_long_horizon_en.Agent.Gateway.Client.{
  Call, release_status, workspace_read, workspace_edit, telemetry_logs, telemetry_trace,
  state_inspect, runtime_run, recovery_pause, recovery_restore, release_rollback, release_deploy,
  recovery_resume, leak_probe, tool_of, arguments_of, Client, outcome_of, received, call, call_all,
}

-- JSON that is printed is read again.
pub record IsReliable {ℓ} {J : Type ℓ} (j : Json J) : Type ℓ where
  pub loads_request-dumps : (r : Request) → j.loads_request (j.dumps_request r) ≡ object_line r
  pub loads_response-dumps : (r : Response J) → j.loads_response (j.dumps_response r) ≡ some r

module _ {ℓ} {J S : Type ℓ} (j : Json J) (t : Tools J S) (str_of : ℕ → String) where
  -- The method of the session that a call stands for.
  abbrev pub method_of : Call → Method J S
  method_of release_status = t.release_status
  method_of (workspace_read path) = t.workspace_read
  method_of (workspace_edit path content) = t.workspace_edit
  method_of (telemetry_logs alias window) = t.telemetry_logs
  method_of (telemetry_trace handle) = t.telemetry_trace
  method_of (state_inspect source selector view) = t.state_inspect
  method_of (runtime_run workload_id cutpoint) = t.runtime_run
  method_of recovery_pause = t.recovery_pause
  method_of (recovery_restore snapshot_id) = t.recovery_restore
  method_of (release_rollback revision) = t.release_rollback
  method_of release_deploy = t.release_deploy
  method_of recovery_resume = t.recovery_resume
  method_of leak_probe = t.leak_probe

  -- What a caller on the other side sees of a result: each exception as a `ToolError`.
  abbrev pub seen : Result ToolException J → Result ToolException J
  seen (ok result) = ok result
  seen (err (tool_error code message)) = err (tool_error code message)
  seen (err (runtime_error message)) = err (tool_error "tool_execution_failed" message)
  seen (err _) = err (tool_error "tool_execution_failed" "tool execution failed")

  -- The calls made on the session itself.
  abbrev pub apply_all : List Call → S → List (Result ToolException J) × S
  apply_all [] s = ([], s)
  apply_all (x ∷ xs) s =
      let (result, s') = method_of x (arguments_of x) s in
      let (results, last) = apply_all xs s' in (seen result ∷ results, last)

  abbrev pub client_at : ℕ → S → Client (Process S)
  client_at n s = record { request_id = n; pipes = running s }

  -- The controller calls the method, and goes on.
  reached :
      (x : Call) (arguments : Arguments) (s s' : S)
      → (dispatch j t (tool_of x) arguments s ≡ method_of x arguments s)
        × (after j t (some (tool_of x)) s' ≡ running s')
  unfolding dispatch after tool_of
  reached release_status arguments s s' = (refl, refl)
  reached (workspace_read path) arguments s s' = (refl, refl)
  reached (workspace_edit path content) arguments s s' = (refl, refl)
  reached (telemetry_logs alias window) arguments s s' = (refl, refl)
  reached (telemetry_trace handle) arguments s s' = (refl, refl)
  reached (state_inspect source selector view) arguments s s' = (refl, refl)
  reached (runtime_run workload_id cutpoint) arguments s s' = (refl, refl)
  reached recovery_pause arguments s s' = (refl, refl)
  reached (recovery_restore snapshot_id) arguments s s' = (refl, refl)
  reached (release_rollback revision) arguments s s' = (refl, refl)
  reached release_deploy arguments s s' = (refl, refl)
  reached recovery_resume arguments s s' = (refl, refl)
  reached leak_probe arguments s s' = (refl, refl)

  seen-reply : (r : Result ToolException J) → outcome_of (reply_of j t r) ≡ seen r
  unfolding outcome_of reply_of error_of
  seen-reply (ok result) = refl
  seen-reply (err (tool_error code message)) = refl
  seen-reply (err (runtime_error message)) = refl
  seen-reply (err value_error) = refl
  seen-reply (err type_error) = refl
  seen-reply (err key_error) = refl
  seen-reply (err other_error) = refl

  called :
      IsReliable j
      → (x : Call) (n : ℕ) (s : S)
      → call j str_of (exchange j t) (tool_of x) (arguments_of x) (client_at n s) ≡ (
        seen (method_of x (arguments_of x) s).0,
        client_at (n + 1) (method_of x (arguments_of x) s).1,
      )
  unfolding call exchange serve_line handle attempt received
  called rel x n s =
      let request : Request = record {
        id = some (str_of n);
        tool = some (tool_of x);
        arguments = object_sent (arguments_of x);
      } in
      let (result, s') = method_of x (arguments_of x) s in
      let response : Response J = record { id = str_of n; reply = reply_of j t result } in
      let (dispatched, runs) = reached x (arguments_of x) s s' in
      rw
        (
          rel.loads_request-dumps request,
          dispatched,
          rel.loads_response-dumps response,
          eq_refl (str_of n),
          seen-reply result,
          runs,
        )
        refl

  -- If JSON that is printed is read again: while the controller runs, any sequence of tool calls
  -- of the client gives, one for one, what the same calls on the session itself give, where an
  -- exception arrives as a `ToolError` with the code of its kind; the session is left in the same
  -- state, the controller still runs, and the count of requests has grown by the number of calls.
  pub remote_calls :
      IsReliable j
      → (xs : List Call) (n : ℕ) (s : S)
      → call_all j str_of (exchange j t) xs (client_at n s)
        ≡ ((apply_all xs s).0, client_at (n + length xs) (apply_all xs s).1)
  unfolding call_all
  remote_calls rel [] n s =
      let counted : n ≡ n + 0 = omega arith in ap (λ k. ([], client_at k s)) counted
  remote_calls rel (x ∷ xs) n s =
      let (result, s') = method_of x (arguments_of x) s in
      let counted : n + 1 + length xs ≡ n + length (x ∷ xs) = omega arith in
      ap
        (λ (r : Result ToolException J × Client (Process S)).
          let rest = call_all j str_of (exchange j t) xs r.1 in (r.0 ∷ rest.0, rest.1))
        (called rel x n s)
      ∙ ap (λ (r : List (Result ToolException J) × Client (Process S)). (seen result ∷ r.0, r.1))
          (remote_calls rel xs (n + 1) s')
      ∙ ap (λ k. (seen result ∷ (apply_all xs s').0, client_at k (apply_all xs s').1)) counted
