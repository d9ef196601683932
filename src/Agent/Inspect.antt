-- ===== src/Agent/Inspect.antt =====
-- The reading tools of `AgentSession` (src/agent_surface/session.py): `telemetry_logs`,
-- `telemetry_trace` and `state_inspect`. They change nothing, so each is a function of the session.
-- LIKE and the ORDER BY clauses with ties are parameters. Proofs are in the modules below.
pub mod Granted
pub mod Expiry
use frontier_long_horizon_en.Prelude.{
  ℕ, zero, suc, ◌+◌, String, Bool, true, false, not, ◌&&◌, ◌||◌, Option, none, some, List, [], ◌∷◌,
  ltb, leb, ◌==◌, if◌then◌else◌, contains, join, lookup, Result, ok, err,
}
use frontier_long_horizon_en.Substrate.Tables.{
  JournalRow, EffectRow, KeyRow, SnapshotRow, TelemetryRow, SpanRow,
}
use frontier_long_horizon_en.Substrate.Canonical.{Primitives}
use frontier_long_horizon_en.Substrate.Authority.{RecoveryAuthority}
use frontier_long_horizon_en.Substrate.Store.{Store, find_snapshot, snapshot_is_valid}
use frontier_long_horizon_en.Agent.Runtime.{effects_of}
use frontier_long_horizon_en.Agent.Session.{Session, ToolError}
use frontier_long_horizon_en.Agent.Trace.{Codecs, TraceAuthority, Selector, Grant, validate}

abbrev pub max_log_lines : ℕ
max_log_lines = 100

abbrev pub max_trace_spans : ℕ
max_trace_spans = 100

abbrev pub max_inspect_rows : ℕ
max_inspect_rows = 10

abbrev pub session_views : List String
session_views = "journal" ∷ "effects" ∷ "keys" ∷ "progress" ∷ "recovery" ∷ []

-- sqlite3: `message LIKE pattern`, `ORDER BY t` over the groups of handles with their first ticks,
-- and `ORDER BY committed_tick`.
pub record Sql : Type 0 where
  pub like : String → String → Bool
  pub order_handles : List (String × ℕ) → List (String × ℕ)
  pub order_effects : List EffectRow → List EffectRow

-- `LIMIT n`, and `rows[:n]`
abbrev pub limit {ℓ} : {A : Type ℓ} → ℕ → List A → List A
limit zero xs = []
limit (suc n) [] = []
limit (suc n) (x ∷ xs) = x ∷ limit n xs

-- `isinstance(selector.get(k), str)`
unfoldable pub text_at : String → Selector → Option String
text_at k s = elim (lookup k s) [ none ↦ none | some v ↦ v ]

module _ (q : Sql) where
  abbrev pub pattern_for : String → String
  pattern_for alias = join ("%alias=" ∷ alias ∷ "%" ∷ [])

  -- The public rows for an alias.
  unfoldable pub public_rows : String → List TelemetryRow → List TelemetryRow
  public_rows alias [] = []
  public_rows alias (r ∷ rs) =
      let rest = public_rows alias rs in
      if (r.channel == "public") && q.like (pattern_for alias) r.message then r ∷ rest else rest

-- `SELECT MIN(tick), MAX(tick)`
unfoldable pub tick_bounds : List TelemetryRow → Option (ℕ × ℕ)
tick_bounds [] = none
tick_bounds (r ∷ rs) =
    let rest = tick_bounds rs in
    elim rest [
      | none ↦ some (r.tick, r.tick)
      | some (low, high) ↦
          some (if ltb r.tick low then r.tick else low, if ltb high r.tick then r.tick else high)
    ]

unfoldable pub messages_between : ℕ → ℕ → List TelemetryRow → List String
messages_between start stop [] = []
messages_between start stop (r ∷ rs) =
    let rest = messages_between start stop rs in
    if leb start r.tick && leb r.tick stop then r.message ∷ rest else rest

abbrev pub is_alias : Option String → String → Bool
is_alias none alias = false
is_alias (some a) alias = a == alias

-- `GROUP BY correlation_handle`: one more span of a handle at a tick.
unfoldable pub add_to_group : String → ℕ → List (String × ℕ) → List (String × ℕ)
add_to_group h t [] = (h, t) ∷ []
add_to_group h t ((k, u) ∷ gs) =
    let rest = add_to_group h t gs in
    if k == h then (k, if ltb t u then t else u) ∷ gs else (k, u) ∷ rest

unfoldable pub handle_groups : String → ℕ → ℕ → List SpanRow → List (String × ℕ)
unfolding add_to_group
handle_groups alias start stop [] = []
handle_groups alias start stop (r ∷ rs) =
    let rest = handle_groups alias start stop rs in
    if is_alias r.alias alias && (leb start r.tick && leb r.tick stop)
    then add_to_group r.correlation_handle r.tick rest
    else rest

-- The result of `telemetry_logs`.
pub record Logs : Type 0 where
  pub alias : String
  pub window : ℕ × ℕ
  pub handle : String
  pub lines : List String

unfoldable pub spans_for : String → List SpanRow → List SpanRow
spans_for h [] = []
spans_for h (r ∷ rs) =
    let rest = spans_for h rs in if r.correlation_handle == h then r ∷ rest else rest

-- The rows of a view. Progress is the committed number of the only stream, `settlement`; a snapshot
-- comes with the verdict on it where the view is public.
pub data Rows : Type 0 where
  journal_rows : List JournalRow → Rows
  effects_rows : List EffectRow → Rows
  keys_rows : List KeyRow → Rows
  progress_rows : List ℕ → Rows
  recovery_rows : List (SnapshotRow × Option Bool) → Rows

unfoldable pub journal_of : String → List JournalRow → List JournalRow
journal_of i [] = []
journal_of i (r ∷ rs) = let rest = journal_of i rs in if r.event_id == i then r ∷ rest else rest

unfoldable pub keys_of : String → String → List KeyRow → List KeyRow
keys_of k o [] = []
keys_of k o (r ∷ rs) =
    let rest = keys_of k o rs in
    if (r.command_key == k) && (r.occurrence_id == o) then r ∷ rest else rest

unfoldable pub progress_of : Option String → Store → List ℕ
progress_of none s = []
progress_of (some stream) s = if stream == "settlement" then s.service.committed_seq ∷ [] else []

module _ (p : Primitives) (authority : RecoveryAuthority) where
  -- `_state_inspect_public`
  unfoldable pub inspect_public : Selector → String → Session → Result ToolError Rows
  unfolding text_at find_snapshot progress_of
  inspect_public selector view s =
      if view == "progress"
      then elim (text_at "stream" selector) [
        | none ↦ err "invalid progress selector"
        | some stream ↦
            if stream == "settlement"
            then ok (progress_rows (progress_of (some stream) s.store))
            else err "invalid progress selector"
      ]
      else if view == "recovery"
      then elim (text_at "snapshot_id" selector) [
        | none ↦ err "invalid recovery selector"
        | some i ↦ elim (find_snapshot i s.store.snapshots) [
          | none ↦ err "snapshot not found"
          | some r ↦ ok (recovery_rows ((r, some (snapshot_is_valid p authority i s.store)) ∷ []))
        ]
      ]
      else err "public stream not supported for this view"

module _ (q : Sql) where
  -- `_state_inspect_view`
  unfoldable pub inspect_view : Selector → String → Session → Result ToolError Rows
  unfolding text_at journal_of effects_of keys_of progress_of find_snapshot
  inspect_view selector view s =
      if view == "journal"
      then elim (text_at "event_id" selector) [
        | none ↦ err "journal view requires event_id selector"
        | some i ↦ ok (journal_rows (limit max_inspect_rows (journal_of i s.store.service.journal)))
      ]
      else if view == "effects"
      then elim (text_at "event_id" selector) [
        | none ↦ err "effects view requires event_id selector"
        | some i ↦ ok (
            effects_rows
              (limit max_inspect_rows (q.order_effects (effects_of i s.store.service.effects))))
      ]
      else if view == "keys"
      then elim (text_at "command_key" selector) [
        | none ↦ err "keys view requires command_key and occurrence_id selectors"
        | some k ↦ elim (text_at "occurrence_id" selector) [
          | none ↦ err "keys view requires command_key and occurrence_id selectors"
          | some o ↦
              ok (keys_rows (limit max_inspect_rows (keys_of k o s.store.service.command_keys)))
        ]
      ]
      else if view == "progress"
      then ok (
          progress_rows (
            progress_of (elim (lookup "stream" selector) [ none ↦ some "settlement" | some v ↦ v ])
              s.store))
      else if view == "recovery"
      then elim (text_at "snapshot_id" selector) [
        | none ↦ err "recovery view requires snapshot_id selector"
        | some i ↦ elim (find_snapshot i s.store.snapshots) [
          | none ↦ ok (recovery_rows [])
          | some r ↦ ok (recovery_rows ((r, none) ∷ []))
        ]
      ]
      else ok (journal_rows [])

-- To go on where a token is valid.
unfoldable pub granted_then :
    {A : Type 0} → Result ToolError Grant → Result ToolError A → Result ToolError A
granted_then (err e) rest = err e
granted_then (ok g) rest = rest

module _ (p : Primitives) (authority : RecoveryAuthority) (q : Sql) (x : Codecs)
    (a : TraceAuthority) where
  unfoldable pub state_inspect : String → Selector → String → Session → Result ToolError Rows
  unfolding inspect_public inspect_view granted_then
  state_inspect source selector view s =
      if not (contains view session_views)
      then err "unknown view"
      else if source == "public"
      then inspect_public p authority selector view s
      else granted_then (validate x a source s.session_id s.trace_epoch view (some selector))
          (inspect_view q selector view s)

  unfoldable pub telemetry_trace : String → Session → Result ToolError (List SpanRow)
  unfolding spans_for granted_then
  telemetry_trace handle s =
      let spans = spans_for handle s.store.trace_spans in
      granted_then (validate x a handle s.session_id s.trace_epoch "trace" none) (elim spans [
        | [] ↦ err "invalid trace handle"
        | r ∷ rs ↦ ok (limit max_trace_spans (r ∷ rs))
      ])

  -- The loop over the handles: the first that is valid.
  unfoldable pub first_valid : List (String × ℕ) → Session → Option String
  first_valid [] s = none
  first_valid ((h, t) ∷ hs) s =
      let rest = first_valid hs s in
      elim (validate x a h s.session_id s.trace_epoch "trace" none) [ err e ↦ rest | ok g ↦ some h ]

  unfoldable pub logs_between : String → ℕ → ℕ → Session → Result ToolError Logs
  unfolding public_rows messages_between handle_groups first_valid
  logs_between alias start stop s =
      let lines =
        limit max_log_lines (messages_between start stop (public_rows q alias s.store.telemetry)) in
      elim (first_valid (q.order_handles (handle_groups alias start stop s.store.trace_spans)) s) [
        | none ↦ err "no valid trace handle for the requested alias and window"
        | some h ↦ ok (record { alias = alias; window = (start, stop); handle = h; lines = lines })
      ]

  unfoldable pub telemetry_logs : String → Option (ℕ × ℕ) → Session → Result ToolError Logs
  unfolding logs_between tick_bounds public_rows
  telemetry_logs alias (some (start, stop)) s = logs_between alias start stop s
  telemetry_logs alias none s = elim (tick_bounds (public_rows q alias s.store.telemetry)) [
    | none ↦ err "no public logs for alias"
    | some (low, high) ↦ logs_between alias low (high + 1) s
  ]
