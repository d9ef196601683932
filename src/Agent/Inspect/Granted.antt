-- ===== src/Agent/Inspect/Granted.antt =====
-- Who may inspect what (src/agent_surface/session.py): rows are shown to a valid capability only, and
-- few of them.
use mathlib.Core.Bool.{true≢false}
use mathlib.Core.Path.{subst}
use frontier_long_horizon_en.Prelude.{
  Bool, List, Result, String, [], arith, contains, err, false, if◌then◌else◌, length, not, ok, refl,
  some, suc, true, zero, ℕ, ◌==◌, ◌∷◌, ◌≡◌, ◌≤◌,
}
use frontier_long_horizon_en.Substrate.Canonical.{Primitives}
use frontier_long_horizon_en.Substrate.Authority.{RecoveryAuthority}
use frontier_long_horizon_en.Agent.Session.{Session, ToolError}
use frontier_long_horizon_en.Agent.Trace.{Codecs, TraceAuthority, Selector, Grant, validate}
use frontier_long_horizon_en.Agent.Trace.Validity.{IsGranted, validate-IsGranted}
use frontier_long_horizon_en.Agent.Inspect.{
  max_inspect_rows, session_views, Sql, limit, Rows, progress_of, inspect_public, inspect_view,
  granted_then, state_inspect, journal_rows, effects_rows, keys_rows, progress_rows, recovery_rows,
}

-- The number of rows of a view.
unfoldable pub row_count : Rows → ℕ
row_count (journal_rows rs) = length rs
row_count (effects_rows rs) = length rs
row_count (keys_rows rs) = length rs
row_count (progress_rows rs) = length rs
row_count (recovery_rows rs) = length rs

limit-le {ℓ} : {A : Type ℓ} (n : ℕ) (xs : List A) → length (limit n xs) ≤ n
limit-le zero xs = omega arith
limit-le (suc n) [] = omega arith
limit-le (suc n) (x ∷ xs) = omega (arith, limit-le n xs)

pub granted_then_ok :
    {A : Type 0} (r : Result ToolError Grant) (rest : Result ToolError A) (v : A)
    → granted_then r rest ≡ ok v
    → (g : Grant) × (r ≡ ok g) × (rest ≡ ok v)
unfolding granted_then
granted_then_ok (err e) rest v h = cc
granted_then_ok (ok g) rest v h = (g, refl, h)

guard_passed :
    {A : Type 0} (b : Bool) (m : String) (r : Result ToolError A) (v : A)
    → (if not b then err m else r) ≡ ok v
    → (b ≡ true) × (r ≡ ok v)
guard_passed true m r v h = (refl, h)
guard_passed false m r v h = cc

other_branch :
    {A : Type 0} (b : Bool) (u r : Result ToolError A) (v : A)
    → (if b then u else r) ≡ ok v
    → b ≡ false
    → r ≡ ok v
other_branch true u r v h other = absurd (true≢false other)
other_branch false u r v h other = h

-- Few rows, if any.
abbrev IsShort : Result ToolError Rows → Type 0
IsShort (err e) = Unit
IsShort (ok rows) = row_count rows ≤ max_inspect_rows

if-IsShort :
    (b : Bool) (u r : Result ToolError Rows) → IsShort u → IsShort r → IsShort (if b then u else r)
if-IsShort true u r hu hr = hu
if-IsShort false u r hu hr = hr

granted_then-IsShort :
    (r : Result ToolError Grant) (rest : Result ToolError Rows)
    → IsShort rest
    → IsShort (granted_then r rest)
unfolding granted_then
granted_then-IsShort (err e) rest h = tt
granted_then-IsShort (ok g) rest h = h

module _ (p : Primitives) (authority : RecoveryAuthority) (q : Sql) (x : Codecs)
    (a : TraceAuthority) where
  inspect_public-IsShort :
      (selector : Selector) (view : String) (s : Session)
      → IsShort (inspect_public p authority selector view s)
  unfolding inspect_public progress_of row_count
  inspect_public-IsShort selector view s = ground arith

  inspect_view-IsShort :
      (selector : Selector) (view : String) (s : Session) → IsShort (inspect_view q selector view s)
  unfolding inspect_view progress_of row_count
  inspect_view-IsShort selector view s = grind (arith, limit-le)

  -- If `state_inspect` returns rows and the source is not `public`, then the source is a token for
  -- this session and its present epoch, whose grant has the view and a selector that covers the
  -- one asked for.
  pub inspection-IsGranted :
      (source : String) (selector : Selector) (view : String) (s : Session) (rows : Rows)
      → state_inspect p authority q x a source selector view s ≡ ok rows
      → (source == "public") ≡ false
      → (g : Grant) × IsGranted x a source s.session_id s.trace_epoch view selector g
  unfolding state_inspect
  inspection-IsGranted source selector view s rows shown private =
      let valid = validate x a source s.session_id s.trace_epoch view (some selector) in
      let seen = inspect_view q selector view s in
      let (listed, asked) =
        guard_passed (contains view session_views) "unknown view" _ rows shown in
      let hidden =
        other_branch (source == "public") (inspect_public p authority selector view s)
          (granted_then valid seen) rows asked private in
      let (g, accepted, found) = granted_then_ok valid seen rows hidden in
      (g, validate-IsGranted x a source s.session_id s.trace_epoch view selector g accepted)

  -- If `state_inspect` returns rows, then they are ten at most, whatever the source, the view and
  -- the selector.
  pub inspection-le :
      (source : String) (selector : Selector) (view : String) (s : Session) (rows : Rows)
      → state_inspect p authority q x a source selector view s ≡ ok rows
      → row_count rows ≤ max_inspect_rows
  unfolding state_inspect
  inspection-le source selector view s rows shown =
      let few = if-IsShort (not (contains view session_views)) (err "unknown view") _ tt (
        if-IsShort (source == "public") (inspect_public p authority selector view s) _
          (inspect_public-IsShort selector view s)
          (granted_then-IsShort
            (validate x a source s.session_id s.trace_epoch view (some selector))
            (inspect_view q selector view s) (inspect_view-IsShort selector view s))) in
      subst IsShort shown few
