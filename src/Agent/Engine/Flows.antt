-- ===== src/Agent/Engine/Flows.antt =====
-- The flows of the repository take each cutpoint once, so their deliveries end.
use frontier_long_horizon_en.Prelude.{
  ℕ, String, ◌≡◌, Bool, true, false, Option, none, some, err, ok, arith, Result, ◌==◌,
  if◌then◌else◌,
}
use frontier_long_horizon_en.Prelude.Exec.{pure}
use frontier_long_horizon_en.Agent.Runtime.{Event, Stop, cutpoint_stop, Run, M, ◌>>=◌, logical_key}
use frontier_long_horizon_en.Substrate.Canonical.{Primitives}
use frontier_long_horizon_en.Agent.Methods.{load, settle, advance_cursor, effect_by_key}
use frontier_long_horizon_en.Agent.Flow.{
  Flow, deliver, template_flow, logical_identity_flow, identity_s5, or_else,
}
use frontier_long_horizon_en.Agent.Engine.Termination.{CutsOnce}

-- One stage as the loop sees it: what it gave, and the pending cutpoint before and after.
abbrev KeepsCut : {A : Type 0} → Result Stop A → Bool → Bool → Type 0
KeepsCut {A} outcome before after =
    (before ≡ false → after ≡ false)
    × ((a b : Option String)
        → outcome ≡ err (cutpoint_stop a b)
        → (before ≡ true) × (after ≡ false))

abbrev cut_of : Run → Bool
cut_of r = r.s5_cutpoint_pending

record Keeps {A : Type 0} (m : M A) : Type 0 where
  at : (r : Run) → KeepsCut (m r).0 (cut_of r) (cut_of (m r).1)

same_stop :
    {A B : Type 0} {x y : Stop}
    → ◌≡◌ {A = Result Stop B} (err x) (err y)
    → ◌≡◌ {A = Result Stop A} (err x) (err y)
same_stop q = cc

continue-Keeps :
    {A B : Type 0} (k : A → M B) (before : Run) (outcome : Result Stop A) (s : Run)
    → KeepsCut outcome (cut_of before) (cut_of s)
    → ((x : A) → Keeps (k x))
    → let (o, s') = ◌>>=◌ (λ _. (outcome, s)) k before in KeepsCut o (cut_of before) (cut_of s')
continue-Keeps k before (ok x) s h all =
    let later = (all x).at s in
    (
      λ clear. later.0 (h.0 clear),
      λ a b e. ((late_cut before s h.0 (later.1 a b e).0), (later.1 a b e).1),
    )
  where
    late_cut :
        (u v : Run) → (cut_of u ≡ false → cut_of v ≡ false) → cut_of v ≡ true → cut_of u ≡ true
    late_cut u v falls up = ground arith
continue-Keeps k before (err e) s h all = (h.0, λ a b eq. h.1 a b (same_stop eq))

Keeps-bind :
    {A B : Type 0} (m : M A) (k : A → M B) → Keeps m → ((x : A) → Keeps (k x)) → Keeps (m >>= k)
Keeps-bind m k km kk = record { at = λ r. continue-Keeps k r (m r).0 (m r).1 (km.at r) kk }

Keeps-pure : {A : Type 0} (x : A) → Keeps (pure x)
Keeps-pure x = record { at = λ r. (λ h. h, λ a b e. cc) }

or_else-Keeps : (o : Option String) (m : M String) → Keeps m → Keeps (or_else o m)
or_else-Keeps none m km = km
or_else-Keeps (some i) m km = if_keeps (i == "") m (pure i) km (Keeps-pure i)
  where
    if_keeps : (b : Bool) (m n : M String) → Keeps m → Keeps n → Keeps (if b then m else n)
    if_keeps true m n h k = h
    if_keeps false m n h k = k

module _ (p : Primitives) where
  load-Keeps : (i : String) → Keeps (load p i)
  unfolding load
  load-Keeps i = record { at = λ r. ground arith }

  settle-Keeps : (e : Event) → Keeps (settle p e)
  unfolding settle
  settle-Keeps e = record { at = λ r. ground arith }

  cursor-Keeps : (n : ℕ) → Keeps (advance_cursor p n)
  unfolding advance_cursor
  cursor-Keeps n = record { at = λ r. ground arith }

  identity_s5-Keeps : (e : Event) → Keeps (identity_s5 p e)
  unfolding identity_s5 effect_by_key
  identity_s5-Keeps e =
      Keeps-bind (effect_by_key e.event_id (logical_key e)) (λ o. or_else o (settle p e))
        (record { at = λ r. (λ h. h, λ a b eq. cc) })
        (λ o. or_else-Keeps o (settle p e) (settle-Keeps e))

  deliver-CutsOnce :
      (f : Flow)
      → ((i : String) → Keeps (f.s4 i))
      → ((e : Event) → Keeps (f.s5 e))
      → ((n : ℕ) → Keeps (f.s6 n))
      → CutsOnce f
  deliver-CutsOnce f k4 k5 k6 =
      let kept : (i : String) (n : ℕ) → Keeps (deliver f i n) = λ i n.
        unfold deliver in
        Keeps-bind (f.s4 i) (λ e. ◌>>=◌ (f.s5 e) (λ x. ◌>>=◌ (f.s6 n) (λ _. pure x))) (k4 i)
          (λ e.
            Keeps-bind (f.s5 e) (λ x. ◌>>=◌ (f.s6 n) (λ _. pure x)) (k5 e)
              (λ x. Keeps-bind (f.s6 n) (λ _. pure x) (k6 n) (λ _. Keeps-pure x))) in
      record { never_sets = λ i n r. ((kept i n).at r).0; clears = λ i n r. ((kept i n).at r).1 }

  -- A delivery in the template's flow never makes the cutpoint of s5 pending, and one that stops
  -- at a cutpoint found it pending and cleared it.
  pub template_flow-CutsOnce : CutsOnce (template_flow p)
  unfolding template_flow
  template_flow-CutsOnce = deliver-CutsOnce (template_flow p) load-Keeps settle-Keeps cursor-Keeps

  -- A delivery in the repaired flow never makes the cutpoint of s5 pending, and one that stops at
  -- a cutpoint found it pending and cleared it.
  pub logical_identity_flow-CutsOnce : CutsOnce (logical_identity_flow p)
  unfolding logical_identity_flow
  logical_identity_flow-CutsOnce =
      deliver-CutsOnce (logical_identity_flow p) load-Keeps identity_s5-Keeps cursor-Keeps
