-- ===== src/Agent/Engine/Kept.antt =====
-- Invariants of a run (`RuntimeStore` of src/agent_surface/runtime.py): rules for computations, and
-- that acceptance and delivery with their retries keep what the stages of the flow keep.
use frontier_long_horizon_en.Prelude.{
  ℕ, zero, suc, ◌+◌, String, Bool, not, ◌||◌, none, some, Result, ok, err, leb, ltb, Bool-cases,
  inl, inr,
}
use frontier_long_horizon_en.Prelude.Exec.{pure}
use frontier_long_horizon_en.Substrate.Canonical.{Primitives}
use frontier_long_horizon_en.Prelude.{true, false, if◌then◌else◌}
use frontier_long_horizon_en.Agent.Runtime.{Event, M, ◌>>=◌}
use frontier_long_horizon_en.Agent.Runtime.{
  Command, Stop, tool_error, cutpoint_stop, transient_failure, integrity_error, out_of_fuel, Run,
}
use frontier_long_horizon_en.Agent.Methods.{log_line, restart, load}
use frontier_long_horizon_en.Agent.Flow.{Flow, accept, deliver}
use frontier_long_horizon_en.Agent.Engine.{
  after_accept, accept_command, Delivery, log_interrupted, after_delivery, deliver_loop,
  deliver_event,
}

-- From a run where `P` holds, a stage leaves one where `Q` does, whether it returns or raises.
pub record After {A : Type 0} (P : Run → Type 0) (m : M A) (Q : Run → Type 0) : Type 0 where
  pub at : (r : Run) → P r → Q (m r).1

after_outcome :
    {A B : Type 0} (P Q : Run → Type 0) (k : A → M B) (outcome : Result Stop A) (s : Run)
    → P s
    → ((r : Run) → P r → Q r)
    → ((x : A) → After P (k x) Q)
    → Q (◌>>=◌ (λ _. (outcome, s)) k s).1
after_outcome P Q k (ok x) s h weaker all = (all x).at s h
after_outcome P Q k (err e) s h weaker all = weaker s h

pub After-bind :
    {A B : Type 0} (P Q R : Run → Type 0) (m : M A) (k : A → M B)
    → After P m Q
    → ((r : Run) → Q r → R r)
    → ((x : A) → After Q (k x) R)
    → After P (m >>= k) R
After-bind P Q R m k am weaker ak = record {
  at = λ r h. after_outcome Q R k (m r).0 (m r).1 (am.at r h) weaker ak;
}

-- Whether it returns or raises, a computation keeps `P`.
abbrev pub Keeps : (P : Run → Type 0) {A : Type 0} → M A → Type 0
Keeps P m = After P m P

pub if_holds :
    {A : Type 0} (P : Run → Type 0) (b : Bool) (x y : Result Stop A × Run)
    → P x.1
    → P y.1
    → P (if b then x else y).1
if_holds P true x y h k = h
if_holds P false x y h k = k

-- What a flow keeps, together with the log, a restart and a load.
pub record KeptBy (P : Run → Type 0) (p : Primitives) (f : Flow) : Type 0 where
  pub k1 : (c : Command) → After P (f.s1 c) P
  pub k2 : (c : Command) → After P (f.s2 c) P
  pub k3 : (c : Command) (i : String) → After P (f.s3 c i) P
  pub k4 : (i : String) → After P (f.s4 i) P
  pub k5 : (e : Event) → After P (f.s5 e) P
  pub k6 : (n : ℕ) → After P (f.s6 n) P
  pub log : (line : String) → After P (log_line line) P
  pub restarts : After P (restart p) P
  pub loads : (i : String) → After P (load p i) P

module _ (P : Run → Type 0) (p : Primitives) (f : Flow) (k : KeptBy P p f) where
  once : (r : Run) → P r → P r
  once r h = h

  pure-Kept : {A : Type 0} (x : A) → After P (pure x) P
  pure-Kept x = record { at = once }

  accept-Kept : (c : Command) → After P (accept f c) P
  unfolding accept
  accept-Kept c = After-bind P P P _ _ (k.k1 c) once (λ q.
      After-bind P P P _ _ (k.k2 q) once
        (λ i. After-bind P P P _ _ (k.k3 q i) once (λ _. pure-Kept i)))

  deliver-Kept : (i : String) (n : ℕ) → After P (deliver f i n) P
  unfolding deliver
  deliver-Kept i n = After-bind P P P _ _ (k.k4 i) once (λ e.
      After-bind P P P _ _ (k.k5 e) once
        (λ x. After-bind P P P _ _ (k.k6 n) once (λ _. pure-Kept x)))

  after_accept-Kept : (c : Command) (e : Stop) → After P (after_accept f c e) P
  unfolding after_accept
  after_accept-Kept c (cutpoint_stop none x) = record { at = once }
  after_accept-Kept c (cutpoint_stop (some i) x) =
      After-bind P P P _ _ (accept-Kept c) once (λ _. pure-Kept i)
  after_accept-Kept c (tool_error x) = record { at = once }
  after_accept-Kept c transient_failure = record { at = once }
  after_accept-Kept c integrity_error = record { at = once }
  after_accept-Kept c out_of_fuel = record { at = once }

  -- The acceptance of a command, its retry after a cutpoint included.
  outcome-Kept :
      (c : Command) (result : Result Stop String) (s : Run)
      → P s
      → P
          (elim result as (λ _. Result Stop String × Run) [
            | ok i ↦ (ok i, s)
            | err e ↦ after_accept f c e s
          ]).1
  outcome-Kept c (ok i) s h = h
  outcome-Kept c (err e) s h = (after_accept-Kept c e).at s h

  pub accept_command-Kept : (c : Command) → After P (accept_command f c) P
  unfolding accept_command
  accept_command-Kept c = record {
    at = λ r h. outcome-Kept c (accept f c r).0 (accept f c r).1 ((accept-Kept c).at r h);
  }

  -- What a delivery leaves, if it ended.
  abbrev Ends : Delivery p f → Type 0
  Ends none = Unit
  Ends (some done) = P done.1

  log-Kept : (r : Run) → P r → P (log_interrupted p f r).1
  unfolding log_interrupted
  log-Kept r h = (k.log _).at r h

  after_delivery-Kept :
      (again : ℕ → Run → Delivery p f)
      → ((n : ℕ) (r : Run) → P r → Ends (again n r))
      → (budget : ℕ) (retry : Bool) (n : ℕ) (result : Result Stop String) (s : Run) → P s
      → Ends (after_delivery p f again budget retry n result s)
  unfolding after_delivery
  after_delivery-Kept again ih budget retry n (ok i) s h = h
  after_delivery-Kept again ih budget retry n (err transient_failure) s h =
      elim (Bool-cases (not retry || leb budget (n + 1))) [
        | inl e ↦ rw (e, Ends) (log-Kept s h)
        | inr e ↦ rw (e, Ends) (ih (n + 1) (log_interrupted p f s).1 (log-Kept s h))
      ]
  after_delivery-Kept again ih budget retry n (err (cutpoint_stop a b)) s h =
      ih 0 (restart p s).1 (k.restarts.at s h)
  after_delivery-Kept again ih budget retry n (err (tool_error x)) s h = h
  after_delivery-Kept again ih budget retry n (err integrity_error) s h = h
  after_delivery-Kept again ih budget retry n (err out_of_fuel) s h = h

  deliver_loop-Kept :
      (fuel : ℕ) (i : String) (n budget : ℕ) (retry : Bool) (attempts : ℕ) (r : Run)
      → P r
      → Ends (deliver_loop p f fuel i n budget retry attempts r)
  unfolding deliver_loop
  deliver_loop-Kept zero i n budget retry attempts r h = tt
  deliver_loop-Kept (suc fuel) i n budget retry attempts r h =
      elim (Bool-cases (ltb attempts budget)) [
        | inl e ↦
            rw (e, Ends)
              (after_delivery-Kept (deliver_loop p f fuel i n budget retry)
                (deliver_loop-Kept fuel i n budget retry) budget retry attempts (deliver f i n r).0
                (deliver f i n r).1 ((deliver-Kept i n).at r h))
        | inr e ↦ rw (e, Ends) h
      ]

  pub deliver_event-Kept :
      (i : String) (n budget : ℕ) (retry : Bool) → After P (deliver_event p f i n budget retry) P
  unfolding deliver_event
  deliver_event-Kept i n budget retry = record {
    at = λ r h.
        ended (deliver_loop p f (budget + budget + 2) i n budget retry 0 r) r h
          (deliver_loop-Kept (budget + budget + 2) i n budget retry 0 r h);
  }
    where
      ended :
          (d : Delivery p f) (r : Run)
          → P r
          → Ends d
          → P
              (elim d as (λ _. Result Stop String × Run) [
                | none ↦ (err out_of_fuel, r)
                | some done ↦ done
              ]).1
      ended none r h e = h
      ended (some done) r h e = e
