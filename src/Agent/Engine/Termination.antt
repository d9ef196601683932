-- ===== src/Agent/Engine/Termination.antt =====
-- The delivery loop of `RuntimeEngine` ends: each cutpoint is taken once, and every other round
-- counts against the attempt budget.
use frontier_long_horizon_en.Prelude.{
  ℕ, zero, suc, ◌+◌, ◌-◌, ◌<◌, String, ◌≡◌, ◌≢◌, refl, Bool, true, false, Option, none, ltb, Result,
  ok, err, arith, Bool-cases, inl, inr,
}
use frontier_long_horizon_en.Agent.Runtime.{Stop, cutpoint_stop, transient_failure, Run}
use frontier_long_horizon_en.Substrate.Canonical.{Primitives}
use frontier_long_horizon_en.Agent.Methods.{restart}
use frontier_long_horizon_en.Agent.Flow.{Flow, deliver}
use frontier_long_horizon_en.Agent.Engine.{log_interrupted, Delivery, after_delivery, deliver_loop}

-- What the loop relies on in a flow: a delivery never sets the pending cutpoint, one that is cut
-- found it pending and clears it, and none raises `out_of_fuel`.
pub record CutsOnce (f : Flow) : Type 0 where
  pub never_sets :
      (i : String) (n : ℕ) (r : Run)
      → r.s5_cutpoint_pending ≡ false
      → (deliver f i n r).1.s5_cutpoint_pending ≡ false
  pub clears :
      (i : String) (n : ℕ) (r : Run) (a b : Option String)
      → (deliver f i n r).0 ≡ err (cutpoint_stop a b)
      → (r.s5_cutpoint_pending ≡ true) × ((deliver f i n r).1.s5_cutpoint_pending ≡ false)

abbrev cost : ℕ → Bool → ℕ
cost budget true = budget + 1
cost budget false = 0

s5-restart :
    (p : Primitives) (r : Run) → (restart p r).1.s5_cutpoint_pending ≡ r.s5_cutpoint_pending
unfolding restart
s5-restart p r = refl

module _ (p : Primitives) (f : Flow) (once : CutsOnce f) where
  s5-log : (r : Run) → (log_interrupted p f r).1.s5_cutpoint_pending ≡ r.s5_cutpoint_pending
  unfolding log_interrupted
  s5-log r = refl

  -- Rounds that are left, at most.
  abbrev measure : ℕ → ℕ → Run → ℕ
  measure budget attempts r = cost budget r.s5_cutpoint_pending + (budget - attempts)

  after_delivery_returns :
      (again : ℕ → Run → Delivery p f) (budget : ℕ) (retry : Bool) (attempts : ℕ)
      (result : Result Stop String) (before after : Run)
      → attempts < budget
      → (before.s5_cutpoint_pending ≡ false → after.s5_cutpoint_pending ≡ false)
      → ((a b : Option String)
          → result ≡ err (cutpoint_stop a b)
          → (before.s5_cutpoint_pending ≡ true) × (after.s5_cutpoint_pending ≡ false))
      → ((k : ℕ) (s : Run) → measure budget k s < measure budget attempts before → again k s ≢ none)
      → after_delivery p f again budget retry attempts result after ≢ none
  unfolding after_delivery
  after_delivery_returns again budget retry attempts (ok e) before after lt falls cut ih =
      ground arith
  after_delivery_returns again budget retry attempts (err transient_failure) before after lt falls
        cut ih =
      ground (arith, ih (attempts + 1) (log_interrupted p f after).1, s5-log after)
  after_delivery_returns again budget retry attempts (err (cutpoint_stop a b)) before after lt falls
        cut ih =
      ground (arith, cut a b refl, ih 0 (restart p after).1, s5-restart p after)
  after_delivery_returns again budget retry attempts (err e) before after lt falls cut ih =
      ground arith

  -- For a flow whose deliveries take the pending cutpoint at most once, the delivery loop does not
  -- run out of fuel that exceeds the attempts left plus, if the cutpoint is pending, the budget
  -- and one.
  pub deliver_loop_returns :
      (fuel : ℕ) (i : String) (n budget : ℕ) (retry : Bool) (attempts : ℕ) (r : Run)
      → measure budget attempts r < fuel
      → deliver_loop p f fuel i n budget retry attempts r ≢ none
  unfolding deliver_loop
  deliver_loop_returns zero i n budget retry attempts r h = absurd (omega arith)
  deliver_loop_returns (suc fuel) i n budget retry attempts r h =
      elim (Bool-cases (ltb attempts budget)) [
        | inl more ↦
            rw (more, deliver_loop)
              (after_delivery_returns (deliver_loop p f fuel i n budget retry) budget retry attempts
                (deliver f i n r).0 r (deliver f i n r).1 (ground arith) (once.never_sets i n r)
                (once.clears i n r)
                (λ k s lt. deliver_loop_returns fuel i n budget retry k s (omega arith)))
        | inr done ↦ rw (done, deliver_loop) (ground arith)
      ]
