-- ===== src/Substrate/Clock.antt =====
-- src/event_service_substrate/clock.py
use frontier_long_horizon_en.Prelude.{ℕ, ◌+◌, ◌<◌, ◌≡◌, arith, ltb, if◌then◌else◌, Result, ok, err}
use frontier_long_horizon_en.Substrate.Errors.{Error, value_error}

-- `FakeClock.advance`; the tick is the clock's only field.
unfoldable pub advance_clock : ℕ → ℕ → Result Error ℕ
advance_clock tick transitions =
    if ltb transitions 1
    then err (value_error "transitions must be a positive integer")
    else ok (tick + transitions)

-- The clock moves forward strictly, or raises.
pub advance_clock_grows : (tick n t : ℕ) → advance_clock tick n ≡ ok t → tick < t
unfolding advance_clock
advance_clock_grows tick n t h = ground arith
