-- ===== src/Ground/Limits.antt =====
-- src/training_ground/limits.py: the limits of an episode.
use frontier_long_horizon_en.Prelude.{ℕ, Option, none, some, ltb, if◌then◌else◌}

pub record Limits : Type 0 where
  pub action_limit : ℕ
  pub byte_limit : ℕ
  pub fake_clock_limit : ℕ

abbrev pub default_limits : Limits
default_limits = record { action_limit = 128; byte_limit = 2000000; fake_clock_limit = 2000 }

-- The text of the reason, with the limit that it names.
pub data Reason : Type 0 where
  actions_exceeded : ℕ → Reason
  bytes_exceeded : ℕ → Reason
  clock_exceeded : ℕ → Reason

-- `Limits.check`: `none` is the answer `(False, None)`.
unfoldable pub check : Limits → ℕ → ℕ → ℕ → Option Reason
check l action_count total_bytes tick =
    if ltb l.action_limit action_count
    then some (actions_exceeded l.action_limit)
    else if ltb l.byte_limit total_bytes
    then some (bytes_exceeded l.byte_limit)
    else if ltb l.fake_clock_limit tick
    then some (clock_exceeded l.fake_clock_limit)
    else none
