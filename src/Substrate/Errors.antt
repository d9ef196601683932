-- ===== src/Substrate/Errors.antt =====
-- The exceptions that event_service_substrate raises, with their messages.
use frontier_long_horizon_en.Prelude.{String}

pub data Error : Type 0 where
  runtime_error value_error : String → Error
  -- sqlite3: a row with its primary key is there already
  integrity_error : Error
