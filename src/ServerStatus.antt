-- ===== src/ServerStatus.antt =====
-- evk/server_status.h: the status that an event loop, a loop's thread and a pool of them keep.
use evk.Prelude.{Bool, true, false}

pub data Status : Type 0 where
  null initializing initialized starting running stopping stopped : Status

unfoldable pub is_running : Status → Bool
is_running running = true
is_running _ = false

unfoldable pub is_stopped : Status → Bool
is_stopped stopped = true
is_stopped _ = false

unfoldable pub is_stopping : Status → Bool
is_stopping stopping = true
is_stopping _ = false
