-- ===== src/LoopThread.antt =====
-- evk/event_loop_thread.h and evk/event_loop_thread.cc: a thread that makes an event loop and runs it,
-- with the threads that start and stop it. Of the loop only its status is kept (see EventLoop). `none`
-- is a failed assert, or the use of a loop that is not there.
pub mod Lifecycle
pub mod Stopping
pub mod Tests
use evk.Prelude.{
  ℕ, Option, some, none, ◌>>=◌, ◌>>◌, require, Bool, true, false, not, ◌&&◌, leb, if◌then◌else◌,
}
use evk.ServerStatus.{
  Status, null, initializing, initialized, starting, running, stopping, stopped, is_running,
  is_stopped,
}

-- Where the thread is: not there; in `Run` before the loop is made, in the initial callback, before
-- StartLoop is notified, before the loop's Run, in it, behind it, and before the loop is given up; and
-- at its end.
pub data Place : Type 0 where
  absent making preparing notifying entering looping leaving resetting finished : Place

pub record LoopThread : Type 0 where
  pub status : Status
  -- the status of the loop that `event_loop_` holds
  pub event_loop : Option Status
  -- `added_to_loop_` of that loop's `wakeup_channel_`
  pub wakeup_added : Bool
  -- `thread_`
  pub has_thread : Bool
  pub place : Place

unfoldable pub init : LoopThread
init = record {
  status = null;
  event_loop = none;
  wakeup_added = false;
  has_thread = false;
  place = absent;
}

-- The number of a status.
unfoldable pub number : Status → ℕ
number null = 0
number initializing = 1
number initialized = 2
number starting = 3
number running = 4
number stopping = 5
number stopped = 6

-- `StartLoop` up to its wait.
unfoldable pub start : LoopThread → Option LoopThread
start t = do
  require (not t.has_thread)
  some (record t { status = starting; has_thread = true; place = making })

-- Whether the wait of StartLoop is over, so that it returns `event_loop_`.
unfoldable pub is_started : LoopThread → Bool
is_started t = leb 4 (number t.status)

-- `IsRunning`
unfoldable pub loop_is_running : LoopThread → Option Bool
loop_is_running t = do s ← t.event_loop; some (is_running s)

-- `Stop` up to the call of the loop's Stop.
unfoldable pub begin_stop : LoopThread → Option LoopThread
begin_stop t = do
  require (is_running t.status)
  up ← loop_is_running t
  require up
  some (record t { status = stopping })

-- The loop's Stop, which anyone who has the loop may call.
unfoldable pub stop_loop : LoopThread → Option LoopThread
stop_loop t = do s ← t.event_loop; some (record t { event_loop = some stopping })

-- `Join`, which returns when the thread has ended.
unfoldable pub join : LoopThread → LoopThread
join t = if t.has_thread then record t { has_thread = false; place = absent } else t

-- The destructor.
unfoldable pub destroy : LoopThread → Option LoopThread
destroy t = do require (is_stopped t.status); some (join t)

-- The loop's Run up to its `while`, and the test of it.
unfoldable pub enter_loop : Status → LoopThread → Option LoopThread
enter_loop s t = do
  require (not (is_running s))
  some (record t { event_loop = some running; place = looping })

unfoldable pub test_loop : Status → LoopThread → Option LoopThread
test_loop s t =
    if is_running s then some t else some (record t { event_loop = some stopped; place = leaving })

unfoldable pub leave_loop : Status → LoopThread → Option LoopThread
leave_loop s t = do require (is_stopped s); some (record t { status = stopped; place = resetting })

-- `event_loop_.reset()`: the asserts of ~EventLoop, and of ~Channel for the wake-up channel, which
-- ~EventLoop disables and does not remove (see Registry.Teardown).
unfoldable pub reset_loop : Status → LoopThread → Option LoopThread
reset_loop s t = do
  require (is_stopped s)
  require (not t.wakeup_added)
  some (record t { event_loop = none; place = finished })

-- The next step of the thread, in `Run`. The constructor of the loop enables its wake-up channel.
unfoldable pub advance_at : Place → LoopThread → Option LoopThread
advance_at absent t = some t
advance_at making t =
    some (record t { event_loop = some initialized; wakeup_added = true; place = preparing })
advance_at preparing t = some (record t { place = notifying })
advance_at notifying t = some (record t { status = running; place = entering })
advance_at entering t = do s ← t.event_loop; enter_loop s t
advance_at looping t = do s ← t.event_loop; test_loop s t
advance_at leaving t = do s ← t.event_loop; leave_loop s t
advance_at resetting t = do s ← t.event_loop; reset_loop s t
advance_at finished t = some t

unfoldable pub advance : LoopThread → Option LoopThread
advance t = advance_at t.place t
