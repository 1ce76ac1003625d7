-- ===== src/LoopThread/Tests.antt =====
-- The theorems on a loop's thread, at one that is started.
use evk.Prelude.{some, none, false, true, ◌≡◌, ◌⊎◌, refl}
use evk.ServerStatus.{initialized, starting, running, stopping, is_running, is_stopped}
use evk.LoopThread.{
  LoopThread, making, preparing, notifying, entering, looping, finished, init, number, start,
  is_started, begin_stop, loop_is_running, enter_loop, stop_loop, advance_at, advance,
}
use evk.LoopThread.Lifecycle.{starts, advances, Reach, here, later, has_loop}
use evk.LoopThread.Stopping.{started_has_loop, stop_too_early, advance_times, stop_fails}

abbrev made : LoopThread
made = record {
  status = starting;
  event_loop = none;
  wakeup_added = false;
  has_thread = true;
  place = making;
}

abbrev prepared : LoopThread
prepared = record made { event_loop = some initialized; wakeup_added = true; place = preparing }

abbrev notified : LoopThread
notified = record prepared { place = notifying }

abbrev entered : LoopThread
entered = record notified { status = running; place = entering }

entered-Reach : Reach entered
unfolding init start advance advance_at
entered-Reach =
    later {t = notified}
      (later {t = prepared} (later {t = made} (later here (starts refl)) (advances refl))
        (advances refl))
      (advances refl)

started_has_loop_example : (has_loop entered.event_loop ≡ true) ⊎ (entered.place ≡ finished)
unfolding is_started number
started_has_loop_example = started_has_loop entered-Reach refl refl

stop_too_early_example : (is_started entered ≡ true) × (begin_stop entered ≡ none)
stop_too_early_example = stop_too_early entered-Reach refl

abbrev turning : LoopThread
turning = record entered { event_loop = some running; place = looping }

turning-Reach : Reach turning
unfolding advance advance_at enter_loop is_running
turning-Reach = later entered-Reach (advances refl)

stopping_now : begin_stop turning ≡ some (record turning { status = stopping })
unfolding begin_stop loop_is_running is_running
stopping_now = refl

stop_fails_example :
    (v : LoopThread) × (w : LoopThread) × (stop_loop (record turning { status = stopping })
      ≡ some v)
    × (advance_times 2 v ≡ some w)
    × (is_stopped w.status ≡ true)
    × (advance w ≡ none)
stop_fails_example = stop_fails turning-Reach stopping_now
