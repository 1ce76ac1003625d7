-- ===== src/EventLoop/Tests.antt =====
-- The theorems on the event loop, at a loop that polls while another thread hands it a functor.
use evk.Prelude.{◌+◌, ◌<◌, ◌≡◌, refl, [], ◌∷◌, ◌++◌, some, true, false, inl, arith, length}
use evk.ServerStatus.{running, stopping, is_running}
use evk.EventLoop.{
  Loop, polling, testing, init, enter, advance, advance_at, test_status, push, stop, wakeup,
}
use evk.EventLoop.Interleaving.{
  enters, advances, pushes_elsewhere, Reach, start, later, left, push_elsewhere,
}
use evk.EventLoop.Ending.{is_inside, Ends, steps_left, stop_ends_run}
use evk.EventLoop.Wakeup.{in_order, no_lost_wakeup, advance_times, finished, pending_are_called}
use evk.EventLoop.LostStop.{Goes, stays, moves, pushes, stop_before_run}

-- The loop has come to poll, and functor 7 is pushed while its thread has not yet written.
abbrev sleeping : Loop
sleeping = record init { status = running; place = polling }

abbrev handed : Loop
handed = record sleeping { pending_functors = 7 ∷ []; owing = 1; queued = 7 ∷ [] }

sleeping-Reach : Reach sleeping
unfolding init enter is_running advance advance_at test_status
sleeping-Reach =
    later {l = record init { status = running; place = testing }} (later start (enters refl refl))
      advances

handed-Reach : Reach handed
unfolding init push_elsewhere push
handed-Reach = later sleeping-Reach (pushes_elsewhere 7)

in_order_example : handed.done ++ (left handed.place ++ handed.pending_functors) ≡ handed.queued
unfolding init
in_order_example = in_order handed-Reach

no_lost_wakeup_example : 0 < handed.counter + handed.owing
no_lost_wakeup_example = no_lost_wakeup handed-Reach refl (inl (omega arith))

pending_are_called_example :
    advance_times (4 + length handed.pending_functors) handed
    ≡ record (finished handed.pending_functors handed) { counter = 0; pending_functors = [] }
pending_are_called_example = pending_are_called handed refl

-- Stopped from another thread, and begun nevertheless.
abbrev begun : Loop
begun = record init { status = running; counter = 1; place = testing }

begun-enter : enter (stop false init) ≡ some begun
unfolding enter stop wakeup init is_running
begun-enter = refl

-- A functor comes, and the loop goes on to poll.
begun-Goes : Goes begun (advance (push_elsewhere 7 begun))
begun-Goes = moves (pushes 7 stays)

stop_before_run_example :
    ((stop false init).status ≡ stopping)
    × (is_running (advance (push_elsewhere 7 begun)).status ≡ true)
    × (is_inside (advance (push_elsewhere 7 begun)).place ≡ true)
stop_before_run_example = stop_before_run false init begun _ begun-enter begun-Goes

-- Another thread stops the loop while it polls.
abbrev stopping_loop : Loop
stopping_loop = record handed { status = stopping }

stop_ends_run_example :
    Ends stopping_loop (advance_times (steps_left polling (7 ∷ [])) stopping_loop)
unfolding is_running
stop_ends_run_example = stop_ends_run stopping_loop refl refl
