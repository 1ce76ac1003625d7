-- ===== src/EventLoop.antt =====
-- evk/event_loop.h and evk/event_loop.cc: one loop with the threads that hand it functors. A functor
-- is a number. Every step of the loop's own thread, and every step of another thread that the loop can
-- see, is a function on the state, so that they can come in any order.
pub mod Interleaving
pub mod Wakeup
pub mod Ending
pub mod LostStop
pub mod Tests
use evk.Prelude.{
  ℕ, ◌+◌, ◌-◌, List, [], ◌∷◌, ◌++◌, Option, some, ◌>>=◌, ◌>>◌, require, Bool, true, false, not,
  ◌||◌, ltb, if◌then◌else◌,
}
use evk.ServerStatus.{Status, initialized, running, stopping, stopped, is_running}

-- Where the loop's thread is in `Run`: outside it, at the test of the `while`, in poll, among the
-- active channels (with whether the wake-up channel is one), before the swap of DoPendingFunctors, or
-- behind it with the functors that are left to call.
pub data Place : Type 0 where
  outside testing polling swapping : Place
  handling : Bool → Place
  calling : List ℕ → Place

pub record Loop : Type 0 where
  pub status : Status
  pub is_calling_pending_functors : Bool
  pub pending_functors : List ℕ
  pub place : Place
  -- the counter of the eventfd `wakeup_fd_`: a write adds to it, a read resets it, and poll(2)
  -- reports it exactly if it is not zero
  pub counter : ℕ
  -- the calls of Wakeup that other threads still owe: each is behind its push, or its store of the
  -- status, and before its write
  pub owing : ℕ
  -- the functors called by DoPendingFunctors, and those handed to QueueInLoop, oldest first
  pub done : List ℕ
  pub queued : List ℕ

-- The constructor.
unfoldable pub init : Loop
init = record {
  status = initialized;
  is_calling_pending_functors = false;
  pending_functors = [];
  place = outside;
  counter = 0;
  owing = 0;
  done = [];
  queued = [];
}

unfoldable pub wakeup : Loop → Loop
wakeup l = record l { counter = l.counter + 1 }

unfoldable pub handle_read : Loop → Loop
handle_read l = record l { counter = 0 }

-- The critical section of `QueueInLoop`.
unfoldable pub push : ℕ → Loop → Loop
push cb l = record l {
  pending_functors = l.pending_functors ++ cb ∷ [];
  queued = l.queued ++ cb ∷ [];
}

unfoldable pub queue_in_loop : Bool → ℕ → Loop → Loop
queue_in_loop in_loop_thread cb l =
    let l' = push cb l in
    if not in_loop_thread || l'.is_calling_pending_functors then wakeup l' else l'

-- `RunInLoop`: the functors that it calls at once, beside the loop.
unfoldable pub run_in_loop : Bool → ℕ → Loop → List ℕ × Loop
run_in_loop in_loop_thread cb l =
    if in_loop_thread then (cb ∷ [], l) else ([], queue_in_loop false cb l)

unfoldable pub stop : Bool → Loop → Loop
stop in_loop_thread l =
    let l' = record l { status = stopping } in if not in_loop_thread then wakeup l' else l'

-- `Run` up to its `while`.
unfoldable pub enter : Loop → Option Loop
enter l = do
  require (not (is_running l.status))
  some (record l { status = running; place = testing })

-- The test of the `while`, and what follows the loop.
unfoldable pub test_status : Loop → Loop
test_status l =
    if is_running l.status
    then record l { place = polling }
    else record l { status = stopped; place = outside }

unfoldable pub poll : Loop → Loop
poll l = record l { place = handling (ltb 0 l.counter) }

-- The wake-up channel is handled if it is active, and DoPendingFunctors begins.
unfoldable pub handle_active : Bool → Loop → Loop
handle_active active l =
    let l' = if active then handle_read l else l in
    record l' { is_calling_pending_functors = true; place = swapping }

unfoldable pub swap : Loop → Loop
swap l = record l { pending_functors = []; place = calling l.pending_functors }

unfoldable pub call_next : List ℕ → Loop → Loop
call_next [] l = record l { is_calling_pending_functors = false; place = testing }
call_next (functor ∷ rest) l = record l { done = l.done ++ functor ∷ []; place = calling rest }

-- The next step of the loop's own thread.
unfoldable pub advance_at : Place → Loop → Loop
advance_at outside l = l
advance_at testing l = test_status l
advance_at polling l = poll l
advance_at (handling active) l = handle_active active l
advance_at swapping l = swap l
advance_at (calling functors) l = call_next functors l

unfoldable pub advance : Loop → Loop
advance l = advance_at l.place l
