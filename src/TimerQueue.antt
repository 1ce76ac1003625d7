-- ===== src/TimerQueue.antt =====
-- evk/timer_queue.h, evk/timer_queue.cc, evk/invoke_timer.h and evk/invoke_timer.cc: the timers of a
-- loop, on the loop's thread. A timer is named by its address; `none` is a failed assert, or the use of
-- a timer that does not live. The times that the clock gives are arguments.
pub mod Keys
pub mod Invariant
pub mod Flight
pub mod Callbacks
pub mod Departure
pub mod Round
pub mod HandleRead
pub mod Timespec
pub mod Tests
unfoldable pub use Keys.{Entry, ActiveTimer, entry_order, active_order}
use evk.Prelude.{
  ℕ, suc, ◌+◌, ◌-◌, ◌*◌, ◌^◌, List, [], ◌∷◌, Option, some, none, ◌>>=◌, ◌>>◌, require, Bool, true,
  false, not, ◌&&◌, ◌||◌, length, ◌==◌, if◌then◌else◌,
}
use evk.Prelude.Int.{ℤ, pos, ltb_ℤ, quot_ℤ, rem_ℤ}
use evk.Duration.{Duration, microsecond, second, nanoseconds}
use evk.Timestamp.{Timestamp, lt, is_valid, add, since}
use evk.SortedSet.{Order, member, insert, erase, before, from}

-- InvokeTimer; its callback is known by its sequence number.
pub record Timer : Type 0 where
  pub expiration : Timestamp
  pub interval : Duration
  pub repeats : Bool
  pub sequence : ℕ

pub record Queue : Type 0 where
  pub timers : List Entry
  pub active_timers : List ActiveTimer
  pub canceling_timers : List ActiveTimer
  pub is_calling_expired_timers : Bool
  -- the timers that live, by address
  pub heap : ℕ → Option Timer
  -- when the timerfd is to fire; it has fired, once, when `HandleRead` is called
  pub alarm : Option Timestamp

-- `reinterpret_cast<InvokeTimer*>(UINTPTR_MAX)`
abbrev pub uintptr_max : ℕ
uintptr_max = 2 ^ 64 - 1

abbrev pub place : ℕ → Option Timer → (ℕ → Option Timer) → ℕ → Option Timer
place p t heap k = if k == p then t else heap k

-- `Restart`
unfoldable pub restart : Timestamp → Timer → Timer
restart now timer =
    if timer.repeats
    then record timer { expiration = add now timer.interval }
    else record timer { expiration = record { ns = pos 0 } }

-- `iter == end() || when < iter->first`
unfoldable pub is_earliest : Timestamp → List Entry → Bool
is_earliest when [] = true
is_earliest when ((first, p) ∷ entries) = lt when first

unfoldable pub insert_timer : ℕ → Queue → Option (Bool × Queue)
insert_timer p q = do
  require (length q.timers == length q.active_timers)
  timer ← q.heap p
  let earliest_changed = is_earliest timer.expiration q.timers
  require (not (member (timer.expiration, p) q.timers))
  require (not (member (p, timer.sequence) q.active_timers))
  let q' = record q {
    timers = insert (timer.expiration, p) q.timers;
    active_timers = insert (p, timer.sequence) q.active_timers;
  }
  require (length q'.timers == length q'.active_timers)
  some (earliest_changed, q')

unfoldable pub add_timer_in_loop : ℕ → Queue → Option Queue
add_timer_in_loop p q = do
  (earliest_changed, q') ← insert_timer p q
  timer ← q'.heap p
  some (if earliest_changed then record q' { alarm = some timer.expiration } else q')

-- `AddTimer` on the loop's thread, with the address of the new timer; it returns the timer's id.
unfoldable pub add_timer : ℕ → Timer → Queue → Option (ActiveTimer × Queue)
add_timer p timer q = do
  q' ← add_timer_in_loop p (record q { heap = place p (some timer) q.heap })
  some ((p, timer.sequence), q')

unfoldable pub cancel_in_loop : ActiveTimer → Queue → Option Queue
cancel_in_loop (p, sequence) q = do
  require (length q.timers == length q.active_timers)
  q' ←
      if member (p, sequence) q.active_timers
      then (do
        timer ← q.heap p
        require (member (timer.expiration, p) q.timers)
        some (record q {
          timers = erase (timer.expiration, p) q.timers;
          heap = place p none q.heap;
          active_timers = erase (p, sequence) q.active_timers;
        }))
      else if q.is_calling_expired_timers
      then some (record q { canceling_timers = insert (p, sequence) q.canceling_timers })
      else some q
  require (length q'.timers == length q'.active_timers)
  some q'

-- The loop of `GetExpired` that takes the expired timers out of the active ones.
unfoldable pub erase_active :
    (ℕ → Option Timer) → List Entry → List ActiveTimer → Option (List ActiveTimer)
erase_active heap [] active = some active
erase_active heap ((when, p) ∷ expired) active = do
  timer ← heap p
  require (member (p, timer.sequence) active)
  erase_active heap expired (erase (p, timer.sequence) active)

unfoldable pub get_expired : Timestamp → Queue → Option (List Entry × Queue)
get_expired now q = do
  require (length q.timers == length q.active_timers)
  let sentry : Entry = (now, uintptr_max)
  let rest = from sentry q.timers
  require (is_earliest now rest)
  let expired = before sentry q.timers
  active ← erase_active q.heap expired q.active_timers
  let q' = record q { timers = rest; active_timers = active }
  require (length q'.timers == length q'.active_timers)
  some (expired, q')

-- The loop of `Reset`.
unfoldable pub reset_expired : Timestamp → List Entry → Queue → Option Queue
reset_expired now [] q = some q
reset_expired now ((when, p) ∷ expired) q = do
  timer ← q.heap p
  q' ←
      if timer.repeats && not (member (p, timer.sequence) q.canceling_timers)
      then (do
        (earliest_changed, q') ←
            insert_timer p (record q { heap = place p (some (restart now timer)) q.heap })
        some q')
      else some (record q { heap = place p none q.heap })
  reset_expired now expired q'

-- What stands behind the loop of `Reset`.
unfoldable pub set_alarm : Queue → Option Queue
set_alarm q = elim q.timers [
  | [] ↦ some q
  | (first, p) ∷ entries ↦ (do
    timer ← q.heap p
    some (if is_valid timer.expiration then record q { alarm = some timer.expiration } else q))
]

unfoldable pub reset : List Entry → Timestamp → Queue → Option Queue
reset expired now q = do q' ← reset_expired now expired q; set_alarm q'

-- What a callback does to the queue, on the loop's thread.
pub data Call : Type 0 where
  adds : ℕ → Timer → Call
  cancels : ActiveTimer → Call

unfoldable pub make_calls : List Call → Queue → Option Queue
make_calls [] q = some q
make_calls (adds p timer ∷ calls) q = do (id, q') ← add_timer p timer q; make_calls calls q'
make_calls (cancels id ∷ calls) q = do q' ← cancel_in_loop id q; make_calls calls q'

-- The loop of `HandleRead`; `callback` tells what the callback of a sequence number does.
unfoldable pub call_expired : (ℕ → List Call) → List Entry → Queue → Option Queue
call_expired callback [] q = some q
call_expired callback ((when, p) ∷ expired) q = do
  timer ← q.heap p
  q' ← make_calls (callback timer.sequence) q
  call_expired callback expired q'

unfoldable pub handle_read : (ℕ → List Call) → Timestamp → Queue → Option Queue
handle_read callback now q = do
  (expired, q1) ← get_expired now (record q { alarm = none })
  q2 ←
      call_expired callback expired
        (record q1 { is_calling_expired_timers = true; canceling_timers = [] })
  reset expired now (record q2 { is_calling_expired_timers = false })

-- `howlongtimefromnow`: the seconds and nanoseconds of the timespec, at least 100 microseconds.
unfoldable pub how_long : Timestamp → Timestamp → ℤ × ℤ
how_long when now =
    let duration = nanoseconds (since when now) in
    let ns =
      if ltb_ℤ duration (pos (100 * microsecond)) then pos (100 * microsecond) else duration in
    (quot_ℤ ns second, rem_ℤ ns second)
