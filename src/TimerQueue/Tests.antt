-- ===== src/TimerQueue/Tests.antt =====
-- The theorems on the timers, at a queue with one.
use evk.Prelude.{
  ℕ, ◌+◌, ◌*◌, ◌<◌, ◌≡◌, refl, List, [], ◌∷◌, some, none, true, false, ◌==◌, if◌then◌else◌, arith,
  Bool-cases, inl, inr,
}
use evk.Prelude.Int.{pos, ltb_ℤ, ◌-ℤ◌}
use evk.Timestamp.{Timestamp, lt}
use evk.SortedSet.{member, insert, erase, before, from, is_sorted}
use evk.TimerQueue.{
  Timer, Queue, Entry, entry_order, active_order, is_earliest, add_timer, how_long, place,
  add_timer_in_loop, insert_timer, cancel_in_loop, erase_active, get_expired, make_calls, Call,
  adds, cancels, reset, handle_read,
}
use evk.TimerQueue.Keys.{entry_lt, active_lt}
use evk.TimerQueue.Callbacks.{are_free, are_all_free}
use evk.TimerQueue.Round.{next_alarm, Resets, reset-Resets}
use evk.TimerQueue.Flight.{Flight}
use evk.TimerQueue.HandleRead.{is_free_round, handle_read-Inv}
use evk.TimerQueue.Timespec.{how_long_lem}
use evk.TimerQueue.Invariant.{Inv, the_same, Idle, place-Inv}
use evk.TimerQueue.Invariant.Insert.{
  inserted, add_timer-Adds, Adds, Idle-free, alarm-Inv, inserted-Inv,
}
use evk.TimerQueue.Invariant.Cancel.{Cancels, cancel_in_loop-Cancels}
use evk.TimerQueue.Invariant.Expire.{Expires, get_expired-Expires}

abbrev at : ℕ → Timestamp
at n = record { ns = pos n }

-- Every 30 nanoseconds, from 50 on.
abbrev ticking : Timer
ticking = record {
  expiration = at 50;
  interval = record { ns = pos 30 };
  repeats = true;
  sequence = 1;
}

abbrev none_waits : Queue
none_waits = record {
  timers = [];
  active_timers = [];
  canceling_timers = [];
  is_calling_expired_timers = false;
  heap = λ p. none;
  alarm = none;
}

none_waits-Inv : Inv none_waits
unfolding member is_sorted
none_waits-Inv = record {
  sizes = refl;
  sorted_timers = refl;
  sorted_active = refl;
  timer_at = λ w p. refl;
  active_at = λ p s. refl;
  low = λ w p. ground arith;
}

add_timer-Adds_example : (q' : Queue) × Adds 64 ticking none_waits q'
add_timer-Adds_example = add_timer-Adds 64 ticking none_waits none_waits-Inv refl (omega arith)

abbrev one_waits : Queue
one_waits = record none_waits {
  timers = (at 50, 64) ∷ [];
  active_timers = (64, 1) ∷ [];
  heap = place 64 (some ticking) none_waits.heap;
  alarm = some (at 50);
}

abbrev arriving : Queue
arriving = record none_waits { heap = place 64 (some ticking) none_waits.heap }

none-Idle : Idle 64 none_waits
none-Idle = Idle-free 64 none_waits none_waits-Inv refl

arriving-Idle : Idle 64 arriving
arriving-Idle = record { no_entry = none-Idle.no_entry; no_active = none-Idle.no_active }

arriving-Inv : Inv arriving
arriving-Inv = place-Inv 64 (some ticking) none_waits none_waits-Inv none-Idle

one_waits-Inv : Inv one_waits
unfolding inserted insert
one_waits-Inv =
    alarm-Inv (some (at 50)) _
      (inserted-Inv 64 ticking arriving arriving-Inv refl arriving-Idle (omega arith))

cancel_in_loop-Cancels_example : (q' : Queue) × Cancels 64 1 one_waits q'
cancel_in_loop-Cancels_example = cancel_in_loop-Cancels 64 1 one_waits one_waits-Inv

get_expired-Expires_example :
    (q' : Queue) × (expired : List Entry) × Expires (at 60) one_waits q' expired
get_expired-Expires_example = get_expired-Expires (at 60) one_waits one_waits-Inv

-- The callback of the timer 1 adds a timer at 128, and cancels its own.
abbrev once_more : ℕ → List Call
once_more n =
    if n == 1
    then adds 128 (record ticking { expiration = at 90; sequence = 2 }) ∷ (cancels (64, 1) ∷ [])
    else []

once_more_is_free : is_free_round once_more (at 60) one_waits ≡ true
unfolding is_free_round are_all_free are_free get_expired make_calls add_timer add_timer_in_loop
    insert_timer is_earliest cancel_in_loop erase_active member insert erase before from entry_order
    active_order entry_lt active_lt lt
once_more_is_free = refl

handle_read-Inv_example :
    (q' : Queue) × (handle_read once_more (at 60) one_waits ≡ some q')
    × Inv q'
    × (q'.is_calling_expired_timers ≡ false)
    × (q'.alarm ≡ next_alarm q'.timers q'.alarm)
handle_read-Inv_example =
    handle_read-Inv once_more (at 60) one_waits one_waits-Inv once_more_is_free

how_long_lem_example :
    (sec : ℕ) × (nsec : ℕ) × ((how_long (at 50) (at 60)).0 ≡ pos sec)
    × ((how_long (at 50) (at 60)).1 ≡ pos nsec)
    × (nsec < 1000000000)
    × (0 < sec + nsec)
    × (pos (sec * 1000000000 + nsec)
        ≡ (if ltb_ℤ (pos 50 -ℤ pos 60) (pos 100000) then pos 100000 else pos 50 -ℤ pos 60))
how_long_lem_example = how_long_lem (at 50) (at 60)

-- The timer has been taken out of both sets, and its callback has been called.
called-Flight : Flight ((at 50, 64) ∷ []) arriving
unfolding member
called-Flight = record {
  distinct = refl;
  alive =
      λ k. elim (Bool-cases (k == 64)) [ inl e ↦ rw (the_same k 64 e) refl | inr n ↦ rw n refl ];
  idle = λ w k. ground arith;
}

reset-Resets_example :
    (q' : Queue) × (reset ((at 50, 64) ∷ []) (at 60) arriving ≡ some q')
    × Resets ((at 50, 64) ∷ []) (at 60) arriving q'
    × (q'.alarm ≡ next_alarm q'.timers arriving.alarm)
reset-Resets_example = reset-Resets ((at 50, 64) ∷ []) (at 60) arriving arriving-Inv called-Flight
