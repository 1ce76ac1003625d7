-- ===== src/TimerQueue/HandleRead.antt =====
-- HandleRead: one whole round of expired timers.
use evk.Prelude.{
  ℕ, ◌≡◌, refl, sym, ap, ◌∙◌, List, [], ◌∷◌, Option, some, none, Bool, true, false, ◌&&◌,
  Bool-cases, inl, inr,
}
use evk.Timestamp.{Timestamp, is_valid}
use evk.TimerQueue.{Queue, Entry, ActiveTimer, Call, get_expired, call_expired, reset, handle_read}
use evk.TimerQueue.Invariant.{Inv}
use evk.TimerQueue.Invariant.Insert.{alarm-Inv}
use evk.TimerQueue.Invariant.Expire.{get_expired-Expires}
use evk.TimerQueue.Flight.{occurs, Flight}
use evk.TimerQueue.Callbacks.{are_all_free, call_expired-AllCalled}
use evk.TimerQueue.Departure.{Expires-Flight}
use evk.TimerQueue.Round.{next_alarm, reset-Resets}

-- The queue while callbacks are called, and behind them.
abbrev with_flags : Bool → List ActiveTimer → Queue → Queue
with_flags calling canceling q = record q {
  is_calling_expired_timers = calling;
  canceling_timers = canceling;
}

flags-Inv : (b : Bool) (c : List ActiveTimer) (q : Queue) → Inv q → Inv (with_flags b c q)
flags-Inv b c q i = record {
  sizes = i.sizes;
  sorted_timers = i.sorted_timers;
  sorted_active = i.sorted_active;
  timer_at = i.timer_at;
  active_at = i.active_at;
  low = i.low;
}

flags-Flight :
    (es : List Entry) (b : Bool) (c : List ActiveTimer) (q : Queue)
    → Flight es q
    → Flight es (with_flags b c q)
flags-Flight es b c q f = record { distinct = f.distinct; alive = f.alive; idle = f.idle }

-- What `new` promises in the callbacks of one call of HandleRead.
unfoldable pub is_free_round : (ℕ → List Call) → Timestamp → Queue → Bool
is_free_round callback now q = elim (get_expired now (record q { alarm = none })) [
  | none ↦ true
  | some (expired, q1) ↦ are_all_free callback expired (with_flags true [] q1)
]

at_round :
    (callback : ℕ → List Call) (now : Timestamp) (q q1 : Queue) (expired : List Entry)
    → get_expired now (record q { alarm = none }) ≡ some (expired, q1)
    → is_free_round callback now q ≡ are_all_free callback expired (with_flags true [] q1)
unfolding is_free_round
at_round callback now q q1 expired e =
    ap
      (λ (o : Option (List Entry × Queue)). elim o [
        | none ↦ true
        | some (es, r) ↦ are_all_free callback es (with_flags true [] r)
      ])
      e

runs_round :
    (callback : ℕ → List Call) (now : Timestamp) (q q1 q2 q3 : Queue) (expired : List Entry)
    → get_expired now (record q { alarm = none }) ≡ some (expired, q1)
    → call_expired callback expired (with_flags true [] q1) ≡ some q2
    → reset expired now (record q2 { is_calling_expired_timers = false }) ≡ some q3
    → handle_read callback now q ≡ some q3
unfolding handle_read
runs_round callback now q q1 q2 q3 expired e c r = rw (e, c) r

set_once :
    (xs : List Entry) (o : Option Timestamp) → next_alarm xs o ≡ next_alarm xs (next_alarm xs o)
set_once [] o = refl
set_once ((first, p) ∷ es) o = elim (Bool-cases (is_valid first)) [
  | inl v ↦ rw v refl
  | inr v ↦ rw v refl
]

twice : (b : Bool) → b ≡ (b && b)
twice true = refl
twice false = refl

-- HandleRead, whatever the callbacks of the expired timers add and cancel, provided that `new` gives
-- addresses where no timer lives: it returns, no assert fails and no deleted timer is used; the two
-- sets are in step again; and if the first timer that waits has a valid time, the timerfd is set to it.
pub handle_read-Inv :
    (callback : ℕ → List Call) (now : Timestamp) (q : Queue)
    → Inv q
    → is_free_round callback now q ≡ true
    → (q' : Queue) × (handle_read callback now q ≡ some q')
      × Inv q'
      × (q'.is_calling_expired_timers ≡ false)
      × (q'.alarm ≡ next_alarm q'.timers q'.alarm)
handle_read-Inv callback now q i h =
    let fired : Queue = record q { alarm = none } in
    let j : Inv fired = alarm-Inv none q i in
    let (q1, expired, x) = get_expired-Expires now fired j in
    let f = Expires-Flight now fired q1 expired j x in
    let free = sym (at_round callback now q q1 expired x.run) ∙ h in
    let (q2, c) =
      call_expired-AllCalled callback expired expired (with_flags true [] q1)
        (λ k. twice (occurs k expired)) (flags-Inv true [] q1 x.inv)
        (flags-Flight expired true [] q1 f) free in
    let (q3, run, s, alarm) =
      reset-Resets expired now (with_flags false q2.canceling_timers q2)
        (flags-Inv false q2.canceling_timers q2 c.inv)
        (flags-Flight expired false q2.canceling_timers q2 c.flight) in
    (
      q3,
      runs_round callback now q q1 q2 q3 expired x.run c.run run,
      s.inv,
      s.calling,
      alarm ∙ set_once q3.timers q2.alarm ∙ ap (next_alarm q3.timers) (sym alarm),
    )
