-- ===== src/TimerQueue/Round.antt =====
-- Reset: the expired timers that repeat wait again, the others are deleted, and the alarm is set.
use evk.Prelude.{
  ℕ, ◌<◌, ◌≡◌, refl, ap, ◌∙◌, List, [], ◌∷◌, Option, some, none, Bool, true, false, not, ◌&&◌, ◌||◌,
  ltb→lt, eq→==, ◌==◌, if◌then◌else◌, arith, Bool-cases, inl, inr,
}
use evk.SortedSet.{member}
use evk.Timestamp.{Timestamp, add, is_valid}
use evk.TimerQueue.{
  Timer, Queue, Entry, ActiveTimer, entry_order, active_order, uintptr_max, place, restart,
  reset_expired, set_alarm, reset,
}
use evk.TimerQueue.Keys.{same_time}
use evk.TimerQueue.Invariant.{Inv, Idle, the_same, place-Inv}
use evk.TimerQueue.Invariant.Insert.{insert-Inserts, alarm-Inv}
use evk.TimerQueue.Invariant.Expire.{with_sets, first_timer}
use evk.TimerQueue.Flight.{occurs, Flight, no_entry-Idle}
use evk.TimerQueue.Callbacks.{timer_of}

-- Whether Reset puts the timer back.
abbrev comes_back : Timer → ℕ → List ActiveTimer → Bool
comes_back t p canceling = t.repeats && not (member (p, t.sequence) canceling)

-- Whether Reset puts what lives at `p` back, to wait for the time `w`.
abbrev pub is_rearmed : Timestamp → Timestamp → ℕ → Option Timer → List ActiveTimer → Bool
is_rearmed now w p none canceling = false
is_rearmed now w p (some t) canceling = comes_back t p canceling && same_time w (add now t.interval)

-- What the turn of the timer `t` at `p` in the loop of Reset leaves.
record Turn (now : Timestamp) (p : ℕ) (t : Timer) (q q' : Queue) : Type 0 where
  run :
      (w : Timestamp) (es : List Entry)
      → reset_expired now ((w, p) ∷ es) q ≡ reset_expired now es q'
  inv : Inv q'
  heap : (k : ℕ) → (k == p) ≡ false → q'.heap k ≡ q.heap k
  members :
      (w : Timestamp) (k : ℕ)
      → member (w, k) q'.timers
        ≡ (((k == p) && is_rearmed now w p (some t) q.canceling_timers) || member (w, k) q.timers)
  canceling : q'.canceling_timers ≡ q.canceling_timers
  calling : q'.is_calling_expired_timers ≡ q.is_calling_expired_timers
  alarm : q'.alarm ≡ q.alarm

module _ (now : Timestamp) (p : ℕ) (t : Timer) (q : Queue) (i : Inv q) (a : Idle p q)
    (live : q.heap p ≡ some t) (fits : p < uintptr_max) where
  put_back : comes_back t p q.canceling_timers ≡ true → (q' : Queue) × Turn now p t q q'
  unfolding reset_expired restart
  put_back b =
      let u = restart now t in
      let q0 : Queue = record q { heap = place p (some u) q.heap } in
      let there : q0.heap p ≡ some u = rw (eq→== p p refl) refl in
      let idle : Idle p q0 = record { no_entry = a.no_entry; no_active = a.no_active } in
      let repeats : t.repeats ≡ true = ground (arith, b) in
      let later : u.expiration ≡ add now t.interval = rw repeats refl in
      let (q1, k) = insert-Inserts p u q0 (place-Inv p (some u) q i a) there idle fits in
      (
        q1,
        record {
          run = λ w es. rw (live, b, k.run) refl;
          inv = k.inv;
          heap = λ r n. rw k.heap (rw n refl);
          members = λ w r.
              k.members w r
              ∙ ap (λ v. ((r == p) && same_time w v) || member (w, r) q.timers) later
              ∙ rw b refl;
          canceling = k.canceling;
          calling = k.calling;
          alarm = k.alarm;
        },
      )

  deleted : comes_back t p q.canceling_timers ≡ false → (q' : Queue) × Turn now p t q q'
  unfolding reset_expired
  deleted b = (
    record q { heap = place p none q.heap },
    record {
      run = λ w es. rw (live, b) refl;
      inv = place-Inv p none q i a;
      heap = λ r n. rw n refl;
      members = λ w r. rw b (ground arith);
      canceling = refl;
      calling = refl;
      alarm = refl;
    },
  )

  some-Turn : (q' : Queue) × Turn now p t q q'
  some-Turn = elim (Bool-cases (comes_back t p q.canceling_timers)) [
    | inl b ↦ put_back b
    | inr b ↦ deleted b
  ]

-- What the loop of Reset leaves, and what Reset leaves but for the alarm.
pub record Resets (es : List Entry) (now : Timestamp) (q q' : Queue) : Type 0 where
  pub inv : Inv q'
  -- Beside the timers that waited there wait those of `es` that repeat and were not cancelled.
  pub members :
      (w : Timestamp) (k : ℕ)
      → member (w, k) q'.timers ≡ (
          (occurs k es && is_rearmed now w k (q.heap k) q.canceling_timers)
          || member (w, k) q.timers)
  pub calling : q'.is_calling_expired_timers ≡ q.is_calling_expired_timers

not_again :
    (w : Timestamp) (p : ℕ) (es : List Entry) (q : Queue)
    → Flight ((w, p) ∷ es) q
    → occurs p es ≡ false
not_again w p es q f = ground (arith, f.distinct)

-- The others keep flying.
Turn-Flight :
    (now w : Timestamp) (p : ℕ) (t : Timer) (es : List Entry) (q q' : Queue)
    → Flight ((w, p) ∷ es) q
    → Turn now p t q q'
    → Flight es q'
Turn-Flight now w p t es q q' f r = record {
  distinct = ground (arith, f.distinct);
  alive = λ k. elim (Bool-cases (k == p)) [
    | inl e ↦ rw (the_same k p e, not_again w p es q f) refl
    | inr n ↦ rw (r.heap k n) (rw n at (f.alive k))
  ];
  idle = λ v k. elim (Bool-cases (k == p)) [
    | inl e ↦ rw (the_same k p e, not_again w p es q f) refl
    | inr n ↦ rw (r.members v k, n) (rw n at (f.idle v k))
  ];
}

-- The members behind the first turn and the others.
members_behind :
    (now w v : Timestamp) (p k : ℕ) (t : Timer) (es : List Entry) (q q' : Queue)
    → Flight ((w, p) ∷ es) q
    → q.heap p ≡ some t
    → Turn now p t q q'
    → ((occurs k es && is_rearmed now v k (q'.heap k) q'.canceling_timers)
        || member (v, k) q'.timers)
      ≡ ((occurs k ((w, p) ∷ es) && is_rearmed now v k (q.heap k) q.canceling_timers)
          || member (v, k) q.timers)
members_behind now w v p k t es q q' f live r = elim (Bool-cases (k == p)) [
  | inl e ↦
      rw (the_same k p e, not_again w p es q f, live, eq→== p p refl)
        (r.members v p ∙ rw (eq→== p p refl) refl)
  | inr n ↦ rw (r.members v k, r.heap k n, r.canceling, n) refl
]

reset_all :
    (es : List Entry) (now : Timestamp) (q : Queue)
    → Inv q
    → Flight es q
    → (q' : Queue) × (reset_expired now es q ≡ some q') × (q'.alarm ≡ q.alarm) × Resets es now q q'
reset_all [] now q i f = (
  q,
  unfold reset_expired in refl,
  refl,
  record { inv = i; members = λ w k. refl; calling = refl },
)
reset_all ((w, p) ∷ es) now q i f =
    let here : occurs p ((w, p) ∷ es) ≡ true = rw (eq→== p p refl) refl in
    let (t, live) = timer_of p ((w, p) ∷ es) q f here in
    let idle : Idle p q = no_entry-Idle p q i (λ v. ground (arith, f.idle v p, here)) in
    let fits : p < uintptr_max = ltb→lt p uintptr_max (ground (arith, f.alive p, here)) in
    let (q1, r) = some-Turn now p t q i idle live fits in
    let (q2, run, alarm, s) = reset_all es now q1 r.inv (Turn-Flight now w p t es q q1 f r) in
    (
      q2,
      r.run w es ∙ run,
      alarm ∙ r.alarm,
      record {
        inv = s.inv;
        members = λ v k. s.members v k ∙ members_behind now w v p k t es q q1 f live r;
        calling = s.calling ∙ r.calling;
      },
    )

-- The time that the timerfd is to be set to: that of the first timer, if it is valid.
abbrev pub next_alarm : List Entry → Option Timestamp → Option Timestamp
next_alarm [] o = o
next_alarm ((first, p) ∷ es) o = if is_valid first then some first else o

set_first :
    (first : Timestamp) (p : ℕ) (t : Timer) (es : List Entry) (active : List ActiveTimer)
    (q : Queue)
    → q.heap p ≡ some t
    → first ≡ t.expiration
    → set_alarm (with_sets ((first, p) ∷ es) active q)
      ≡ some (record (with_sets ((first, p) ∷ es) active q) {
        alarm = next_alarm ((first, p) ∷ es) q.alarm;
      })
unfolding set_alarm
set_first first p t es active q live e =
    rw (live, e)
      (elim (Bool-cases (is_valid t.expiration)) [ inl v ↦ rw v refl | inr v ↦ rw v refl ])

set_alarm_lem :
    (xs : List Entry) (active : List ActiveTimer) (q : Queue)
    → Inv (with_sets xs active q)
    → set_alarm (with_sets xs active q)
      ≡ some (record (with_sets xs active q) { alarm = next_alarm xs q.alarm })
set_alarm_lem [] active q i = unfold set_alarm in refl
set_alarm_lem ((first, p) ∷ es) active q i =
    let (t, live, e, a) = first_timer first p es active q i in
    set_first first p t es active q live e

-- Reset, of timers that live and wait in neither set: it returns, no assert fails, the sets stay in
-- step. The timers that repeat and were not cancelled wait again, from now on, beside those that
-- waited; and the timerfd is set to the first of them all, if its time is valid.
pub reset-Resets :
    (es : List Entry) (now : Timestamp) (q : Queue)
    → Inv q
    → Flight es q
    → (q' : Queue) × (reset es now q ≡ some q')
      × Resets es now q q'
      × (q'.alarm ≡ next_alarm q'.timers q.alarm)
unfolding reset
reset-Resets es now q i f =
    let (q1, run, alarm, s) = reset_all es now q i f in
    (
      record q1 { alarm = next_alarm q1.timers q1.alarm },
      rw run (set_alarm_lem q1.timers q1.active_timers q1 s.inv),
      record {
        inv = alarm-Inv (next_alarm q1.timers q1.alarm) q1 s.inv;
        members = s.members;
        calling = s.calling;
      },
      ap (next_alarm q1.timers) alarm,
    )
