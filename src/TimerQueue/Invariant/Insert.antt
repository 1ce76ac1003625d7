-- ===== src/TimerQueue/Invariant/Insert.antt =====
-- Insert and AddTimer.
use evk.Prelude.{
  ℕ, suc, ◌<◌, ◌≡◌, refl, sym, ap, ◌∙◌, Option, some, none, false, ◌&&◌, ◌||◌, length, lt→ltb,
  eq→==, ◌==◌, if◌then◌else◌, arith, Bool-cases, inl, inr,
}
use evk.SortedSet.{member, insert}
use evk.SortedSet.Laws.{member-insert, length-insert, insert-sorted}
use evk.Timestamp.{Timestamp}
use evk.TimerQueue.{
  Timer, Queue, entry_order, active_order, uintptr_max, place, is_earliest, insert_timer,
  add_timer_in_loop, add_timer,
}
use evk.TimerQueue.Keys.{same_time, same_entry, same_active, same_time_refl}
use evk.TimerQueue.Invariant.{Inv, Idle, waits_at, is_active_at, the_same, place-Inv}

-- What Insert does for the timer `t` at `p`.
pub record Inserts (p : ℕ) (t : Timer) (q q' : Queue) : Type 0 where
  pub run : insert_timer p q ≡ some (is_earliest t.expiration q.timers, q')
  pub inv : Inv q'
  pub heap : q'.heap ≡ q.heap
  pub alarm : q'.alarm ≡ q.alarm
  pub canceling : q'.canceling_timers ≡ q.canceling_timers
  pub calling : q'.is_calling_expired_timers ≡ q.is_calling_expired_timers
  pub members :
      (w : Timestamp) (k : ℕ)
      → member (w, k) q'.timers ≡ (((k == p) && same_time w t.expiration) || member (w, k) q.timers)

module _ (p : ℕ) (t : Timer) (q : Queue) (i : Inv q) (live : q.heap p ≡ some t) (a : Idle p q)
    (fits : p < uintptr_max) where
  unfoldable pub inserted : Queue
  inserted = record q {
    timers = insert (t.expiration, p) q.timers;
    active_timers = insert (p, t.sequence) q.active_timers;
  }

  member_timers :
      (w : Timestamp) (k : ℕ)
      → member (w, k) (insert (t.expiration, p) q.timers)
        ≡ (((k == p) && same_time w t.expiration) || member (w, k) q.timers)
  member_timers w k =
      member-insert (w, k) (t.expiration, p) q.timers
      ∙ ap (λ b. b || member (w, k) q.timers) (same_entry w t.expiration k p)

  member_active :
      (k s : ℕ)
      → member (k, s) (insert (p, t.sequence) q.active_timers)
        ≡ (((k == p) && (s == t.sequence)) || member (k, s) q.active_timers)
  member_active k s =
      member-insert (k, s) (p, t.sequence) q.active_timers
      ∙ ap (λ b. b || member (k, s) q.active_timers) (same_active k p s t.sequence)

  new_sizes :
      length (insert (t.expiration, p) q.timers) ≡ length (insert (p, t.sequence) q.active_timers)
  new_sizes =
      length-insert (t.expiration, p) q.timers (a.no_entry t.expiration)
      ∙ ap suc i.sizes
      ∙ sym (length-insert (p, t.sequence) q.active_timers (a.no_active t.sequence))

  timer_here :
      (w : Timestamp)
      → member (w, p) (insert (t.expiration, p) q.timers)
        ≡ waits_at w p (q.heap p) (insert (p, t.sequence) q.active_timers)
  timer_here w =
      rw
        (
          live,
          member_timers w p,
          member_active p t.sequence,
          a.no_entry w,
          eq→== p p refl,
          eq→== t.sequence t.sequence refl,
        )
        (ground arith)

  timer_elsewhere :
      (w : Timestamp) (k : ℕ) (o : Option Timer)
      → (k == p) ≡ false
      → member (w, k) q.timers ≡ waits_at w k o q.active_timers
      → member (w, k) q.timers ≡ waits_at w k o (insert (p, t.sequence) q.active_timers)
  timer_elsewhere w k none n e = e
  timer_elsewhere w k (some u) n e = rw (member_active k u.sequence, n) e

  active_here :
      (s : ℕ)
      → member (p, s) (insert (p, t.sequence) q.active_timers)
        ≡ is_active_at p s (q.heap p) (insert (t.expiration, p) q.timers)
  active_here s =
      rw (live, member_active p s, member_timers t.expiration p, a.no_active s, eq→== p p refl)
        (ground (arith, same_time_refl t.expiration))

  active_elsewhere :
      (k s : ℕ) (o : Option Timer)
      → (k == p) ≡ false
      → member (k, s) q.active_timers ≡ is_active_at k s o q.timers
      → member (k, s) q.active_timers ≡ is_active_at k s o (insert (t.expiration, p) q.timers)
  active_elsewhere k s none n e = e
  active_elsewhere k s (some u) n e = rw (member_timers u.expiration k, n) e

  pub inserted-Inv : Inv inserted
  unfolding inserted
  inserted-Inv = record {
    sizes = new_sizes;
    sorted_timers = insert-sorted (t.expiration, p) q.timers i.sorted_timers;
    sorted_active = insert-sorted (p, t.sequence) q.active_timers i.sorted_active;
    timer_at = λ w k. elim (Bool-cases (k == p)) [
      | inl e ↦ rw (the_same k p e) (timer_here w)
      | inr e ↦ member_timers w k ∙ rw e (timer_elsewhere w k (q.heap k) e (i.timer_at w k))
    ];
    active_at = λ k s. elim (Bool-cases (k == p)) [
      | inl e ↦ rw (the_same k p e) (active_here s)
      | inr e ↦ member_active k s ∙ rw e (active_elsewhere k s (q.heap k) e (i.active_at k s))
    ];
    low = λ w k. elim (Bool-cases (k == p)) [
      | inl e ↦ rw (the_same k p e, lt→ltb p uintptr_max fits) refl
      | inr e ↦ rw (member_timers w k, e) (i.low w k)
    ];
  }

  -- Insert returns; no assert fails; it tells whether the timer is the earliest.
  pub insert-Inserts : (q' : Queue) × Inserts p t q q'
  unfolding insert_timer
  insert-Inserts = (
    inserted,
    unfold inserted in
        record {
          run =
              rw
                (
                  live,
                  eq→== _ _ i.sizes,
                  a.no_entry t.expiration,
                  a.no_active t.sequence,
                  eq→== _ _ new_sizes,
                )
                refl;
          inv = inserted-Inv;
          heap = refl;
          alarm = refl;
          canceling = refl;
          calling = refl;
          members = member_timers;
        },
  )

pub alarm-Inv : (o : Option Timestamp) (q : Queue) → Inv q → Inv (record q { alarm = o })
alarm-Inv o q i = record {
  sizes = i.sizes;
  sorted_timers = i.sorted_timers;
  sorted_active = i.sorted_active;
  timer_at = i.timer_at;
  active_at = i.active_at;
  low = i.low;
}

-- No timer waits at an address where none lives.
pub Idle-free : (p : ℕ) (q : Queue) → Inv q → q.heap p ≡ none → Idle p q
Idle-free p q i free = record {
  no_entry = λ w. i.timer_at w p ∙ rw free refl;
  no_active = λ s. i.active_at p s ∙ rw free refl;
}

add_earliest :
    (p : ℕ) (t : Timer) (q q' : Queue)
    → Inserts p t q q'
    → q.heap p ≡ some t
    → add_timer_in_loop p q
      ≡ some (record q' {
        alarm = if is_earliest t.expiration q.timers then some t.expiration else q'.alarm;
      })
unfolding add_timer_in_loop
add_earliest p t q q' k live =
    rw (k.run, k.heap, live)
      (elim (Bool-cases (is_earliest t.expiration q.timers)) [
        | inl e ↦ rw e refl
        | inr e ↦ rw e refl
      ])

-- What AddTimer does for the new timer `t` at `p`.
pub record Adds (p : ℕ) (t : Timer) (q q' : Queue) : Type 0 where
  pub run : add_timer p t q ≡ some ((p, t.sequence), q')
  pub inv : Inv q'
  -- It waits beside those that did.
  pub members :
      (w : Timestamp) (k : ℕ)
      → member (w, k) q'.timers ≡ (((k == p) && same_time w t.expiration) || member (w, k) q.timers)
  -- The alarm is set to its time exactly if it is the earliest.
  pub alarm : q'.alarm ≡ (if is_earliest t.expiration q.timers then some t.expiration else q.alarm)
  pub heap : q'.heap ≡ place p (some t) q.heap
  pub canceling : q'.canceling_timers ≡ q.canceling_timers

-- AddTimer of a new timer, at an address where none lives: no assert fails, the sets stay in step, the
-- timer waits in them beside those that did; and the alarm is set to its time exactly if it is the
-- earliest.
pub add_timer-Adds :
    (p : ℕ) (t : Timer) (q : Queue)
    → Inv q
    → q.heap p ≡ none
    → p < uintptr_max
    → (q' : Queue) × Adds p t q q'
unfolding add_timer
add_timer-Adds p t q i free fits =
    let q0 : Queue = record q { heap = place p (some t) q.heap } in
    let live : q0.heap p ≡ some t = rw (eq→== p p refl) refl in
    let idle : Idle p q = Idle-free p q i free in
    let (q1, k) =
      insert-Inserts p t q0 (place-Inv p (some t) q i idle) live
        (record { no_entry = idle.no_entry; no_active = idle.no_active }) fits in
    (
      record q1 {
        alarm = if is_earliest t.expiration q.timers then some t.expiration else q1.alarm;
      },
      record {
        run = rw (add_earliest p t q0 q1 k live) refl;
        inv = alarm-Inv _ q1 k.inv;
        members = k.members;
        alarm =
            ap (λ o. if is_earliest t.expiration q.timers then some t.expiration else o) k.alarm;
        heap = k.heap;
        canceling = k.canceling;
      },
    )
