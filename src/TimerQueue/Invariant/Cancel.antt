-- ===== src/TimerQueue/Invariant/Cancel.antt =====
-- Cancel: of a timer that waits, of one whose callback is being called, and of one that is gone.
use evk.Prelude.{
  ℕ, ◌≡◌, refl, sym, ap, ◌∙◌, List, Option, some, none, true, false, not, ◌&&◌, length, eq→==, ◌==◌,
  if◌then◌else◌, arith, Bool-cases, inl, inr, subst,
}
use mathlib.Core.Bool.{false≢true}
use evk.SortedSet.{member, insert, erase}
use evk.SortedSet.Laws.{member-erase, length-erase, erase-sorted}
use evk.Timestamp.{Timestamp}
use evk.TimerQueue.{Timer, Queue, ActiveTimer, entry_order, active_order, place, cancel_in_loop}
use evk.TimerQueue.Keys.{same_time, same_entry, same_active}
use evk.TimerQueue.Invariant.{Inv, Idle, waits_at, is_active_at, the_same, place-Inv}

module _ (p : ℕ) (t : Timer) (q : Queue) (i : Inv q) (live : q.heap p ≡ some t)
    (waits : member (t.expiration, p) q.timers ≡ true)
    (active : member (p, t.sequence) q.active_timers ≡ true) where
  -- The timer taken out of both sets; it lives on.
  unfoldable pub removed : Queue
  removed = record q {
    timers = erase (t.expiration, p) q.timers;
    active_timers = erase (p, t.sequence) q.active_timers;
  }

  member_timers :
      (w : Timestamp) (k : ℕ)
      → member (w, k) (erase (t.expiration, p) q.timers)
        ≡ (not ((k == p) && same_time w t.expiration) && member (w, k) q.timers)
  member_timers w k =
      member-erase (w, k) (t.expiration, p) q.timers i.sorted_timers
      ∙ ap (λ b. not b && member (w, k) q.timers) (same_entry w t.expiration k p)

  member_active :
      (k s : ℕ)
      → member (k, s) (erase (p, t.sequence) q.active_timers)
        ≡ (not ((k == p) && (s == t.sequence)) && member (k, s) q.active_timers)
  member_active k s =
      member-erase (k, s) (p, t.sequence) q.active_timers i.sorted_active
      ∙ ap (λ b. not b && member (k, s) q.active_timers) (same_active k p s t.sequence)

  pub new_sizes :
      length (erase (t.expiration, p) q.timers) ≡ length (erase (p, t.sequence) q.active_timers)
  new_sizes = omega (
    arith,
    length-erase (t.expiration, p) q.timers waits,
    length-erase (p, t.sequence) q.active_timers active,
    i.sizes,
  )

  gone_timer : (w : Timestamp) → member (w, p) (erase (t.expiration, p) q.timers) ≡ false
  gone_timer w = rw (member_timers w p, i.timer_at w p, live, eq→== p p refl) (ground arith)

  gone_active : (s : ℕ) → member (p, s) (erase (p, t.sequence) q.active_timers) ≡ false
  gone_active s = rw (member_active p s, i.active_at p s, live, eq→== p p refl) (ground arith)

  timer_elsewhere :
      (w : Timestamp) (k : ℕ) (o : Option Timer)
      → (k == p) ≡ false
      → member (w, k) q.timers ≡ waits_at w k o q.active_timers
      → member (w, k) q.timers ≡ waits_at w k o (erase (p, t.sequence) q.active_timers)
  timer_elsewhere w k none n e = e
  timer_elsewhere w k (some u) n e = rw (member_active k u.sequence, n) e

  active_elsewhere :
      (k s : ℕ) (o : Option Timer)
      → (k == p) ≡ false
      → member (k, s) q.active_timers ≡ is_active_at k s o q.timers
      → member (k, s) q.active_timers ≡ is_active_at k s o (erase (t.expiration, p) q.timers)
  active_elsewhere k s none n e = e
  active_elsewhere k s (some u) n e = rw (member_timers u.expiration k, n) e

  pub remaining :
      (w : Timestamp) (k : ℕ)
      → member (w, k) (erase (t.expiration, p) q.timers) ≡ (not (k == p) && member (w, k) q.timers)
  remaining w k = elim (Bool-cases (k == p)) [
    | inl e ↦ rw e (rw (the_same k p e) (gone_timer w))
    | inr e ↦ rw e (member_timers w k ∙ rw e refl)
  ]

  pub removed-Idle : Idle p removed
  unfolding removed
  removed-Idle = record { no_entry = gone_timer; no_active = gone_active }

  pub removed-Inv : Inv removed
  unfolding removed
  removed-Inv = record {
    sizes = new_sizes;
    sorted_timers = erase-sorted (t.expiration, p) q.timers i.sorted_timers;
    sorted_active = erase-sorted (p, t.sequence) q.active_timers i.sorted_active;
    timer_at = λ w k. elim (Bool-cases (k == p)) [
      | inl e ↦
          rw (the_same k p e) (gone_timer w ∙ rw (live, gone_active t.sequence) (ground arith))
      | inr e ↦ member_timers w k ∙ rw e (timer_elsewhere w k (q.heap k) e (i.timer_at w k))
    ];
    active_at = λ k s. elim (Bool-cases (k == p)) [
      | inl e ↦
          rw (the_same k p e) (gone_active s ∙ rw (live, gone_timer t.expiration) (ground arith))
      | inr e ↦ member_active k s ∙ rw e (active_elsewhere k s (q.heap k) e (i.active_at k s))
    ];
    low = λ w k. rw (remaining w k) (rw (i.low w k) (ground arith));
  }

-- What Cancel does for the id of `p` and `s`.
pub record Cancels (p s : ℕ) (q q' : Queue) : Type 0 where
  pub run : cancel_in_loop (p, s) q ≡ some q'
  pub inv : Inv q'
  -- The timer no longer waits, if it did; every other waits as before.
  pub members :
      (w : Timestamp) (k : ℕ)
      → member (w, k) q'.timers
        ≡ (not ((k == p) && member (p, s) q.active_timers) && member (w, k) q.timers)
  -- An id that is not waiting is noted while callbacks are called, and ignored else.
  pub canceling : q'.canceling_timers ≡ (
      if not (member (p, s) q.active_timers) && q.is_calling_expired_timers
      then insert (p, s) q.canceling_timers
      else q.canceling_timers)
  -- Its timer lives no longer, every other as before.
  pub heap :
      (k : ℕ) → q'.heap k ≡ (if (k == p) && member (p, s) q.active_timers then none else q.heap k)

canceling-Inv : (c : List ActiveTimer) (q : Queue) → Inv q → Inv (record q { canceling_timers = c })
canceling-Inv c q i = record {
  sizes = i.sizes;
  sorted_timers = i.sorted_timers;
  sorted_active = i.sorted_active;
  timer_at = i.timer_at;
  active_at = i.active_at;
  low = i.low;
}

cancel_waiting :
    (p : ℕ) (t : Timer) (q : Queue)
    → Inv q
    → q.heap p ≡ some t
    → member (t.expiration, p) q.timers ≡ true
    → member (p, t.sequence) q.active_timers ≡ true
    → (q' : Queue) × Cancels p t.sequence q q'
unfolding cancel_in_loop removed
cancel_waiting p t q i live waits active =
    let r = removed p t q i live waits active in
    (
      record r { heap = place p none q.heap },
      record {
        run =
            rw
              (
                eq→== _ _ i.sizes,
                active,
                live,
                waits,
                eq→== _ _ (new_sizes p t q i live waits active),
              )
              refl;
        inv =
            place-Inv p none r (removed-Inv p t q i live waits active)
              (removed-Idle p t q i live waits active);
        members = λ w k. rw active (remaining p t q i live waits active w k ∙ ground arith);
        canceling = rw active refl;
        heap = λ k. rw active (ground arith);
      },
    )

cancel_gone :
    (p s : ℕ) (q : Queue)
    → Inv q
    → member (p, s) q.active_timers ≡ false
    → (q' : Queue) × Cancels p s q q'
unfolding cancel_in_loop
cancel_gone p s q i gone = elim (Bool-cases q.is_calling_expired_timers) [
  | inl c ↦ (
    record q { canceling_timers = insert (p, s) q.canceling_timers },
    record {
      run = rw (eq→== _ _ i.sizes, gone, c) (rw (eq→== _ _ i.sizes) refl);
      inv = canceling-Inv (insert (p, s) q.canceling_timers) q i;
      members = λ w k. rw gone (ground arith);
      canceling = rw (gone, c) refl;
      heap = λ k. rw gone (ground arith);
    },
  )
  | inr c ↦ (
    q,
    record {
      run = rw (eq→== _ _ i.sizes, gone, c) (rw (eq→== _ _ i.sizes) refl);
      inv = i;
      members = λ w k. rw gone (ground arith);
      canceling = rw (gone, c) refl;
      heap = λ k. rw gone (ground arith);
    },
  )
]

-- Cancel of any id, on a queue whose sets are in step: it returns, no assert fails, and they stay in
-- step. The timer of that id no longer waits, every other one waits as before; and an id that does not
-- wait is noted for Reset if a callback is being called, and ignored else.
pub cancel_in_loop-Cancels : (p s : ℕ) (q : Queue) → Inv q → (q' : Queue) × Cancels p s q q'
cancel_in_loop-Cancels p s q i = elim (Bool-cases (member (p, s) q.active_timers)) [
  | inl a ↦ go (q.heap p) refl (sym (i.active_at p s) ∙ a) a
  | inr n ↦ cancel_gone p s q i n
]
  where
    go :
        (o : Option Timer)
        → q.heap p ≡ o
        → is_active_at p s o q.timers ≡ true
        → member (p, s) q.active_timers ≡ true
        → (q' : Queue) × Cancels p s q q'
    go none e h a = absurd (false≢true h)
    go (some t) e h a =
        let same_sequence : s ≡ t.sequence = the_same s t.sequence (ground (arith, h)) in
        subst (λ (r : ℕ). (q' : Queue) × Cancels p r q q') (sym same_sequence)
          (cancel_waiting p t q i e (ground (arith, h)) (rw same_sequence at a))
