-- ===== src/TimerQueue/Invariant/Expire.antt =====
-- GetExpired: the timers whose time has come leave both sets, in the order of their times.
use evk.Prelude.{
  ℕ, ◌≡◌, refl, sym, ap, ◌∙◌, List, [], ◌∷◌, ◌++◌, Option, some, none, Bool, true, false, not, ◌&&◌,
  ltb, eq→==, arith, Bool-cases, inl, inr, subst,
}
use mathlib.Core.Bool.{false≢true}
use evk.SortedSet.{member, is_sorted, erase, before, from}
use evk.SortedSet.Laws.{same_refl, member-before, member-from, before-append-from}
use evk.Timestamp.{Timestamp, lt}
use evk.TimerQueue.{
  Timer, Queue, Entry, ActiveTimer, entry_order, active_order, uintptr_max, is_earliest,
  erase_active, get_expired,
}
use evk.TimerQueue.Keys.{entry_lt, same_time-eq}
use evk.TimerQueue.Invariant.{Inv, waits_at}
use evk.TimerQueue.Invariant.Cancel.{removed, removed-Inv}

erase_head : (e : Entry) (xs : List Entry) → erase e (e ∷ xs) ≡ xs
unfolding erase
erase_head e xs = rw (same_refl e) refl

member_head : (e : Entry) (xs : List Entry) → member e (e ∷ xs) ≡ true
unfolding member
member_head e xs = rw (same_refl e) refl

-- The queue with other sets.
abbrev pub with_sets : List Entry → List ActiveTimer → Queue → Queue
with_sets timers active q = record q { timers = timers; active_timers = active }

-- The first timer leaves both sets.
pub leave_first :
    (p : ℕ) (t : Timer) (xs : List Entry) (active : List ActiveTimer) (q : Queue)
    → Inv (with_sets ((t.expiration, p) ∷ xs) active q)
    → q.heap p ≡ some t
    → member (p, t.sequence) active ≡ true
    → Inv (with_sets xs (erase (p, t.sequence) active) q)
unfolding removed
leave_first p t xs active q i live a =
    subst (λ ys. Inv (with_sets ys (erase (p, t.sequence) active) q))
      (erase_head (t.expiration, p) xs)
      (removed-Inv p t (with_sets ((t.expiration, p) ∷ xs) active q) i live
        (member_head (t.expiration, p) xs) a)

-- The timer of the first entry.
pub first_timer :
    (w : Timestamp) (p : ℕ) (xs : List Entry) (active : List ActiveTimer) (q : Queue)
    → Inv (with_sets ((w, p) ∷ xs) active q)
    → (t : Timer) × (q.heap p ≡ some t)
      × (w ≡ t.expiration)
      × (member (p, t.sequence) active ≡ true)
first_timer w p xs active q i = go (q.heap p) refl (sym (i.timer_at w p) ∙ member_head (w, p) xs)
  where
    go :
        (o : Option Timer)
        → q.heap p ≡ o
        → waits_at w p o active ≡ true
        → (t : Timer) × (q.heap p ≡ some t)
          × (w ≡ t.expiration)
          × (member (p, t.sequence) active ≡ true)
    go none e h = absurd (false≢true h)
    go (some t) e h = (t, e, same_time-eq w t.expiration (ground (arith, h)), ground (arith, h))

erase_first :
    (w : Timestamp) (p : ℕ) (t : Timer) (es : List Entry) (active : List ActiveTimer)
    (heap : ℕ → Option Timer) {r : Option (List ActiveTimer)}
    → heap p ≡ some t
    → member (p, t.sequence) active ≡ true
    → erase_active heap es (erase (p, t.sequence) active) ≡ r
    → erase_active heap ((w, p) ∷ es) active ≡ r
unfolding erase_active
erase_first w p t es active heap live a e = rw (live, a) e

-- The loop over the expired timers.
expire_all :
    (s : Entry) (xs : List Entry) (active : List ActiveTimer) (q : Queue)
    → Inv (with_sets xs active q)
    → (active' : List ActiveTimer) × (erase_active q.heap (before s xs) active ≡ some active')
      × Inv (with_sets (from s xs) active' q)
unfolding before from
expire_all s [] active q i = (active, unfold erase_active in refl, i)
expire_all s ((w, p) ∷ xs) active q i = elim (Bool-cases (entry_order.lt (w, p) s)) [
  | inl l ↦
      let (t, live, e, a) = first_timer w p xs active q i in
      let (active', run, j) = expire_all s xs (erase (p, t.sequence) active) q (
        leave_first p t xs active q (subst (λ v. Inv (with_sets ((v, p) ∷ xs) active q)) e i) live
          a) in
      rw l (active', erase_first w p t (before s xs) active q.heap live a run, j)
  | inr n ↦ rw n (active, unfold erase_active in refl, i)
]

-- The first of the timers that stay is later than now.
first_later :
    (now : Timestamp) (xs : List Entry)
    → is_sorted xs ≡ true
    → ((w : Timestamp) (p : ℕ) → member (w, p) xs ≡ (lt now w && member (w, p) xs))
    → is_earliest now xs ≡ true
unfolding is_earliest
first_later now [] s h = refl
first_later now ((w, p) ∷ xs) s h = ground (arith, h w p, member_head (w, p) xs)

-- An entry with a low address comes before the sentry exactly if its time is not later than now.
sentry_lem :
    (w now : Timestamp) (p : ℕ)
    → ltb p uintptr_max ≡ true
    → entry_order.lt (w, p) (now, uintptr_max) ≡ not (lt now w)
unfolding entry_order entry_lt lt
sentry_lem w now p h = ground (arith, h)

-- What GetExpired does at the time `now`.
pub record Expires (now : Timestamp) (q q' : Queue) (expired : List Entry) : Type 0 where
  pub run : get_expired now q ≡ some (expired, q')
  pub inv : Inv q'
  -- The expired entries and those that stay are the old ones, in their order.
  pub parts : expired ++ q'.timers ≡ q.timers
  -- Those expire whose time is not later than now.
  pub gone :
      (w : Timestamp) (p : ℕ) → member (w, p) expired ≡ (not (lt now w) && member (w, p) q.timers)
  pub stay :
      (w : Timestamp) (p : ℕ) → member (w, p) q'.timers ≡ (lt now w && member (w, p) q.timers)
  pub same_heap : q'.heap ≡ q.heap

by_time :
    (f : Bool → Bool) (now w : Timestamp) (p : ℕ) (q : Queue)
    → Inv q
    → (f (entry_order.lt (w, p) (now, uintptr_max)) && member (w, p) q.timers)
      ≡ (f (not (lt now w)) && member (w, p) q.timers)
by_time f now w p q i = elim (Bool-cases (ltb p uintptr_max)) [
  | inl h ↦ ap (λ b. f b && member (w, p) q.timers) (sentry_lem w now p h)
  | inr h ↦ let e : member (w, p) q.timers ≡ false = i.low w p ∙ rw h refl in rw e (ground arith)
]

-- GetExpired, on a queue whose sets are in step: it returns, no assert fails, and they stay in step.
-- What it returns, with what stays, is what waited, in order of time; and a timer is returned exactly
-- if its time is not later than now.
pub get_expired-Expires :
    (now : Timestamp) (q : Queue)
    → Inv q
    → (q' : Queue) × (expired : List Entry) × Expires now q q' expired
unfolding get_expired
get_expired-Expires now q i =
    let s : Entry = (now, uintptr_max) in
    let (active, run, j) = expire_all s q.timers q.active_timers q i in
    let stay : (w : Timestamp) (p : ℕ)
        → member (w, p) (from s q.timers) ≡ (lt now w && member (w, p) q.timers) =
      λ w p.
        member-from (w, p) s q.timers i.sorted_timers ∙ by_time not now w p q i ∙ ground arith in
    (
      with_sets (from s q.timers) active q,
      before s q.timers,
      record {
        run =
            rw
              (
                eq→== _ _ i.sizes,
                first_later now (from s q.timers) j.sorted_timers (λ w p. ground (arith, stay w p)),
                run,
                eq→== _ _ j.sizes,
              )
              refl;
        inv = j;
        parts = before-append-from s q.timers;
        gone =
            λ w p. member-before (w, p) s q.timers i.sorted_timers ∙ by_time (λ b. b) now w p q i;
        stay = stay;
        same_heap = refl;
      },
    )
