-- ===== src/TimerQueue/Departure.antt =====
-- The timers that GetExpired returns, before the first callback.
use evk.Prelude.{
  ℕ, ◌≡◌, refl, sym, ap, ◌∙◌, List, [], ◌∷◌, ◌++◌, Option, some, none, true, false, ◌||◌, ◌==◌,
  arith, Bool-cases, inl, inr, subst,
}
use mathlib.Core.Bool.{false≢true}
use evk.SortedSet.{member, erase}
use evk.SortedSet.Laws.{member-erase, same_refl}
use evk.Timestamp.{Timestamp}
use evk.TimerQueue.{Timer, Queue, Entry, ActiveTimer, entry_order, active_order}
use evk.TimerQueue.Keys.{same_entry, same_time_refl, same_time-eq}
use evk.TimerQueue.Invariant.{Inv, waits_at}
use evk.TimerQueue.Invariant.Expire.{Expires, with_sets, first_timer, leave_first}
use evk.TimerQueue.Flight.{occurs, are_distinct, lives, Flight}

not_occurs :
    (p : ℕ) (xs : List Entry) → ((w : Timestamp) → member (w, p) xs ≡ false) → occurs p xs ≡ false
unfolding member
not_occurs p [] h = refl
not_occurs p ((v, r) ∷ ys) h =
    ground
      (arith, h v, same_entry v v p r, same_time_refl v, not_occurs p ys (λ w. ground (arith, h w)))

occurs_at :
    (p : ℕ) (xs : List Entry) → occurs p xs ≡ true → (w : Timestamp) × (member (w, p) xs ≡ true)
unfolding member
occurs_at p [] h = absurd (false≢true h)
occurs_at p ((v, r) ∷ ys) h = elim (Bool-cases (p == r)) [
  | inl e ↦ (v, ground (arith, e, same_entry v v p r, same_time_refl v))
  | inr n ↦ let (w, m) = occurs_at p ys (rw n at h) in (w, ground (arith, m))
]

-- An address waits for one time only.
Inv-are_distinct :
    (xs : List Entry) (active : List ActiveTimer) (q : Queue)
    → Inv (with_sets xs active q)
    → are_distinct xs ≡ true
Inv-are_distinct [] active q i = refl
Inv-are_distinct ((w, p) ∷ xs) active q i =
    let (t, live, e, a) = first_timer w p xs active q i in
    let j =
      leave_first p t xs active q (subst (λ v. Inv (with_sets ((v, p) ∷ xs) active q)) e i) live
        a in
    let left : member (p, t.sequence) (erase (p, t.sequence) active) ≡ false =
      member-erase (p, t.sequence) (p, t.sequence) active i.sorted_active
      ∙ rw (same_refl ⦃o = active_order⦄ (p, t.sequence)) refl in
    let gone : (v : Timestamp) → member (v, p) xs ≡ false =
      λ v. j.timer_at v p ∙ rw (live, left) (ground arith) in
    ground (arith, not_occurs p xs gone, Inv-are_distinct xs (erase (p, t.sequence) active) q j)

one_time :
    (v w : Timestamp) (k : ℕ) (q : Queue)
    → Inv q
    → member (v, k) q.timers ≡ true
    → member (w, k) q.timers ≡ true
    → w ≡ v
one_time v w k q i h g = go (q.heap k) (sym (i.timer_at v k) ∙ h) (sym (i.timer_at w k) ∙ g)
  where
    go :
        (o : Option Timer)
        → waits_at v k o q.active_timers ≡ true
        → waits_at w k o q.active_timers ≡ true
        → w ≡ v
    go none a b = absurd (false≢true a)
    go (some t) a b =
        same_time-eq w t.expiration (ground (arith, b))
        ∙ sym (same_time-eq v t.expiration (ground (arith, a)))

waits-lives :
    (w : Timestamp) (k : ℕ) (q : Queue)
    → Inv q
    → member (w, k) q.timers ≡ true
    → lives (q.heap k) ≡ true
waits-lives w k q i h = go (q.heap k) (sym (i.timer_at w k) ∙ h)
  where
    go : (o : Option Timer) → waits_at w k o q.active_timers ≡ true → lives o ≡ true
    go none a = a
    go (some t) a = refl

occurs-append : (k : ℕ) (xs ys : List Entry) → occurs k (xs ++ ys) ≡ (occurs k xs || occurs k ys)
occurs-append k [] ys = refl
occurs-append k ((w, p) ∷ xs) ys = ground (arith, occurs-append k xs ys)

are_distinct-append : (xs ys : List Entry) → are_distinct (xs ++ ys) ≡ true → are_distinct xs ≡ true
are_distinct-append [] ys h = refl
are_distinct-append ((w, p) ∷ xs) ys h =
    ground (arith, h, occurs-append p xs ys, are_distinct-append xs ys (ground (arith, h)))

-- The expired timers live, at addresses of their own, and wait in neither set.
pub Expires-Flight :
    (now : Timestamp) (q q' : Queue) (expired : List Entry)
    → Inv q
    → Expires now q q' expired
    → Flight expired q'
Expires-Flight now q q' expired i x = record {
  distinct =
      are_distinct-append expired q'.timers
        (ap are_distinct x.parts ∙ Inv-are_distinct q.timers q.active_timers q i);
  alive = λ k. elim (Bool-cases (occurs k expired)) [
    | inl e ↦
        let (w, m) = occurs_at k expired e in
        let waits : member (w, k) q.timers ≡ true = ground (arith, x.gone w k, m) in
        rw (e, x.same_heap, waits-lives w k q i waits) (ground (arith, waits, i.low w k))
    | inr n ↦ rw n refl
  ];
  idle = λ w k. elim (Bool-cases (occurs k expired)) [
    | inl e ↦
        let (v, m) = occurs_at k expired e in
        elim (Bool-cases (member (w, k) q.timers)) [
          | inl waits ↦
              let same_point : w ≡ v = one_time v w k q i (ground (arith, x.gone v k, m)) waits in
              rw same_point (ground (arith, x.gone v k, x.stay v k, m))
          | inr not_there ↦ ground (arith, x.stay w k, not_there)
        ]
    | inr n ↦ rw n refl
  ];
}
