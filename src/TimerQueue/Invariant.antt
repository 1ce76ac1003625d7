-- ===== src/TimerQueue/Invariant.antt =====
-- The two sets of a queue name the same timers, those that wait; and every operation keeps it so, with
-- no assert failing.
pub mod Insert
pub mod Cancel
pub mod Expire
use evk.Prelude.{
  ℕ, suc, ◌+◌, ◌-◌, ◌^◌, ◌<◌, ◌≡◌, refl, sym, ap, ◌∙◌, List, [], ◌∷◌, Option, some, none, Bool,
  true, false, not, ◌&&◌, ◌||◌, length, ltb, ◌==◌, if◌then◌else◌, arith, Bool-cases, inl, inr,
}
use evk.SortedSet.{member, is_sorted}
use evk.Timestamp.{Timestamp}
use evk.TimerQueue.{Timer, Queue, Entry, ActiveTimer, entry_order, active_order, uintptr_max, place}
use evk.TimerQueue.Keys.{same_time}

-- Whether the live timer `t` at the address `p` waits in both sets.
abbrev pub waits_at : Timestamp → ℕ → Option Timer → List ActiveTimer → Bool
waits_at w p none active = false
waits_at w p (some t) active = same_time w t.expiration && member (p, t.sequence) active

abbrev pub is_active_at : ℕ → ℕ → Option Timer → List Entry → Bool
is_active_at p s none timers = false
is_active_at p s (some t) timers = (s == t.sequence) && member (t.expiration, p) timers

pub record Inv (q : Queue) : Type 0 where
  pub sizes : length q.timers ≡ length q.active_timers
  pub sorted_timers : is_sorted q.timers ≡ true
  pub sorted_active : is_sorted q.active_timers ≡ true
  pub timer_at :
      (w : Timestamp) (p : ℕ) → member (w, p) q.timers ≡ waits_at w p (q.heap p) q.active_timers
  pub active_at : (p s : ℕ) → member (p, s) q.active_timers ≡ is_active_at p s (q.heap p) q.timers
  pub low :
      (w : Timestamp) (p : ℕ)
      → member (w, p) q.timers ≡ (ltb p uintptr_max && member (w, p) q.timers)

-- No timer at the address waits.
pub record Idle (p : ℕ) (q : Queue) : Type 0 where
  pub no_entry : (w : Timestamp) → member (w, p) q.timers ≡ false
  pub no_active : (s : ℕ) → member (p, s) q.active_timers ≡ false

pub the_same : (k p : ℕ) → (k == p) ≡ true → k ≡ p
the_same k p h = ground arith

-- What lives at an address without waiting timers may change.
pub place-Inv :
    (p : ℕ) (o : Option Timer) (q : Queue)
    → Inv q
    → Idle p q
    → Inv (record q { heap = place p o q.heap })
place-Inv p o q i a = record {
  sizes = i.sizes;
  sorted_timers = i.sorted_timers;
  sorted_active = i.sorted_active;
  timer_at = λ w k. elim (Bool-cases (k == p)) [
    | inl e ↦ rw (e, the_same k p e) (a.no_entry w ∙ idle_waits w o)
    | inr e ↦ rw e (i.timer_at w k)
  ];
  active_at = λ k s. elim (Bool-cases (k == p)) [
    | inl e ↦ rw (e, the_same k p e) (a.no_active s ∙ idle_active s o)
    | inr e ↦ rw e (i.active_at k s)
  ];
  low = i.low;
}
  where
    idle_waits : (w : Timestamp) (x : Option Timer) → false ≡ waits_at w p x q.active_timers
    idle_waits w none = refl
    idle_waits w (some t) = ground (arith, a.no_active t.sequence)

    idle_active : (s : ℕ) (x : Option Timer) → false ≡ is_active_at p s x q.timers
    idle_active s none = refl
    idle_active s (some t) = ground (arith, a.no_entry t.expiration)
