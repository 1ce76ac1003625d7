-- ===== src/TimerQueue/Flight.antt =====
-- The expired timers while their callbacks are called: they live, and wait in neither set, whatever
-- the callbacks add and cancel.
use evk.Prelude.{
  ℕ, ◌≡◌, refl, ◌∙◌, List, [], ◌∷◌, Option, some, none, Bool, true, false, not, ◌&&◌, ◌||◌, ltb,
  ◌==◌, arith, Bool-cases, inl, inr,
}
use evk.SortedSet.{member}
use evk.Timestamp.{Timestamp}
use evk.TimerQueue.{Timer, Queue, Entry, entry_order, active_order, uintptr_max}
use evk.TimerQueue.Invariant.{Inv, Idle, is_active_at, the_same}
use evk.TimerQueue.Invariant.Insert.{Adds}
use evk.TimerQueue.Invariant.Cancel.{Cancels}

-- Whether an entry has the address.
abbrev pub occurs : ℕ → List Entry → Bool
occurs k [] = false
occurs k ((w, p) ∷ es) = (k == p) || occurs k es

abbrev pub are_distinct : List Entry → Bool
are_distinct [] = true
are_distinct ((w, p) ∷ es) = not (occurs p es) && are_distinct es

abbrev pub lives : Option Timer → Bool
lives none = false
lives (some t) = true

pub record Flight (es : List Entry) (q : Queue) : Type 0 where
  pub distinct : are_distinct es ≡ true
  pub alive : (k : ℕ) → occurs k es ≡ (occurs k es && (lives (q.heap k) && ltb k uintptr_max))
  pub idle : (w : Timestamp) (k : ℕ) → (occurs k es && member (w, k) q.timers) ≡ false

pub no_entry-Idle :
    (p : ℕ) (q : Queue) → Inv q → ((w : Timestamp) → member (w, p) q.timers ≡ false) → Idle p q
no_entry-Idle p q i h = record { no_entry = h; no_active = λ s. i.active_at p s ∙ go s (q.heap p) }
  where
    go : (s : ℕ) (o : Option Timer) → is_active_at p s o q.timers ≡ false
    go s none = refl
    go s (some t) = rw (h t.expiration) (ground arith)

not_active :
    (es : List Entry) (q : Queue) (p s : ℕ)
    → Inv q
    → Flight es q
    → (occurs p es && member (p, s) q.active_timers) ≡ false
not_active es q p s i f = rw (i.active_at p s) (go (q.heap p))
  where
    go : (o : Option Timer) → (occurs p es && is_active_at p s o q.timers) ≡ false
    go none = ground arith
    go (some t) = ground (arith, f.idle t.expiration p)

pub cancel-Flight :
    (es : List Entry) (p s : ℕ) (q q' : Queue)
    → Inv q
    → Flight es q
    → Cancels p s q q'
    → Flight es q'
cancel-Flight es p s q q' i f c = record {
  distinct = f.distinct;
  alive = λ k. rw (c.heap k) (elim (Bool-cases (k == p)) [
    | inl e ↦ rw e (rw (the_same k p e) (ground (arith, not_active es q p s i f, f.alive p)))
    | inr n ↦ rw n (f.alive k)
  ]);
  idle = λ w k. rw (c.members w k) (ground (arith, f.idle w k));
}

-- No timer of these lives at an address that is free.
free_elsewhere :
    (es : List Entry) (q : Queue) (p : ℕ) → Flight es q → q.heap p ≡ none → occurs p es ≡ false
free_elsewhere es q p f free = f.alive p ∙ rw free (ground arith)

pub add-Flight :
    (es : List Entry) (p : ℕ) (t : Timer) (q q' : Queue)
    → q.heap p ≡ none
    → Flight es q
    → Adds p t q q'
    → Flight es q'
add-Flight es p t q q' free f a = record {
  distinct = f.distinct;
  alive = λ k. rw a.heap (elim (Bool-cases (k == p)) [
    | inl e ↦ rw e (rw (the_same k p e, free_elsewhere es q p f free) refl)
    | inr n ↦ rw n (f.alive k)
  ]);
  idle = λ w k. rw (a.members w k) (elim (Bool-cases (k == p)) [
    | inl e ↦ rw e (rw (the_same k p e, free_elsewhere es q p f free) refl)
    | inr n ↦ rw n (f.idle w k)
  ]);
}
