-- ===== src/EventLoop/LostStop.antt =====
-- A Stop that another thread sends before Run has begun.
use evk.Prelude.{
  ℕ, ◌≡◌, refl, [], ◌∷◌, true, false, Bool, Bool-cases, inl, inr, not, ◌||◌, some, subst,
}
use mathlib.Core.Bool.{false≢true}
use mathlib.Core.Option.{some-injective, none-ne-some}
use evk.ServerStatus.{is_running, stopping}
use evk.EventLoop.{
  Loop, Place, outside, testing, polling, swapping, handling, calling, wakeup, push, queue_in_loop,
  handle_read, stop, enter, test_status, poll, handle_active, swap, call_next, advance_at, advance,
}
use evk.EventLoop.Interleaving.{push_elsewhere, wake_elsewhere}
use evk.EventLoop.Ending.{is_inside}

-- Any steps of all threads but a Stop, behind `l`.
pub data Goes (l : Loop) : Loop → Type 0 where
  stays : Goes l l
  moves : {m : Loop} → Goes l m → Goes l (advance m)
  hands :
      {m : Loop} (in_loop_thread : Bool) (cb : ℕ)
      → Goes l m
      → Goes l (queue_in_loop in_loop_thread cb m)
  pushes : {m : Loop} (cb : ℕ) → Goes l m → Goes l (push_elsewhere cb m)
  wakens : {m : Loop} → Goes l m → Goes l (wake_elsewhere m)

-- The loop is inside Run and is to go on.
abbrev pub GoesOn : Loop → Type 0
GoesOn l = (is_running l.status ≡ true) × (is_inside l.place ≡ true)

advance_at-GoesOn : (p : Place) (l : Loop) → l.place ≡ p → GoesOn l → GoesOn (advance_at p l)
unfolding advance_at test_status poll handle_active handle_read swap call_next
advance_at-GoesOn outside l at g = absurd (false≢true (rw at at g.1))
advance_at-GoesOn testing l at g = rw (g.0) (g.0, refl)
advance_at-GoesOn polling l at g = (g.0, refl)
advance_at-GoesOn (handling true) l at g = (g.0, refl)
advance_at-GoesOn (handling false) l at g = (g.0, refl)
advance_at-GoesOn swapping l at g = (g.0, refl)
advance_at-GoesOn (calling []) l at g = (g.0, refl)
advance_at-GoesOn (calling (cb ∷ cbs)) l at g = (g.0, refl)

queue-GoesOn : (t : Bool) (cb : ℕ) (l : Loop) → GoesOn l → GoesOn (queue_in_loop t cb l)
unfolding queue_in_loop push wakeup
queue-GoesOn t cb l g = elim (Bool-cases (not t || l.is_calling_pending_functors)) [
  | inl wakes ↦ rw wakes g
  | inr still ↦ rw still g
]

-- Run begins whatever status Stop has stored.
enter-GoesOn : (l m : Loop) → enter l ≡ some m → GoesOn m
unfolding enter is_running
enter-GoesOn l m e = elim (Bool-cases (is_running l.status)) [
  | inl up ↦ absurd (none-ne-some m (rw up at e))
  | inr down ↦ subst GoesOn (some-injective _ m (rw down at e)) (refl, refl)
]

stop_status : (t : Bool) (l : Loop) → (stop t l).status ≡ stopping
unfolding stop wakeup
stop_status true l = refl
stop_status false l = refl

advance-GoesOn : (l : Loop) → GoesOn l → GoesOn (advance l)
unfolding advance
advance-GoesOn l g = advance_at-GoesOn l.place l refl g

push-GoesOn : (cb : ℕ) (l : Loop) → GoesOn l → GoesOn (push_elsewhere cb l)
unfolding push_elsewhere push
push-GoesOn cb l g = g

wake-GoesOn : (l : Loop) → GoesOn l → GoesOn (wake_elsewhere l)
unfolding wake_elsewhere wakeup
wake-GoesOn l g = g

Goes-GoesOn : {l m : Loop} → GoesOn l → Goes l m → GoesOn m
Goes-GoesOn g stays = g
Goes-GoesOn g (moves {m} k) = advance-GoesOn m (Goes-GoesOn g k)
Goes-GoesOn g (hands {m} t cb k) = queue-GoesOn t cb m (Goes-GoesOn g k)
Goes-GoesOn g (pushes cb k) = push-GoesOn cb _ (Goes-GoesOn g k)
Goes-GoesOn g (wakens k) = wake-GoesOn _ (Goes-GoesOn g k)

-- A Stop that comes before Run, from whichever thread, is lost: it has stored its request, but Run
-- overwrites the status; and behind that, in every order of the loop's own steps, of QueueInLoop from
-- any thread and of wake-ups, as long as no other Stop comes, the status is running and Run has not
-- returned.
pub stop_before_run :
    (in_loop_thread : Bool) (l m m' : Loop)
    → enter (stop in_loop_thread l) ≡ some m
    → Goes m m'
    → ((stop in_loop_thread l).status ≡ stopping)
      × (is_running m'.status ≡ true)
      × (is_inside m'.place ≡ true)
stop_before_run t l m m' e k =
    let (up, inside) = Goes-GoesOn (enter-GoesOn (stop t l) m e) k in (stop_status t l, up, inside)
