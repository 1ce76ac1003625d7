-- ===== src/LoopThread/Stopping.antt =====
-- What StartLoop returns, and how Stop ends.
use evk.Prelude.{
  ℕ, zero, suc, Option, some, none, ◌>>=◌, ◌>>◌, require, true, false, leb, ◌≡◌, ◌≢◌, ◌⊎◌, refl,
  sym, ◌∙◌, inl, inr, arith,
}
use mathlib.Core.Bool.{false≢true}
use evk.ServerStatus.{Status, running, stopping, stopped, is_running, is_stopped}
use evk.LoopThread.{
  LoopThread, Place, absent, making, preparing, notifying, entering, looping, leaving, resetting,
  finished, number, is_started, loop_is_running, begin_stop, stop_loop, test_loop, leave_loop,
  reset_loop, advance_at, advance,
}
use evk.LoopThread.Lifecycle.{Reach, Inv, Reach-Inv, has_loop, is_up, at_looping, stop_asserts}

started_at :
    (p : Place) (t : LoopThread)
    → Inv p t
    → is_started t ≡ true
    → t.has_thread ≡ true
    → (has_loop t.event_loop ≡ true) ⊎ (p ≡ finished)
unfolding is_started number is_stopped
started_at absent t i h g = ground (arith, i.agree, h, g)
started_at making t i h g = ground (arith, i.agree, h, g)
started_at preparing t i h g = inl (ground (arith, i.agree))
started_at notifying t i h g = inl (ground (arith, i.agree))
started_at entering t i h g = inl (ground (arith, i.agree))
started_at looping t i h g = inl (ground (arith, i.agree))
started_at leaving t i h g = inl (ground (arith, i.agree))
started_at resetting t i h g = inl (ground (arith, i.agree))
started_at finished t i h g = inr refl

-- In every state that the steps of all threads reach: when the wait of StartLoop is over, the loop that
-- it returns is there, unless the thread has come to its end already.
pub started_has_loop :
    {t : LoopThread}
    → Reach t
    → is_started t ≡ true
    → t.has_thread ≡ true
    → (has_loop t.event_loop ≡ true) ⊎ (t.place ≡ finished)
started_has_loop {t} r h g =
    let (p, i) = Reach-Inv r in
    elim (started_at p t i h g) [ inl l ↦ inl l | inr f ↦ inr (i.at ∙ f) ]

refused :
    (t : LoopThread) (o : Option Status)
    → is_up o ≡ false
    → (do up ← (do s ← o; some (is_running s)); require up; some (record t { status = stopping }))
      ≡ none
refused t none h = refl
refused t (some s) h = rw h refl

early : (t : LoopThread) → Inv entering t → (is_started t ≡ true) × (begin_stop t ≡ none)
unfolding begin_stop loop_is_running is_started number is_running
early t i =
    let up : is_running t.status ≡ true = ground (arith, i.agree) in
    (
      ground (arith, is_running_number t.status up),
      rw up (refused t t.event_loop (ground (arith, i.agree))),
    )
  where
    is_running_number : (s : Status) → is_running s ≡ true → leb 4 (number s) ≡ true
    is_running_number running h = refl
    is_running_number _ h = absurd (false≢true h)

-- StartLoop may return before the loop's Run has begun: the wait is over as soon as the thread has
-- stored its own status; and a Stop that comes then fails its assert.
pub stop_too_early :
    {t : LoopThread} → Reach t → t.place ≡ entering → (is_started t ≡ true) × (begin_stop t ≡ none)
stop_too_early {t} r h = let (p, i) = Reach-Inv r in early t (rw (sym i.at ∙ h) at i)

-- Some steps of the thread.
unfoldable pub advance_times : ℕ → LoopThread → Option LoopThread
advance_times zero t = some t
advance_times (suc n) t = do u ← advance t; advance_times n u

loop_of : (o : Option Status) → is_up o ≡ true → (s : Status) × (o ≡ some s)
loop_of none h = absurd (false≢true h)
loop_of (some s) h = (s, refl)

added_at : (t : LoopThread) → Inv looping t → t.wakeup_added ≡ true
added_at t i = ground (arith, i.agree)

-- A Stop, in any state that the steps of all threads reach, that gets past its assert: it stops the loop,
-- and two steps of the thread later, if no other comes between, its wait is over; but the next step of
-- the thread, which gives the loop up, fails in the assert of ~Channel for the loop's wake-up channel,
-- so that the thread that Join waits for never ends.
pub stop_fails :
    {t u : LoopThread}
    → Reach t
    → begin_stop t ≡ some u
    → (v : LoopThread) × (w : LoopThread) × (stop_loop u ≡ some v)
      × (advance_times 2 v ≡ some w)
      × (is_stopped w.status ≡ true)
      × (advance w ≡ none)
unfolding stop_loop advance_times advance advance_at test_loop leave_loop is_stopped is_running
    reset_loop
stop_fails {t} {u} r e =
    let (p, i) = Reach-Inv r in
    let (up, loop_up, same) = stop_asserts t u e in
    let there : t.place ≡ looping = i.at ∙ at_looping p t i up loop_up in
    let (s, has) = loop_of t.event_loop loop_up in
    let added : t.wakeup_added ≡ true = added_at t (rw (at_looping p t i up loop_up) at i) in
    let v : LoopThread = record t { status = stopping; event_loop = some stopping } in
    let w : LoopThread = record t {
      status = stopped;
      event_loop = some stopped;
      place = resetting;
    } in
    (v, w, rw (same, has) refl, rw there refl, refl, rw added refl)

-- The thread of a loop comes to its end in no state that the steps of all threads reach.
pub thread_never_ends : {t : LoopThread} → Reach t → t.place ≢ finished
thread_never_ends {t} r h = let (p, i) = Reach-Inv r in false≢true (rw (sym i.at ∙ h) at i).agree
