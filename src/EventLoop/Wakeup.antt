-- ===== src/EventLoop/Wakeup.antt =====
-- What a client of the loop may rely on: functors run in order and once, and no wake-up is lost.
use evk.Prelude.{
  ℕ, zero, suc, ◌+◌, ◌<◌, ◌≡◌, ◌⊎◌, refl, sym, ap, ◌∙◌, List, [], ◌∷◌, ◌++◌, append-nil,
  append_assoc, true, false, arith, length, ltb, lt→ltb, le→ltb_false, subst,
}
use native.Mathlib.Decide.{dec_lt}
use evk.ServerStatus.{is_running}
use evk.EventLoop.{
  Loop, Place, testing, polling, swapping, handling, calling, handle_read, poll, handle_active,
  swap, call_next, advance_at, advance,
}
use evk.EventLoop.Interleaving.{Reach, Inv, Reach-Inv, left}

-- In every state that the steps of the threads reach, where the loop's thread calls QueueInLoop and
-- Stop only in callbacks, the functors that were called, those that the loop has taken out to call,
-- and those that still wait are all that were handed over, in the order of their handing over, each
-- once.
pub in_order : {l : Loop} → Reach l → l.done ++ (left l.place ++ l.pending_functors) ≡ l.queued
in_order {l} r =
    let (p, i) = Reach-Inv r in
    subst (λ q. l.done ++ (left q ++ l.pending_functors) ≡ l.queued) (sym i.at) i.order

-- In every such state a loop that is about to poll, with a functor that waits or a store of Stop that
-- it has not seen, does not sleep: the eventfd is readable, or a thread is just about to write to it.
pub no_lost_wakeup :
    {l : Loop}
    → Reach l
    → l.place ≡ polling
    → (0 < length l.pending_functors) ⊎ (is_running l.status ≡ false)
    → 0 < l.counter + l.owing
no_lost_wakeup {l} r at h =
    let (p, i) = Reach-Inv r in let j : Inv polling l = rw (sym i.at ∙ at) at i in lem l j h
  where
    lem :
        (l : Loop)
        → Inv polling l
        → (0 < length l.pending_functors) ⊎ (is_running l.status ≡ false)
        → 0 < l.counter + l.owing
    lem l j h = ground (arith, j.woken)

-- `n` steps of the loop's thread, with no step of another between them.
unfoldable pub advance_times : ℕ → Loop → Loop
advance_times zero l = l
advance_times (suc n) l = advance_times n (advance l)

pub advance-at : (p : Place) (l : Loop) → l.place ≡ p → advance l ≡ advance_at p l
unfolding advance
advance-at p l e = ap (λ q. advance_at q l) e

-- The loop behind the call of its functors.
abbrev pub finished : List ℕ → Loop → Loop
finished functors l = record l {
  is_calling_pending_functors = false;
  place = testing;
  done = l.done ++ functors;
}

pub called :
    (fs : List ℕ) (l : Loop)
    → l.place ≡ calling fs
    → advance_times (suc (length fs)) l ≡ finished fs l
unfolding advance_times advance_at call_next
called [] l e =
    advance-at (calling []) l e
    ∙ ap (λ d. record (finished [] l) { done = d }) (sym (append-nil l.done))
called (f ∷ fs) l e =
    ap (advance_times (suc (length fs))) (advance-at (calling (f ∷ fs)) l e)
    ∙ called fs (call_next (f ∷ fs) l) refl
    ∙ ap (λ d. record (finished [] l) { done = d }) (append_assoc l.done (f ∷ []) fs)

-- The wake-up channel is handled if the counter is not zero, so that it is zero behind it.
handled :
    (l : Loop)
    → handle_active (ltb 0 l.counter) l
      ≡ record l { counter = 0; is_calling_pending_functors = true; place = swapping }
unfolding handle_active handle_read
handled l = elim (dec_lt 0 l.counter) [
  | yes h ↦ rw (lt→ltb 0 l.counter h) refl
  | no h ↦ rw (le→ltb_false 0 l.counter (omega arith)) (
      ap (λ n. record l { counter = n; is_calling_pending_functors = true; place = swapping })
        (omega arith))
]

-- A loop that polls calls every functor that waits, in order, within as many steps of its own thread
-- and four more: poll returns, the wake-up is read, the functors are taken out, and the round ends
-- with none left.
pub pending_are_called :
    (l : Loop)
    → l.place ≡ polling
    → advance_times (4 + length l.pending_functors) l
      ≡ record (finished l.pending_functors l) { counter = 0; pending_functors = [] }
unfolding advance_times advance_at poll swap
pending_are_called l e =
    ap (λ n. advance_times n l) {x = 4 + length l.pending_functors}
      {y = suc (suc (suc (suc (length l.pending_functors))))} (omega arith)
    ∙ ap (advance_times (suc (suc (suc (length l.pending_functors))))) (advance-at polling l e)
    ∙ ap (advance_times (suc (suc (length l.pending_functors))))
        (advance-at (handling (ltb 0 l.counter)) (poll l) refl ∙ handled (poll l))
    ∙ ap (advance_times (suc (length l.pending_functors))) (advance-at swapping ready refl)
    ∙ called l.pending_functors (swap ready) refl
  where
    ready : Loop
    ready = record l { counter = 0; is_calling_pending_functors = true; place = swapping }
