-- ===== src/EventLoop/Ending.antt =====
-- How Run ends behind a Stop.
use evk.Prelude.{
  ℕ, zero, suc, ◌≡◌, refl, sym, ap, ◌∙◌, subst, List, ◌++◌, append-nil, append_assoc, true, false,
  Bool, length,
}
use mathlib.Core.Bool.{false≢true}
use evk.ServerStatus.{is_running, stopped}
use evk.EventLoop.{
  Loop, Place, outside, testing, polling, swapping, handling, calling, handle_read, test_status,
  poll, handle_active, swap, advance_at, advance,
}
use evk.EventLoop.Interleaving.{left}
use evk.EventLoop.Wakeup.{advance_times, advance-at, finished, called}

-- How many steps are left of the round, and of Run.
abbrev pub steps_left : Place → List ℕ → ℕ
steps_left outside pending = 0
steps_left testing pending = 1
steps_left polling pending = suc (suc (suc (suc (suc (length pending)))))
steps_left (handling active) pending = suc (suc (suc (suc (length pending))))
steps_left swapping pending = suc (suc (suc (length pending)))
steps_left (calling functors) pending = suc (suc (length functors))

abbrev pub is_inside : Place → Bool
is_inside outside = false
is_inside _ = true

-- What Run leaves when it returns.
pub record Ends (l l' : Loop) : Type 0 where
  pub place : l'.place ≡ outside
  pub status : l'.status ≡ stopped
  -- Every functor has been called, or waits, in its order.
  pub order : l'.done ++ l'.pending_functors ≡ l.done ++ (left l.place ++ l.pending_functors)

one_more : (n : ℕ) (l : Loop) → advance_times (suc n) l ≡ advance (advance_times n l)
unfolding advance_times
one_more zero l = refl
one_more (suc n) l = one_more n (advance l)

ends_testing : (l : Loop) → l.place ≡ testing → is_running l.status ≡ false → Ends l (advance l)
unfolding advance_at test_status
ends_testing l at down =
    rw (advance-at testing l at)
      (rw down (record { place = refl; status = refl; order = rw at refl }))

ends_calling :
    (fs : List ℕ) (l : Loop)
    → l.place ≡ calling fs
    → is_running l.status ≡ false
    → Ends l (advance_times (suc (suc (length fs))) l)
ends_calling fs l at down =
    let r = ends_testing (finished fs l) refl down in
    rw (one_more (suc (length fs)) l, called fs l at)
      (record {
        place = r.place;
        status = r.status;
        order = r.order ∙ append_assoc l.done fs l.pending_functors ∙ rw at refl;
      })

behind :
    (n : ℕ) (l m : Loop)
    → advance l ≡ m
    → Ends l (advance_times n m)
    → Ends l (advance_times (suc n) l)
unfolding advance_times
behind n l m e = subst (λ x. Ends l (advance_times n x)) (sym e)

ends_swapping :
    (l : Loop)
    → l.place ≡ swapping
    → is_running l.status ≡ false
    → Ends l (advance_times (suc (suc (suc (length l.pending_functors)))) l)
unfolding advance_at swap
ends_swapping l at down =
    let r = ends_calling l.pending_functors (swap l) refl down in
    behind _ l (swap l) (advance-at swapping l at) (record {
      place = r.place;
      status = r.status;
      order = r.order ∙ rw at (ap (λ q. l.done ++ q) (append-nil l.pending_functors));
    })

ends_handling :
    (active : Bool) (l : Loop)
    → l.place ≡ handling active
    → is_running l.status ≡ false
    → Ends l (advance_times (suc (suc (suc (suc (length l.pending_functors))))) l)
unfolding advance_at handle_active handle_read
ends_handling true l at down =
    let r = ends_swapping (handle_active true l) refl down in
    behind _ l (handle_active true l) (advance-at (handling true) l at)
      (record { place = r.place; status = r.status; order = r.order ∙ rw at refl })
ends_handling false l at down =
    let r = ends_swapping (handle_active false l) refl down in
    behind _ l (handle_active false l) (advance-at (handling false) l at)
      (record { place = r.place; status = r.status; order = r.order ∙ rw at refl })

ends_polling :
    (l : Loop)
    → l.place ≡ polling
    → is_running l.status ≡ false
    → Ends l (advance_times (suc (suc (suc (suc (suc (length l.pending_functors)))))) l)
unfolding advance_at poll
ends_polling l at down =
    let r = ends_handling _ (poll l) refl down in
    behind _ l (poll l) (advance-at polling l at)
      (record { place = r.place; status = r.status; order = r.order ∙ rw at refl })

-- A loop inside Run, whose status Stop has changed, returns from Run, if no other step comes between,
-- within as many steps of its own thread as are left of its round: it has stopped, and every functor
-- has been called or still waits, in order.
pub stop_ends_run :
    (l : Loop)
    → is_running l.status ≡ false
    → is_inside l.place ≡ true
    → Ends l (advance_times (steps_left l.place l.pending_functors) l)
stop_ends_run l down inside = go l.place refl inside
  where
    go :
        (p : Place)
        → l.place ≡ p
        → is_inside p ≡ true
        → Ends l (advance_times (steps_left p l.pending_functors) l)
    go outside at h = absurd (false≢true h)
    go testing at h = unfold advance_times in ends_testing l at down
    go polling at h = ends_polling l at down
    go (handling active) at h = ends_handling active l at down
    go swapping at h = ends_swapping l at down
    go (calling fs) at h = ends_calling fs l at down
