-- ===== src/LoopThread/Lifecycle.antt =====
-- What the starting thread finds, in every order of the steps.
use evk.Prelude.{
  Option, some, none, ◌>>=◌, ◌>>◌, require, Bool, true, false, not, ◌&&◌, ◌≡◌, refl, sym, ap, ◌∙◌,
  inl, inr, arith, subst, Bool-cases,
}
use mathlib.Core.Bool.{false≢true}
use mathlib.Core.Option.{some-injective, none-ne-some}
use evk.ServerStatus.{Status, starting, stopping, is_running, is_stopped}
use evk.LoopThread.{
  LoopThread, Place, absent, making, preparing, notifying, entering, looping, leaving, resetting,
  finished, init, start, loop_is_running, begin_stop, stop_loop, join, enter_loop, test_loop,
  leave_loop, reset_loop, advance_at, advance,
}

pub data Step : LoopThread → LoopThread → Type 0 where
  starts : {t u : LoopThread} → start t ≡ some u → Step t u
  advances : {t u : LoopThread} → advance t ≡ some u → Step t u
  begins_stop : {t u : LoopThread} → begin_stop t ≡ some u → Step t u
  stops_loop : {t u : LoopThread} → stop_loop t ≡ some u → Step t u
  joins : {t : LoopThread} → t.place ≡ finished → Step t (join t)

pub data Reach : LoopThread → Type 0 where
  here : Reach init
  later : {t u : LoopThread} → Reach t → Step t u → Reach u

abbrev pub has_loop : Option Status → Bool
has_loop none = false
has_loop (some s) = true

abbrev pub is_up : Option Status → Bool
is_up none = false
is_up (some s) = is_running s

abbrev is_starting : Status → Bool
is_starting starting = true
is_starting _ = false

-- What status and loop are at each place.
abbrev pub agrees : Place → LoopThread → Bool
agrees absent t = not t.has_thread && not (has_loop t.event_loop)
agrees making t = t.has_thread && (is_starting t.status && not (has_loop t.event_loop))
agrees preparing t =
    t.has_thread
    && (is_starting t.status
        && (has_loop t.event_loop && (not (is_up t.event_loop) && t.wakeup_added)))
agrees notifying t =
    t.has_thread
    && (is_starting t.status
        && (has_loop t.event_loop && (not (is_up t.event_loop) && t.wakeup_added)))
agrees entering t =
    t.has_thread
    && (is_running t.status
        && (has_loop t.event_loop && (not (is_up t.event_loop) && t.wakeup_added)))
agrees looping t = t.has_thread && (has_loop t.event_loop && t.wakeup_added)
agrees leaving t =
    t.has_thread && (has_loop t.event_loop && (not (is_up t.event_loop) && t.wakeup_added))
agrees resetting t =
    t.has_thread && (has_loop t.event_loop && (is_stopped t.status && t.wakeup_added))
agrees finished t = false

pub record Inv (p : Place) (t : LoopThread) : Type 0 where
  pub at : t.place ≡ p
  pub agree : agrees p t ≡ true

init-Inv : Inv absent init
unfolding init
init-Inv = record { at = refl; agree = refl }

-- A step whose outcome is known.
becomes : {t u : LoopThread} (q : Place) → some t ≡ some u → Inv q t → (r : Place) × Inv r u
becomes {t} {u} q e i = (q, subst (Inv q) (some-injective t u e) i)

-- Only where there is no thread StartLoop gets past its assert.
no_thread : (p : Place) (t : LoopThread) → Inv p t → t.has_thread ≡ false → p ≡ absent
no_thread absent t i h = refl
no_thread making t i h = ground (arith, i.agree, h)
no_thread preparing t i h = ground (arith, i.agree, h)
no_thread notifying t i h = ground (arith, i.agree, h)
no_thread entering t i h = ground (arith, i.agree, h)
no_thread looping t i h = ground (arith, i.agree, h)
no_thread leaving t i h = ground (arith, i.agree, h)
no_thread resetting t i h = ground (arith, i.agree, h)
no_thread finished t i h = ground (arith, i.agree, h)

start-Inv : (p : Place) (t u : LoopThread) → Inv p t → start t ≡ some u → (q : Place) × Inv q u
unfolding start
start-Inv p t u i e = elim (Bool-cases t.has_thread) [
  | inl h ↦ absurd (none-ne-some u (rw h at e))
  | inr h ↦
      let a : Inv absent t = rw (no_thread p t i h) at i in
      becomes making (rw h at e) (record { at = refl; agree = ground (arith, a.agree) })
]

entering-Inv :
    (t u : LoopThread) (o : Option Status)
    → Inv entering t
    → (do s ← o; enter_loop s t) ≡ some u
    → (q : Place) × Inv q u
unfolding enter_loop
entering-Inv t u none i e = absurd (none-ne-some u e)
entering-Inv t u (some s) i e = elim (Bool-cases (is_running s)) [
  | inl r ↦ absurd (none-ne-some u (rw r at e))
  | inr r ↦ becomes looping (rw r at e) (record { at = refl; agree = ground (arith, i.agree) })
]

looping-Inv :
    (t u : LoopThread) (o : Option Status)
    → Inv looping t
    → (do s ← o; test_loop s t) ≡ some u
    → (q : Place) × Inv q u
unfolding test_loop is_running
looping-Inv t u none i e = absurd (none-ne-some u e)
looping-Inv t u (some s) i e = elim (Bool-cases (is_running s)) [
  | inl r ↦ becomes looping (rw r at e) i
  | inr r ↦ becomes leaving (rw r at e) (record { at = refl; agree = ground (arith, i.agree) })
]

leaving-Inv :
    (t u : LoopThread) (o : Option Status)
    → Inv leaving t
    → (do s ← o; leave_loop s t) ≡ some u
    → (q : Place) × Inv q u
unfolding leave_loop is_stopped
leaving-Inv t u none i e = absurd (none-ne-some u e)
leaving-Inv t u (some s) i e = elim (Bool-cases (is_stopped s)) [
  | inl r ↦ becomes resetting (rw r at e) (record { at = refl; agree = ground (arith, i.agree) })
  | inr r ↦ absurd (none-ne-some u (rw r at e))
]

reset_stops : (s : Status) (t : LoopThread) → t.wakeup_added ≡ true → reset_loop s t ≡ none
unfolding reset_loop
reset_stops s t h = elim (Bool-cases (is_stopped s)) [ inl q ↦ rw (q, h) refl | inr q ↦ rw q refl ]

reset_at :
    (o : Option Status) (t : LoopThread) → t.wakeup_added ≡ true → (do s ← o; reset_loop s t) ≡ none
reset_at none t h = refl
reset_at (some s) t h = reset_stops s t h

-- Where the loop is to be given up, the assert on its wake-up channel fails.
pub reset_fails : (t : LoopThread) → Inv resetting t → advance_at resetting t ≡ none
unfolding advance_at
reset_fails t i = reset_at t.event_loop t (ground (arith, i.agree))

advance-Inv :
    (p : Place) (t u : LoopThread) → Inv p t → advance_at p t ≡ some u → (q : Place) × Inv q u
unfolding advance_at is_running is_stopped
advance-Inv absent t u i e = becomes absent e i
advance-Inv making t u i e =
    becomes preparing e (record { at = refl; agree = ground (arith, i.agree) })
advance-Inv preparing t u i e = becomes notifying e (record { at = refl; agree = i.agree })
advance-Inv notifying t u i e =
    becomes entering e (record { at = refl; agree = ground (arith, i.agree) })
advance-Inv entering t u i e = entering-Inv t u t.event_loop i e
advance-Inv looping t u i e = looping-Inv t u t.event_loop i e
advance-Inv leaving t u i e = leaving-Inv t u t.event_loop i e
advance-Inv resetting t u i e = absurd (none-ne-some u (sym (reset_fails t i) ∙ e))
advance-Inv finished t u i e = becomes finished e i

-- Only while the loop runs its status, and that of its thread, is running.
pub at_looping :
    (p : Place) (t : LoopThread)
    → Inv p t
    → is_running t.status ≡ true
    → is_up t.event_loop ≡ true
    → p ≡ looping
unfolding is_running is_stopped
at_looping absent t i h g = ground (arith, i.agree, h, g)
at_looping making t i h g = ground (arith, i.agree, h, g)
at_looping preparing t i h g = ground (arith, i.agree, h, g)
at_looping notifying t i h g = ground (arith, i.agree, h, g)
at_looping entering t i h g = ground (arith, i.agree, h, g)
at_looping looping t i h g = refl
at_looping leaving t i h g = ground (arith, i.agree, h, g)
at_looping resetting t i h g = ground (arith, i.agree, h, g)
at_looping finished t i h g = ground (arith, i.agree, h, g)

-- Stop gets past its assert only then.
pub stop_asserts :
    (t u : LoopThread)
    → begin_stop t ≡ some u
    → (is_running t.status ≡ true)
      × (is_up t.event_loop ≡ true)
      × (u ≡ record t { status = stopping })
unfolding begin_stop loop_is_running
stop_asserts t u e = elim (Bool-cases (is_running t.status)) [
  | inl h ↦ let (g, f) = go t.event_loop (rw h at e) in (h, g, f)
  | inr h ↦ absurd (none-ne-some u (rw h at e))
]
  where
    go :
        (o : Option Status)
        → (do
          up ← (do s ← o; some (is_running s))
          require up
          some (record t { status = stopping }))
          ≡ some u
        → (is_up o ≡ true) × (u ≡ record t { status = stopping })
    go none e = absurd (none-ne-some u e)
    go (some s) e = elim (Bool-cases (is_running s)) [
      | inl h ↦ (h, sym (some-injective _ u (rw h at e)))
      | inr h ↦ absurd (none-ne-some u (rw h at e))
    ]

begin_stop-Inv :
    (p : Place) (t u : LoopThread) → Inv p t → begin_stop t ≡ some u → (q : Place) × Inv q u
begin_stop-Inv p t u i e =
    let (h, g, f) = stop_asserts t u e in
    let j : Inv looping t = rw (at_looping p t i h g) at i in
    (looping, subst (Inv looping) (sym f) (record { at = j.at; agree = ground (arith, j.agree) }))

-- A loop that is there stays there.
stopped-Inv :
    (p : Place) (t : LoopThread)
    → Inv p t
    → has_loop t.event_loop ≡ true
    → agrees p (record t { event_loop = some stopping }) ≡ true
unfolding is_running is_stopped
stopped-Inv absent t i h = ground (arith, i.agree, h)
stopped-Inv making t i h = ground (arith, i.agree, h)
stopped-Inv preparing t i h = ground (arith, i.agree, h)
stopped-Inv notifying t i h = ground (arith, i.agree, h)
stopped-Inv entering t i h = ground (arith, i.agree, h)
stopped-Inv looping t i h = ground (arith, i.agree, h)
stopped-Inv leaving t i h = ground (arith, i.agree, h)
stopped-Inv resetting t i h = ground (arith, i.agree, h)
stopped-Inv finished t i h = ground (arith, i.agree, h)

stop_loop-Inv :
    (p : Place) (t u : LoopThread) → Inv p t → stop_loop t ≡ some u → (q : Place) × Inv q u
unfolding stop_loop
stop_loop-Inv p t u i e = go t.event_loop refl e
  where
    go :
        (o : Option Status)
        → t.event_loop ≡ o
        → (do s ← o; some (record t { event_loop = some stopping })) ≡ some u
        → (q : Place) × Inv q u
    go none h e = absurd (none-ne-some u e)
    go (some s) h e = becomes p e (record { at = i.at; agree = stopped-Inv p t i (ap has_loop h) })

join-Inv : (t : LoopThread) → Inv finished t → (q : Place) × Inv q (join t)
join-Inv t i = absurd (false≢true i.agree)

Step-Inv : {t u : LoopThread} → Step t u → (p : Place) → Inv p t → (q : Place) × Inv q u
unfolding advance
Step-Inv (starts {t} {u} e) p i = start-Inv p t u i e
Step-Inv (advances {t} {u} e) p i = advance-Inv p t u i (sym (ap (λ x. advance_at x t) i.at) ∙ e)
Step-Inv (begins_stop {t} {u} e) p i = begin_stop-Inv p t u i e
Step-Inv (stops_loop {t} {u} e) p i = stop_loop-Inv p t u i e
Step-Inv (joins {t} h) p i = join-Inv t (rw (sym i.at ∙ h) at i)

pub Reach-Inv : {t : LoopThread} → Reach t → (p : Place) × Inv p t
Reach-Inv here = (absent, init-Inv)
Reach-Inv (later r s) = let (p, i) = Reach-Inv r in Step-Inv s p i
