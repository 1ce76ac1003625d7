-- ===== src/EventLoop/Interleaving.antt =====
-- The steps of all threads as a relation, and what holds whatever their order is.
use evk.Prelude.{
  ℕ, ◌+◌, ◌-◌, ◌<◌, ◌≡◌, refl, sym, ap, ◌∙◌, List, [], ◌∷◌, ◌++◌, append-nil, append_assoc, some,
  Bool, true, false, not, ◌&&◌, ◌||◌, arith, length, ltb, Bool-cases, inl, inr, subst,
}
use evk.ServerStatus.{stopping, is_running, running}
use evk.EventLoop.{
  Loop, Place, outside, testing, polling, swapping, handling, calling, init, wakeup, handle_read,
  push, queue_in_loop, stop, enter, test_status, poll, handle_active, swap, call_next, advance_at,
  advance,
}

-- Callbacks of channels and functors run on the loop's thread here.
abbrev pub runs_callbacks : Place → Bool
runs_callbacks (handling active) = true
runs_callbacks (calling functors) = true
runs_callbacks _ = false

-- The first half of QueueInLoop, and of Stop, on another thread; and the second half of either.
unfoldable pub push_elsewhere : ℕ → Loop → Loop
push_elsewhere cb l = record (push cb l) { owing = l.owing + 1 }

unfoldable pub stop_elsewhere : Loop → Loop
stop_elsewhere l = record l { status = stopping; owing = l.owing + 1 }

unfoldable pub wake_elsewhere : Loop → Loop
wake_elsewhere l = record (wakeup l) { owing = l.owing - 1 }

-- On another thread the two halves make up the whole call.
halves_lem :
    (cb : ℕ) (l : Loop)
    → (wake_elsewhere (push_elsewhere cb l) ≡ queue_in_loop false cb l)
      × (wake_elsewhere (stop_elsewhere l) ≡ stop false l)
unfolding wake_elsewhere push_elsewhere stop_elsewhere queue_in_loop stop push wakeup
halves_lem cb l = (
  ap (λ n. record (wakeup (push cb l)) { owing = n }) (omega arith),
  ap (λ n. record (stop false l) { owing = n }) (omega arith),
)

pub data Step : Loop → Loop → Type 0 where
  enters : {l m : Loop} → l.place ≡ outside → enter l ≡ some m → Step l m
  advances : {l : Loop} → Step l (advance l)
  queues : {l : Loop} (cb : ℕ) → runs_callbacks l.place ≡ true → Step l (queue_in_loop true cb l)
  stops : {l : Loop} → runs_callbacks l.place ≡ true → Step l (stop true l)
  pushes_elsewhere : {l : Loop} (cb : ℕ) → Step l (push_elsewhere cb l)
  stops_elsewhere : {l : Loop} → Step l (stop_elsewhere l)
  wakes_elsewhere : {l : Loop} → 0 < l.owing → Step l (wake_elsewhere l)

pub data Reach : Loop → Type 0 where
  start : Reach init
  later : {l m : Loop} → Reach l → Step l m → Reach m

-- The functors that are left to call.
abbrev pub left : Place → List ℕ
left (calling functors) = functors
left _ = []

abbrev pub calls : Place → Bool
calls swapping = true
calls (calling functors) = true
calls _ = false

abbrev pub is_polling : Place → Bool
is_polling polling = true
is_polling _ = false

-- The next poll may come before the next swap.
abbrev pub polls_first : Place → Bool
polls_first outside = true
polls_first testing = true
polls_first polling = true
polls_first (calling functors) = true
polls_first _ = false

-- Someone waits for the loop: a functor, or a thread that stops it while it polls.
abbrev pub awaited : Place → Loop → Bool
awaited p l =
    (polls_first p && ltb 0 (length l.pending_functors))
    || (is_polling p && not (is_running l.status))

-- A wake-up has been written, or is owed.
abbrev pub awake : Loop → Bool
awake l = ltb 0 (l.counter + l.owing)

pub record Inv (p : Place) (l : Loop) : Type 0 where
  pub at : l.place ≡ p
  pub order : l.done ++ (left p ++ l.pending_functors) ≡ l.queued
  pub flag : l.is_calling_pending_functors ≡ calls p
  pub woken : (awaited p l && not (awake l)) ≡ false

advance_at-Inv : (p : Place) (l : Loop) → Inv p l → (q : Place) × Inv q (advance_at p l)
unfolding advance_at test_status poll handle_active handle_read swap call_next is_running
advance_at-Inv outside l i = (outside, i)
advance_at-Inv testing l i = elim (Bool-cases (is_running l.status)) [
  | inl up ↦ (
    polling,
    rw up
        (record { at = refl; order = i.order; flag = i.flag; woken = ground (arith, i.woken, up) }),
  )
  | inr down ↦ (
    outside,
    rw down (record { at = refl; order = i.order; flag = i.flag; woken = ground (arith, i.woken) }),
  )
]
advance_at-Inv polling l i =
    (handling (ltb 0 l.counter), record { at = refl; order = i.order; flag = i.flag; woken = refl })
advance_at-Inv (handling true) l i =
    (swapping, record { at = refl; order = i.order; flag = refl; woken = refl })
advance_at-Inv (handling false) l i =
    (swapping, record { at = refl; order = i.order; flag = refl; woken = refl })
advance_at-Inv swapping l i = (
  calling l.pending_functors,
  record {
    at = refl;
    order = ap (λ q. l.done ++ q) (append-nil l.pending_functors) ∙ i.order;
    flag = i.flag;
    woken = refl;
  },
)
advance_at-Inv (calling []) l i =
    (testing, record { at = refl; order = i.order; flag = refl; woken = i.woken })
advance_at-Inv (calling (f ∷ fs)) l i = (
  calling fs,
  record {
    at = refl;
    order = append_assoc l.done (f ∷ []) (fs ++ l.pending_functors) ∙ i.order;
    flag = i.flag;
    woken = i.woken;
  },
)

-- One functor more at the end.
push_order :
    (p : Place) (cb : ℕ) (l : Loop)
    → Inv p l
    → l.done ++ (left p ++ (l.pending_functors ++ cb ∷ [])) ≡ l.queued ++ cb ∷ []
push_order p cb l i =
    ap (λ q. l.done ++ q) (sym (append_assoc (left p) l.pending_functors (cb ∷ [])))
    ∙ sym (append_assoc l.done (left p ++ l.pending_functors) (cb ∷ []))
    ∙ ap (λ q. q ++ cb ∷ []) i.order

queue_in_loop-Inv :
    (p : Place) (cb : ℕ) (l : Loop)
    → Inv p l
    → runs_callbacks p ≡ true
    → Inv p (queue_in_loop true cb l)
unfolding queue_in_loop push wakeup
queue_in_loop-Inv (handling a) cb l i h =
    rw i.flag
      (record { at = i.at; order = push_order (handling a) cb l i; flag = refl; woken = refl })
queue_in_loop-Inv (calling fs) cb l i h = rw i.flag (record {
  at = i.at;
  order = push_order (calling fs) cb l i;
  flag = refl;
  woken = ground arith;
})
queue_in_loop-Inv outside cb l i h = cc
queue_in_loop-Inv testing cb l i h = cc
queue_in_loop-Inv polling cb l i h = cc
queue_in_loop-Inv swapping cb l i h = cc

stop-Inv : (p : Place) (l : Loop) → Inv p l → runs_callbacks p ≡ true → Inv p (stop true l)
unfolding stop
stop-Inv (handling a) l i h = record { at = i.at; order = i.order; flag = i.flag; woken = refl }
stop-Inv (calling fs) l i h = record { at = i.at; order = i.order; flag = i.flag; woken = i.woken }
stop-Inv outside l i h = cc
stop-Inv testing l i h = cc
stop-Inv polling l i h = cc
stop-Inv swapping l i h = cc

owed : (a : Bool) (c o : ℕ) → (a && not (ltb 0 (c + (o + 1)))) ≡ false
owed a c o = ground arith

entered : (l m : Loop) → enter l ≡ some m → m ≡ record l { status = running; place = testing }
unfolding enter
entered l m e = ground (arith, e)

enter-Inv :
    (l : Loop) → Inv outside l → Inv testing (record l { status = running; place = testing })
enter-Inv l i = record { at = refl; order = i.order; flag = i.flag; woken = i.woken }

pub Step-Inv : {l m : Loop} → Step l m → (p : Place) → Inv p l → (q : Place) × Inv q m
unfolding advance
Step-Inv (enters {l} {m} out e) p i =
    (testing, rw (entered l m e) (enter-Inv l (rw (sym i.at ∙ out) at i)))
Step-Inv (advances {l}) p i =
    subst (λ x. (q : Place) × Inv q (advance_at x l)) (sym i.at) (advance_at-Inv p l i)
Step-Inv (queues {l} cb h) p i = (p, queue_in_loop-Inv p cb l i (ap runs_callbacks (sym i.at) ∙ h))
Step-Inv (stops {l} h) p i = (p, stop-Inv p l i (ap runs_callbacks (sym i.at) ∙ h))
Step-Inv (pushes_elsewhere {l} cb) p i =
    unfold push_elsewhere push in
    (
      p,
      record {
        at = i.at;
        order = push_order p cb l i;
        flag = i.flag;
        woken = owed _ l.counter l.owing;
      },
    )
Step-Inv (stops_elsewhere {l}) p i =
    unfold stop_elsewhere in
    (p, record { at = i.at; order = i.order; flag = i.flag; woken = owed _ l.counter l.owing })
Step-Inv (wakes_elsewhere {l} h) p i =
    unfold wake_elsewhere wakeup in
    (p, record { at = i.at; order = i.order; flag = i.flag; woken = ground (arith, i.woken) })

init-Inv : Inv outside init
unfolding init
init-Inv = record { at = refl; order = refl; flag = refl; woken = refl }

pub Reach-Inv : {l : Loop} → Reach l → (p : Place) × Inv p l
Reach-Inv start = (outside, init-Inv)
Reach-Inv (later r s) = let (p, i) = Reach-Inv r in Step-Inv s p i
