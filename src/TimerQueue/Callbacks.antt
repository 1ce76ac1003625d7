-- ===== src/TimerQueue/Callbacks.antt =====
-- The loop of HandleRead over the expired timers, whatever their callbacks add and cancel.
use evk.Prelude.{
  ℕ, ◌<◌, ◌≡◌, refl, sym, ap, ◌∙◌, List, [], ◌∷◌, Option, some, none, Bool, true, false, not, ◌&&◌,
  ltb, arith, ltb→lt,
}
use mathlib.Core.Bool.{true≢false}
use evk.Timestamp.{Timestamp}
use evk.TimerQueue.{
  Timer, Queue, Entry, ActiveTimer, entry_order, active_order, uintptr_max, add_timer,
  cancel_in_loop, Call, adds, cancels, make_calls, call_expired,
}
use evk.TimerQueue.Invariant.{Inv}
use evk.TimerQueue.Invariant.Insert.{add_timer-Adds}
use evk.TimerQueue.Invariant.Cancel.{cancel_in_loop-Cancels}
use evk.TimerQueue.Flight.{occurs, lives, Flight, cancel-Flight, add-Flight}

-- What `new` promises: each timer that the calls add is at an address where none lives then.
unfoldable pub are_free : List Call → Queue → Bool
are_free [] q = true
are_free (adds p t ∷ calls) q =
    not (lives (q.heap p))
    && (ltb p uintptr_max
        && elim (add_timer p t q) [ none ↦ true | some (id, q') ↦ are_free calls q' ])
are_free (cancels id ∷ calls) q = elim (cancel_in_loop id q) [
  | none ↦ true
  | some q' ↦ are_free calls q'
]

-- The same of the calls of all callbacks.
unfoldable pub are_all_free : (ℕ → List Call) → List Entry → Queue → Bool
are_all_free callback [] q = true
are_all_free callback ((w, p) ∷ es) q = elim (q.heap p) [
  | none ↦ true
  | some t ↦ are_free (callback t.sequence) q && elim (make_calls (callback t.sequence) q) [
    | none ↦ true
    | some q' ↦ are_all_free callback es q'
  ]
]

-- What some calls leave.
pub record Called (es : List Entry) (calls : List Call) (q q' : Queue) : Type 0 where
  pub run : make_calls calls q ≡ some q'
  pub inv : Inv q'
  pub flight : Flight es q'

not_live : (o : Option Timer) → lives o ≡ false → o ≡ none
not_live none h = refl
not_live (some t) h = cc

behind_add :
    (p : ℕ) (t : Timer) (calls : List Call) (id : ActiveTimer) (q q' : Queue)
    → add_timer p t q ≡ some (id, q')
    → are_free (adds p t ∷ calls) q
      ≡ (not (lives (q.heap p)) && (ltb p uintptr_max && are_free calls q'))
unfolding are_free
behind_add p t calls id q q' e = rw e refl

behind_cancel :
    (id : ActiveTimer) (calls : List Call) (q q' : Queue)
    → cancel_in_loop id q ≡ some q'
    → are_free (cancels id ∷ calls) q ≡ are_free calls q'
unfolding are_free
behind_cancel id calls q q' e =
    ap (λ (o : Option Queue). elim o [ none ↦ true | some r ↦ are_free calls r ]) e

at_free :
    (p : ℕ) (t : Timer) (calls : List Call) (q : Queue)
    → are_free (adds p t ∷ calls) q ≡ true
    → (q.heap p ≡ none) × (p < uintptr_max)
unfolding are_free
at_free p t calls q h =
    (not_live (q.heap p) (ground (arith, h)), ltb→lt p uintptr_max (ground (arith, h)))

make_calls-Called :
    (es : List Entry) (calls : List Call) (q : Queue)
    → Inv q
    → Flight es q
    → are_free calls q ≡ true
    → (q' : Queue) × Called es calls q q'
unfolding make_calls
make_calls-Called es [] q i f h = (q, record { run = refl; inv = i; flight = f })
make_calls-Called es (adds p t ∷ calls) q i f h =
    let (free, fits) = at_free p t calls q h in
    let (q1, a) = add_timer-Adds p t q i free fits in
    let rest : are_free calls q1 ≡ true = ground (arith, h, behind_add p t calls _ q q1 a.run) in
    let (q2, r) = make_calls-Called es calls q1 a.inv (add-Flight es p t q q1 free f a) rest in
    (q2, record { run = rw a.run r.run; inv = r.inv; flight = r.flight })
make_calls-Called es (cancels (p, s) ∷ calls) q i f h =
    let (q1, c) = cancel_in_loop-Cancels p s q i in
    let rest = sym (behind_cancel (p, s) calls q q1 c.run) ∙ h in
    let (q2, r) = make_calls-Called es calls q1 c.inv (cancel-Flight es p s q q1 i f c) rest in
    (q2, record { run = rw c.run r.run; inv = r.inv; flight = r.flight })

-- What the callbacks of the entries `todo` leave.
pub record AllCalled (callback : ℕ → List Call) (es todo : List Entry) (q q' : Queue) : Type 0 where
  pub run : call_expired callback todo q ≡ some q'
  pub inv : Inv q'
  pub flight : Flight es q'

-- The timer of an expired entry lives.
pub timer_of :
    (p : ℕ) (es : List Entry) (q : Queue)
    → Flight es q
    → occurs p es ≡ true
    → (t : Timer) × (q.heap p ≡ some t)
timer_of p es q f h = go (q.heap p) refl (sym h ∙ f.alive p)
  where
    go :
        (o : Option Timer)
        → q.heap p ≡ o
        → true ≡ (occurs p es && (lives o && ltb p uintptr_max))
        → (t : Timer) × (q.heap p ≡ some t)
    go none e g = absurd (true≢false (g ∙ ground arith))
    go (some t) e g = (t, e)

-- What follows the look at the first timer.
abbrev of_first : (ℕ → List Call) → List Entry → Queue → Option Timer → Bool
of_first callback todo q none = true
of_first callback todo q (some t) =
    are_free (callback t.sequence) q && elim (make_calls (callback t.sequence) q) [
      | none ↦ true
      | some r ↦ are_all_free callback todo r
    ]

at_first :
    (callback : ℕ → List Call) (w : Timestamp) (p : ℕ) (todo : List Entry) (q : Queue)
    → are_all_free callback ((w, p) ∷ todo) q ≡ of_first callback todo q (q.heap p)
unfolding are_all_free
at_first callback w p todo q = go (q.heap p)
  where
    go :
        (o : Option Timer)
        → (elim o [
          | none ↦ true
          | some t ↦ are_free (callback t.sequence) q && elim (make_calls (callback t.sequence) q) [
            | none ↦ true
            | some r ↦ are_all_free callback todo r
          ]
        ])
          ≡ of_first callback todo q o
    go none = refl
    go (some t) = refl

first_calls :
    (callback : ℕ → List Call) (t : Timer) (todo : List Entry) (q : Queue)
    → of_first callback todo q (some t) ≡ true
    → are_free (callback t.sequence) q ≡ true
first_calls callback t todo q h = ground (arith, h)

behind_calls :
    (callback : ℕ → List Call) (t : Timer) (todo : List Entry) (q q' : Queue)
    → make_calls (callback t.sequence) q ≡ some q'
    → of_first callback todo q (some t) ≡ true
    → are_all_free callback todo q' ≡ true
behind_calls callback t todo q q' e h =
    let g =
      sym (
        ap
          (λ (o : Option Queue).
            are_free (callback t.sequence) q
            && elim o [ none ↦ true | some r ↦ are_all_free callback todo r ])
          e)
      ∙ h in
    ground (arith, g)

runs_first :
    (callback : ℕ → List Call) (w : Timestamp) (p : ℕ) (t : Timer) (todo : List Entry)
    (q q1 q2 : Queue)
    → q.heap p ≡ some t
    → make_calls (callback t.sequence) q ≡ some q1
    → call_expired callback todo q1 ≡ some q2
    → call_expired callback ((w, p) ∷ todo) q ≡ some q2
unfolding call_expired
runs_first callback w p t todo q q1 q2 live e r = rw (live, e) r

-- Each callback of an expired timer is called while its timer lives, and no assert fails.
pub call_expired-AllCalled :
    (callback : ℕ → List Call) (es todo : List Entry) (q : Queue)
    → ((k : ℕ) → occurs k todo ≡ (occurs k todo && occurs k es))
    → Inv q
    → Flight es q
    → are_all_free callback todo q ≡ true
    → (q' : Queue) × AllCalled callback es todo q q'
unfolding call_expired
call_expired-AllCalled callback es [] q sub i f h = (q, record { run = refl; inv = i; flight = f })
call_expired-AllCalled callback es ((w, p) ∷ todo) q sub i f h =
    let (t, live) = timer_of p es q f (ground (arith, sub p)) in
    let g : of_first callback todo q (some t) ≡ true =
      sym (at_first callback w p todo q ∙ ap (of_first callback todo q) live) ∙ h in
    let (q1, r) =
      make_calls-Called es (callback t.sequence) q i f (first_calls callback t todo q g) in
    let rest = behind_calls callback t todo q q1 r.run g in
    let (q2, s) =
      call_expired-AllCalled callback es todo q1 (λ k. ground (arith, sub k)) r.inv r.flight rest in
    (
      q2,
      record {
        run = runs_first callback w p t todo q q1 q2 live r.run s.run;
        inv = s.inv;
        flight = s.flight;
      },
    )
