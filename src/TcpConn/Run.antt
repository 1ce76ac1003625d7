-- ===== src/TcpConn/Run.antt =====
-- A connection's whole life on its loop: any sequence of sends, of tasks that other threads queued, of
-- poll events and of the close, with any result of write(2).
use evk.Prelude.{
  ℕ, ◌+◌, ◌≤◌, ◌≡◌, refl, sym, ap, ap₂, ltb, subst, ◌∙◌, List, [], ◌∷◌, ◌++◌, append-nil,
  append_assoc, Option, some, none, true, false, not, ◌&&◌, ◌||◌, inl, inr, ◌>>=◌, arith, length,
  if◌then◌else◌, Bool-cases,
}
use evk.Buffer.{Allocator}
use evk.Buffer.Invariant.{contents}
use evk.Buffer.Session.{Bounded, Bounded-less}
use evk.Channel.{is_writing, disable_all}
use evk.Channel.Events.{events_lem}
use evk.TcpConn.{
  Conn, Status, disconnected, disconnecting, Written, Request, is_disconnected, is_connected,
  is_disconnecting, send, send_in_loop, handle_write, handle_close, shutdown, shutdown_in_loop,
}
use evk.TcpConn.Stream.{
  stream, Waits, Returned, taken_on, queue-Waits, Sends, refused, send_in_loop-Sends,
}
use evk.TcpConn.Drain.{handle_write-Drains, handle_write_off, Shuts, shutdown_in_loop-Shuts}

-- `sends`: Send on the loop's thread. `queued_send`, `queued_shutdown`: the tasks that Send and Shutdown
-- leave for the loop when another thread calls them. `writable`: the channel's write callback.
pub data Event : Type 0 where
  sends : Written → List ℕ → Event
  queued_send : Written → List ℕ → Event
  writable : Written → Event
  shuts : Event
  queued_shutdown : Event
  closes : Event

abbrev pub state : Conn × List Request → Conn
state (c, rs) = c

module _ ⦃h : Allocator⦄ where
  unfoldable pub step : Event → Conn → Option Conn
  step (sends w m) c = do r ← send true w m c; some (state r)
  step (queued_send w m) c = do r ← send_in_loop w m c; some (state r)
  step (writable w) c = do r ← handle_write w c; some (state r)
  step shuts c = some (state (shutdown true c))
  step queued_shutdown c = some (shutdown_in_loop c)
  step closes c = do r ← handle_close c; some (state r)

  unfoldable pub run : List Event → Conn → Option Conn
  run [] c = some c
  run (e ∷ es) c = do c' ← step e c; run es c'

-- What the environment keeps to: write(2) returns no more than it was given, and a connection is closed
-- only once.
abbrev pub Allows : Event → Conn → Type 0
Allows (sends w m) c = Returned w m
Allows (queued_send w m) c = Returned w m
Allows (writable w) c = Returned w (contents c.output_buffer)
Allows shuts c = Unit {0}
Allows queued_shutdown c = Unit {0}
Allows closes c = (is_connected c.status || is_disconnecting c.status) ≡ true

abbrev pub Allowed : ⦃h : Allocator⦄ → List Event → Conn → Type 0
Allowed [] c = Unit {0}
Allowed (e ∷ es) c = Allows e c × elim (step e c) [ none ↦ Unit {0} | some c' ↦ Allowed es c' ]

-- The message bytes that the events bring.
abbrev pub given : Event → ℕ
given (sends w m) = length m
given (queued_send w m) = length m
given _ = 0

abbrev pub given_all : List Event → ℕ
given_all [] = 0
given_all (e ∷ es) = given e + given_all es

-- What the connection takes on of them: `Send` refuses a message unless the status is connected.
abbrev pub takes : Event → Conn → List ℕ
takes (sends w m) c = if is_connected c.status then taken_on w m c else []
takes (queued_send w m) c = taken_on w m c
takes _ c = []

abbrev pub takes_all : ⦃h : Allocator⦄ → List Event → Conn → List ℕ
takes_all [] c = []
takes_all (e ∷ es) c = takes e c ++ elim (step e c) [ none ↦ [] | some c' ↦ takes_all es c' ]

-- The channel waits for room exactly while the connection is open and bytes are queued. `t` more bytes
-- fit.
pub record Sound (bound total t : ℕ) (c : Conn) : Type 0 where
  pub bounded : Bounded bound total t c.output_buffer
  pub watch :
      is_writing c.events
      ≡ (not (is_disconnected c.status) && ltb 0 (length (contents c.output_buffer)))

live :
    {bound total t : ℕ} (c : Conn)
    → Sound bound total t c
    → is_disconnected c.status ≡ false
    → Waits c
live c s d = s.watch ∙ ap (λ b. not b && ltb 0 (length (contents c.output_buffer))) d

dead :
    {bound total t : ℕ} (c : Conn)
    → Sound bound total t c
    → is_disconnected c.status ≡ true
    → is_writing c.events ≡ false
dead c s d = s.watch ∙ ap (λ b. not b && ltb 0 (length (contents c.output_buffer))) d

open_Sound :
    {bound total t : ℕ} (c : Conn)
    → Bounded bound total t c.output_buffer
    → is_disconnected c.status ≡ false
    → Waits c
    → Sound bound total t c
open_Sound c i d w = record {
  bounded = i;
  watch = w ∙ sym (ap (λ b. not b && ltb 0 (length (contents c.output_buffer))) d);
}

module _ ⦃h : Allocator⦄ (bound total t : ℕ) where
  -- The event is served, and the connection has taken on what `takes` says, behind the rest.
  record Serves (e : Event) (c c' : Conn) : Type 0 where
    run : step e c ≡ some c'
    bytes : stream c' ≡ stream c ++ takes e c
    sound : Sound bound total t c'

  unchanged : (c : Conn) (u : ℕ) → t ≤ u → Sound bound total u c → Sound bound total t c
  unchanged c u l s = record {
    bounded = Bounded-less bound total u t c.output_buffer l s.bounded;
    watch = s.watch;
  }

  send_Sound :
      (w : Written) (m : List ℕ) (c : Conn)
      → Sound bound total (length m + t) c
      → Returned w m
      → (c' : Conn) × (rs : List Request) × Sends bound total t w m c c' rs × Sound bound total t c'
  send_Sound w m c s ok = elim (Bool-cases (is_disconnected c.status)) [
    | inl d ↦ (
      c,
      [],
      refused bound total t w m c s.bounded ok d,
      unchanged c (length m + t) (omega arith) s,
    )
    | inr d ↦
        let (c', rs, k) = send_in_loop-Sends bound total t w m c s.bounded ok in
        (
          c',
          rs,
          k,
          open_Sound c' k.bounded (ap is_disconnected k.status ∙ d)
              (queue-Waits k.rest c c' k.queue k.writing (live c s d)),
        )
  ]

  serve_send :
      (w : Written) (m : List ℕ) (c : Conn)
      → Sound bound total (length m + t) c
      → Returned w m
      → (c' : Conn) × Serves (sends w m) c c'
  serve_send w m c s ok = elim (Bool-cases (is_connected c.status)) [
    | inl up ↦
        let (c', rs, k, j) = send_Sound w m c s ok in
        (c', record { run = unfold step send in rw (up, k.run); bytes = rw up k.bytes; sound = j })
    | inr down ↦ (
      c,
      record {
        run = unfold step send in rw down;
        bytes = rw down (sym (append-nil (stream c)));
        sound = unchanged c (length m + t) (omega arith) s;
      },
    )
  ]

  serve_queued :
      (w : Written) (m : List ℕ) (c : Conn)
      → Sound bound total (length m + t) c
      → Returned w m
      → (c' : Conn) × Serves (queued_send w m) c c'
  serve_queued w m c s ok =
      let (c', rs, k, j) = send_Sound w m c s ok in
      (c', record { run = unfold step in rw k.run; bytes = k.bytes; sound = j })

  serve_writable :
      (w : Written) (c : Conn)
      → Sound bound total t c
      → Returned w (contents c.output_buffer)
      → (c' : Conn) × Serves (writable w) c c'
  serve_writable w c s ok = elim (Bool-cases (is_disconnected c.status)) [
    | inl d ↦ (
      c,
      record {
        run = unfold step in rw (handle_write_off w c (dead c s d));
        bytes = sym (append-nil (stream c));
        sound = s;
      },
    )
    | inr d ↦
        let (c', rs, k) = handle_write-Drains bound total t w c s.bounded (live c s d) ok in
        (
          c',
          record {
            run = unfold step in rw k.run;
            bytes = k.bytes ∙ sym (append-nil (stream c));
            sound = open_Sound c' k.bounded (ap is_disconnected k.status ∙ d) k.waits;
          },
        )
  ]

  Shuts-Sound : (c c' : Conn) → Shuts c c' → Sound bound total t c → Sound bound total t c'
  Shuts-Sound c c' k s = record {
    bounded = subst (Bounded bound total t) (sym k.output) s.bounded;
    watch =
        ap is_writing k.events
        ∙ s.watch
        ∙ ap₂ (λ a b. not (is_disconnected a) && ltb 0 (length (contents b))) (sym k.status)
            (sym k.output);
  }

  Shuts-stream : (c c' : Conn) → Shuts c c' → stream c' ≡ stream c ++ []
  Shuts-stream c c' k = ap₂ ◌++◌ k.accepted (ap contents k.output) ∙ sym (append-nil (stream c))

  serve_queued_shutdown :
      (c : Conn) → Sound bound total t c → (c' : Conn) × Serves queued_shutdown c c'
  serve_queued_shutdown c s =
      let k = shutdown_in_loop-Shuts c in
      (
        shutdown_in_loop c,
        record {
          run = unfold step in refl;
          bytes = Shuts-stream c (shutdown_in_loop c) k;
          sound = Shuts-Sound c (shutdown_in_loop c) k s;
        },
      )

  connected_live : (s : Status) → is_connected s ≡ true → is_disconnected s ≡ false
  connected_live s h = ground arith

  serve_shuts : (c : Conn) → Sound bound total t c → (c' : Conn) × Serves shuts c c'
  serve_shuts c s = elim (Bool-cases (is_connected c.status)) [
    | inl up ↦
        let d : Conn = record c { status = disconnecting } in
        let k = shutdown_in_loop-Shuts d in
        (
          shutdown_in_loop d,
          record {
            run = unfold step shutdown in rw up;
            bytes = Shuts-stream d (shutdown_in_loop d) k;
            sound =
                Shuts-Sound d (shutdown_in_loop d) k
                  (open_Sound d s.bounded refl (live c s (connected_live c.status up)));
          },
        )
    | inr down ↦ (
      c,
      record {
        run = unfold step shutdown in rw down;
        bytes = sym (append-nil (stream c));
        sound = s;
      },
    )
  ]

  serve_closes :
      (c : Conn)
      → Sound bound total t c
      → (is_connected c.status || is_disconnecting c.status) ≡ true
      → (c' : Conn) × Serves closes c c'
  serve_closes c s ok = (
    record c { status = disconnected; events = disable_all c.events },
    record {
      run = unfold step handle_close in rw ok;
      bytes = sym (append-nil (stream c));
      sound = record { bounded = s.bounded; watch = (events_lem c.events).10 };
    },
  )

module _ ⦃h : Allocator⦄ (bound total : ℕ) where
  serve :
      (e : Event) (t : ℕ) (c : Conn)
      → Sound bound total (given e + t) c
      → Allows e c
      → (c' : Conn) × Serves bound total t e c c'
  serve (sends w m) t c s ok = serve_send bound total t w m c s ok
  serve (queued_send w m) t c s ok = serve_queued bound total t w m c s ok
  serve (writable w) t c s ok =
      serve_writable bound total t w c (unchanged bound total t c (0 + t) (omega arith) s) ok
  serve shuts t c s ok =
      serve_shuts bound total t c (unchanged bound total t c (0 + t) (omega arith) s)
  serve queued_shutdown t c s ok =
      serve_queued_shutdown bound total t c (unchanged bound total t c (0 + t) (omega arith) s)
  serve closes t c s ok =
      serve_closes bound total t c (unchanged bound total t c (0 + t) (omega arith) s) ok

  -- Through any such life every event is served, no assert fails, and what write(2) has taken, with what
  -- is still queued, is the first stream and then the messages taken on: whole, in order, once.
  pub run-stream :
      (es : List Event) (c : Conn)
      → Sound bound total (given_all es) c
      → Allowed es c
      → (c' : Conn) × (run es c ≡ some c')
        × (stream c' ≡ stream c ++ takes_all es c)
        × Sound bound total 0 c'
  unfolding run
  run-stream [] c s ok = (c, refl, sym (append-nil (stream c)), s)
  run-stream (e ∷ es) c s ok =
      let (c', k) = serve e (given_all es) c s ok.0 in
      let next : Allowed es c' =
        subst (λ o. elim o [ none ↦ Unit {0} | some d ↦ Allowed es d ]) k.run ok.1 in
      let (c'', r, same, j) = run-stream es c' k.sound next in
      (
        c'',
        rw (k.run, r),
        rw k.run (
            same
            ∙ ap (λ q. q ++ takes_all es c') k.bytes
            ∙ append_assoc (stream c) (takes e c) (takes_all es c')),
        j,
      )
