-- ===== src/TcpServer/Life/Handlers.antt =====
-- What the handlers of an open connection make of it.
use evk.Prelude.{
  suc, ltb, lt→ltb, ℕ, ◌≡◌, ◌⊎◌, inl, inr, refl, sym, ap, subst, ◌∙◌, List, [], ◌∷◌, ◌++◌, Option,
  some, none, Bool, true, false, ◌||◌, ◌>>=◌, arith, length, drop, Bool-cases, if◌then◌else◌,
}
use mathlib.Core.Bool.{false≢true}
use mathlib.Core.Option.{some-injective, none-ne-some}
use evk.Buffer.{Allocator, Buffer, Readv, received, failed, read_from_fd, size, write}
use evk.Channel.{disable_all, is_reading, is_writing, enable_write, disable_write}
use evk.Channel.Events.{events_lem}
use evk.TcpConn.{
  Conn, disconnected, Request, calls_close, updates_channel, calls_message, queues_send,
  queues_send_buffer, high_water, Direct, Written, wrote, error, is_disconnected, sent, keep_rest,
  watch_output, write_directly, send_in_loop, handle_write, after_write, output_empty, handle_read,
  handle_close, shutdown, shutdown_in_loop,
}
use evk.TcpConn.Lifecycle.{
  established, destroyed, reads, writes, closes, sends, sends_in_loop, sends_buffer,
  sends_queued_buffer, shuts, shuts_in_loop, enter,
}
use evk.TcpConn.Sending.{
  is_task, Passes, send-Passes, buffer-Passes, queued-Passes, Passes-status, write_status,
}
use evk.TcpServer.Life.{
  remove, removals, is_up, is_close, Event, hangs_up, enters, is_event, handle,
}

abbrev any_close : List Request → Bool
any_close [] = false
any_close (r ∷ rs) = is_close r || any_close rs

any_close-append : (rs ss : List Request) → any_close (rs ++ ss) ≡ (any_close rs || any_close ss)
any_close-append [] ss = refl
any_close-append (r ∷ rs) ss = ground (arith, any_close-append rs ss)

none_removed : (id : ℕ) (rs : List Request) → any_close rs ≡ false → removals id rs ≡ []
unfolding removals
none_removed id [] h = refl
none_removed id (r ∷ rs) h = ground (arith, none_removed id rs, h)

-- The connection stays open and nothing is removed, or it is closed, with an empty mask, and its removal
-- is asked for once.
abbrev pub Outcome : ℕ → Conn → List Request → Type 0
Outcome id c rs =
    ((is_up c ≡ true) × (is_reading c.events ≡ true) × (removals id rs ≡ []))
    ⊎ ((is_disconnected c.status ≡ true) × (c.events ≡ 0) × (removals id rs ≡ (remove, id) ∷ []))

stays :
    (id : ℕ) (c c' : Conn) (rs : List Request)
    → is_up c ≡ true
    → is_reading c.events ≡ true
    → c'.status ≡ c.status
    → is_reading c'.events ≡ is_reading c.events
    → any_close rs ≡ false
    → Outcome id c' rs
stays id c c' rs up on e k h = inl (rw e up, k ∙ on, none_removed id rs h)

same-Outcome :
    (id : ℕ) (c c' : Conn) (rs rs' : List Request)
    → Outcome id c rs
    → ◌≡◌ {A = Option (Conn × List Request)} (some (c, rs)) (some (c', rs'))
    → Outcome id c' rs'
same-Outcome id c c' rs rs' o e =
    subst (λ (x : Conn × List Request). Outcome id x.0 x.1) (some-injective (c, rs) (c', rs') e) o

close-Outcome :
    (id : ℕ) (c c' : Conn) (rs : List Request)
    → is_up c ≡ true
    → handle_close c ≡ some (c', rs)
    → Outcome id c' rs
unfolding handle_close disable_all removals
close-Outcome id c c' rs up e =
    same-Outcome id (record c { status = disconnected; events = 0 }) c'
      (updates_channel 0 ∷ calls_close ∷ []) rs (inr (refl, refl, refl)) (rw (sym e) (rw up refl))

direct_closes :
    (w : Written) (n : ℕ) (cb : Bool) → any_close (write_directly w n cb).requests ≡ false
unfolding write_directly
direct_closes (wrote k) n cb = ground arith
direct_closes (error k) n cb = refl

high_closes : (n k : ℕ) (c : Conn) → any_close (high_water n k c) ≡ false
unfolding high_water
high_closes n k c = ground arith

watch_closes :
    (out : Buffer) (rs : List Request) (c : Conn)
    → any_close (watch_output out rs c).1 ≡ any_close rs
unfolding watch_output
watch_closes out rs c = elim (Bool-cases (is_writing c.events)) [
  | inl on ↦ rw on refl
  | inr off ↦
      rw off (any_close-append rs (updates_channel (enable_write c.events) ∷ []) ∙ ground arith)
]

-- What is behind the append of the rest.
behind_write :
    (o : Option Buffer) (rs : List Request) (c : Conn) (x : Conn × List Request)
    → (do out ← o; some (watch_output out rs c)) ≡ some x
    → any_close rs ≡ false
    → any_close x.1 ≡ false
behind_write none rs c x e q = absurd (none-ne-some _ e)
behind_write (some out) rs c x e q =
    ap (λ (y : Conn × List Request). any_close y.1) (sym (some-injective _ _ e))
    ∙ watch_closes out rs c
    ∙ q

behind_size :
    (o : Option ℕ) (f : ℕ → Option Buffer) (rs : ℕ → List Request) (c : Conn)
    (x : Conn × List Request)
    → (do n ← o; out ← f n; some (watch_output out (rs n) c)) ≡ some x
    → ((n : ℕ) → any_close (rs n) ≡ false)
    → any_close x.1 ≡ false
behind_size none f rs c x e q = absurd (none-ne-some _ e)
behind_size (some n) f rs c x e q = behind_write (f n) (rs n) c x e (q n)

with_high :
    (d : Direct) (n : ℕ) (c : Conn)
    → any_close d.requests ≡ false
    → any_close (d.requests ++ high_water n d.remaining c) ≡ false
with_high d n c q =
    rw (any_close-append d.requests (high_water n d.remaining c), q) (high_closes n d.remaining c)

task_closes : (rs : List Request) → is_task rs ≡ true → any_close rs ≡ false
task_closes [] h = refl
task_closes (queues_send m ∷ []) h = refl
task_closes (queues_send_buffer ∷ []) h = refl
task_closes _ h = absurd (false≢true h)

enable_write_reads : (e : ℕ) → is_reading (enable_write e) ≡ is_reading e
enable_write_reads e = (events_lem e).3

disable_write_reads : (e : ℕ) → is_reading (disable_write e) ≡ is_reading e
disable_write_reads e = (events_lem e).7

module _ ⦃h : Allocator⦄ where
  keep_closes :
      (d : Direct) (m : List ℕ) (c c' : Conn) (rs : List Request)
      → any_close d.requests ≡ false
      → keep_rest d m c ≡ some (c', rs)
      → any_close rs ≡ false
  unfolding keep_rest
  keep_closes d m c c' rs q e = ground (
    arith,
    e,
    behind_size (size c.output_buffer) (λ n. write (drop d.nwrote m) c.output_buffer)
        (λ n. d.requests ++ high_water n d.remaining c) c (c', rs),
    λ (n : ℕ). with_high d n c q,
  )

  send_closes :
      (w : Written) (m : List ℕ) (c c' : Conn) (rs : List Request)
      → send_in_loop w m c ≡ some (c', rs)
      → any_close rs ≡ false
  unfolding send_in_loop
  send_closes w m c c' rs e = ground (
    arith,
    keep_closes (write_directly w (length m) c.write_complete_cb) m
        (record c { socket = sent w m c.socket }) c' rs
        (direct_closes w (length m) c.write_complete_cb),
    keep_closes (record { nwrote = 0; remaining = length m; fault_error = false; requests = [] }) m
        c c' rs refl,
  )

  write_closes :
      (w : Written) (c c' : Conn) (rs : List Request)
      → handle_write w c ≡ some (c', rs)
      → any_close rs ≡ false
  unfolding handle_write after_write output_empty shutdown_in_loop
  write_closes (wrote n) c c' rs e = ground arith
  write_closes (error n) c c' rs e = ground arith

  keep_reads :
      (d : Direct) (m : List ℕ) (c c' : Conn) (rs : List Request)
      → keep_rest d m c ≡ some (c', rs)
      → is_reading c'.events ≡ is_reading c.events
  unfolding keep_rest watch_output
  keep_reads d m c c' rs e = ground (arith, enable_write_reads c.events)

  send_reads :
      (w : Written) (m : List ℕ) (c c' : Conn) (rs : List Request)
      → send_in_loop w m c ≡ some (c', rs)
      → is_reading c'.events ≡ is_reading c.events
  unfolding send_in_loop
  send_reads w m c c' rs e = ground (
    arith,
    keep_reads (write_directly w (length m) c.write_complete_cb) m
        (record c { socket = sent w m c.socket }) c' rs,
    keep_reads (record { nwrote = 0; remaining = length m; fault_error = false; requests = [] }) m c
        c' rs,
  )

  write_reads :
      (w : Written) (c c' : Conn) (rs : List Request)
      → handle_write w c ≡ some (c', rs)
      → is_reading c'.events ≡ is_reading c.events
  unfolding handle_write after_write output_empty shutdown_in_loop
  write_reads (wrote n) c c' rs e = ground (arith, disable_write_reads c.events)
  write_reads (error n) c c' rs e = ground arith

  Passes-reads :
      (w : Written) (c c' : Conn) (rs : List Request)
      → Passes w c c' rs
      → is_reading c'.events ≡ is_reading c.events
  Passes-reads w c c' rs (inl alone) = ap (λ (d : Conn). is_reading d.events) alone.0
  Passes-reads w c c' rs (inr (m, e)) = send_reads w m c c' rs e

  -- HandleRead behind ReadFromFD.
  abbrev after_read : Conn → Readv × Buffer → Option (Conn × List Request)
  after_read c x = elim x.0 [
    | failed e ↦ some ((record c { input_buffer = x.1 }, []))
    | received bs ↦
        (if ltb 0 (length bs)
          then some ((record c { input_buffer = x.1 }, calls_message ∷ []))
          else handle_close (record c { input_buffer = x.1 }))
  ]

  read-Outcome :
      (id : ℕ) (r : Readv) (c c' : Conn) (rs : List Request)
      → is_up c ≡ true
      → is_reading c.events ≡ true
      → handle_read r c ≡ some (c', rs)
      → Outcome id c' rs
  unfolding handle_read
  read-Outcome id r c c' rs up on e = go (read_from_fd r c.input_buffer) e
    where
      go : (o : Option (Readv × Buffer)) → (o >>= after_read c) ≡ some (c', rs) → Outcome id c' rs
      go none q = absurd (none-ne-some _ q)
      go (some (failed e, input)) q =
          same-Outcome id (record c { input_buffer = input }) c' [] rs
            (inl (up, on, unfold removals in refl)) q
      go (some (received [], input)) q =
          close-Outcome id (record c { input_buffer = input }) c' rs up q
      go (some (received (b ∷ bs), input)) q =
          same-Outcome id (record c { input_buffer = input }) c' (calls_message ∷ []) rs
            (inl (up, on, unfold removals in refl))
            (sym (rw (lt→ltb 0 (suc (length bs)) (omega arith)) refl) ∙ q)

  Passes-Outcome :
      (id : ℕ) (w : Written) (c c' : Conn) (rs : List Request)
      → is_up c ≡ true
      → is_reading c.events ≡ true
      → Passes w c c' rs
      → Outcome id c' rs
  Passes-Outcome id w c c' rs up on p =
      stays id c c' rs up on (Passes-status w c c' rs p) (Passes-reads w c c' rs p) (elim p [
        | inl alone ↦ task_closes rs alone.1
        | inr through ↦ send_closes w through.0 c c' rs through.1
      ])

  -- Whatever is called on an open connection, and returns.
  pub handle-Outcome :
      (id : ℕ) (e : Event) (c c' : Conn) (rs : List Request)
      → is_event e ≡ true
      → is_up c ≡ true
      → is_reading c.events ≡ true
      → handle e c ≡ some (c', rs)
      → Outcome id c' rs
  unfolding handle enter
  handle-Outcome id hangs_up c c' rs i up on e = close-Outcome id c c' rs up e
  handle-Outcome id (enters established) c c' rs i up on e = absurd (false≢true i)
  handle-Outcome id (enters destroyed) c c' rs i up on e = absurd (false≢true i)
  handle-Outcome id (enters (reads r)) c c' rs i up on e = read-Outcome id r c c' rs up on e
  handle-Outcome id (enters (writes w)) c c' rs i up on e =
      stays id c c' rs up on (write_status w c c' rs e) (write_reads w c c' rs e)
        (write_closes w c c' rs e)
  handle-Outcome id (enters closes) c c' rs i up on e = close-Outcome id c c' rs up e
  handle-Outcome id (enters (sends b w m)) c c' rs i up on e =
      Passes-Outcome id w c c' rs up on (send-Passes b w m c c' rs e)
  handle-Outcome id (enters (sends_in_loop w m)) c c' rs i up on e =
      Passes-Outcome id w c c' rs up on (inr (m, e))
  handle-Outcome id (enters (sends_buffer b w message)) c c' rs i up on e =
      Passes-Outcome id w c c' rs up on (buffer-Passes b w message c c' rs e)
  handle-Outcome id (enters (sends_queued_buffer w message)) c c' rs i up on e =
      Passes-Outcome id w c c' rs up on (queued-Passes w message c c' rs e)
  handle-Outcome id (enters (shuts true)) c c' rs i up on e = inl (
    unfold shutdown shutdown_in_loop in ground (arith, up, e),
    unfold shutdown shutdown_in_loop in ground (arith, on, e),
    unfold shutdown removals in ground (arith, up, e),
  )
  handle-Outcome id (enters (shuts false)) c c' rs i up on e = inl (
    unfold shutdown in ground (arith, up, e),
    unfold shutdown in ground (arith, on, e),
    unfold shutdown removals in ground (arith, up, e),
  )
  handle-Outcome id (enters shuts_in_loop) c c' rs i up on e = inl (
    unfold shutdown_in_loop in ground (arith, up, e),
    unfold shutdown_in_loop in ground (arith, on, e),
    unfold removals in ground (arith, up, e),
  )
