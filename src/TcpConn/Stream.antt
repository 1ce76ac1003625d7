-- ===== src/TcpConn/Stream.antt =====
-- Bytes in order: what a connection was given is what write(2) took, then what its output buffer
-- holds.
use evk.Prelude.{
  ℕ, ◌+◌, ◌≤◌, ◌<◌, ◌≡◌, refl, sym, ap, ap₂, ◌∙◌, List, [], ◌++◌, append-nil, append_assoc, some,
  Bool, true, false, not, ◌&&◌, ◌||◌, inl, inr, arith, length, take, drop, ltb, ◌==◌, if◌then◌else◌,
  length-append, take-append-drop, length_zero, Bool-cases, sub_size_lem, size_mod,
}
use evk.Buffer.{Allocator}
use evk.Buffer.Invariant.{contents, size-length}
use evk.Buffer.Session.{Bounded, Bounded-less}
use evk.Channel.{is_writing, is_reading}
use evk.TcpConn.Rest.{left_over, keep_rest-Kept}
use evk.TcpConn.{
  Conn, Socket, Written, wrote, error, Direct, Request, is_disconnected, sent, write_directly,
  send_in_loop, ewouldblock, epipe, econnreset,
}

-- What the connection has taken on, oldest byte first.
abbrev pub stream : Conn → List ℕ
stream c = c.socket.accepted ++ contents c.output_buffer

-- The channel waits for room exactly if bytes are queued.
abbrev pub Waits : Conn → Type 0
Waits c = is_writing c.events ≡ ltb 0 (length (contents c.output_buffer))

ltb_zero-add : (a b : ℕ) → (ltb 0 a || ltb 0 b) ≡ ltb 0 (a + b)
ltb_zero-add a b = ground arith

or_false : (b : Bool) → b ≡ (b || false)
or_false b = ground arith

-- More bytes behind the queue, and the channel waits for room exactly if it did or there are some.
pub queue-Waits :
    (rest : List ℕ) (c c' : Conn)
    → contents c'.output_buffer ≡ contents c.output_buffer ++ rest
    → is_writing c'.events ≡ (is_writing c.events || ltb 0 (length rest))
    → Waits c
    → Waits c'
queue-Waits rest c c' q e w =
    e
    ∙ ap (λ b. b || ltb 0 (length rest)) w
    ∙ ltb_zero-add (length (contents c.output_buffer)) (length rest)
    ∙ ap (ltb 0) (sym (ap length q ∙ length-append (contents c.output_buffer) rest))

-- A byte count that write(2) returns is within what it was given.
abbrev pub Returned : Written → List ℕ → Type 0
Returned (wrote n) m = n ≤ length m
Returned (error e) m = Unit {0}

-- The errors after which SendInLoop drops the message: the peer is gone.
abbrev pub is_fatal : Written → Bool
is_fatal (wrote n) = false
is_fatal (error e) = not (e == ewouldblock) && ((e == epipe) || (e == econnreset))

-- Nothing is queued before the message, so that SendInLoop writes at once.
abbrev pub writes_now : Conn → Bool
writes_now c = not (is_writing c.events) && (length (contents c.output_buffer) == 0)

-- What SendInLoop takes on of a message.
abbrev pub taken_on : Written → List ℕ → Conn → List ℕ
taken_on w m c =
    if is_disconnected c.status then [] else if writes_now c && is_fatal w then [] else m

write_directly_fits :
    (w : Written) (m : List ℕ) (cb : Bool)
    → Returned w m
    → length m < size_mod
    → ((write_directly w (length m) cb).nwrote + (write_directly w (length m) cb).remaining
        ≡ length m)
      × ((write_directly w (length m) cb).fault_error ≡ is_fatal w)
unfolding write_directly
write_directly_fits (wrote n) m cb ok l = (omega (arith, sub_size_lem (length m) n l ok), refl)
write_directly_fits (error e) m cb ok l = (omega arith, refl)

-- The bytes that write(2) took and those that are left over make up the message.
sent_stream :
    (w : Written) (m : List ℕ) (s : Socket) (cb : Bool)
    → (sent w m s).accepted ++ drop (write_directly w (length m) cb).nwrote m ≡ s.accepted ++ m
unfolding sent write_directly
sent_stream (wrote n) m s cb =
    append_assoc s.accepted (take n m) (drop n m) ∙ ap (λ r. s.accepted ++ r) (take-append-drop n m)
sent_stream (error e) m s cb = refl

sent_fatal : (w : Written) (m : List ℕ) (s : Socket) → is_fatal w ≡ true → sent w m s ≡ s
unfolding sent
sent_fatal (wrote n) m s h = cc
sent_fatal (error e) m s h = refl

-- What SendInLoop does on every branch: the message stands whole behind what the connection has taken
-- on, unless it is dropped; what was not written is queued, and the channel waits for room; the status,
-- the sending side and the interest in reading stay. `t` more bytes fit.
pub record Sends ⦃h : Allocator⦄ (bound total t : ℕ) (w : Written) (m : List ℕ) (c c' : Conn)
    (rs : List Request) : Type 0 where
  pub run : send_in_loop w m c ≡ some (c', rs)
  pub bytes : stream c' ≡ stream c ++ taken_on w m c
  pub status : c'.status ≡ c.status
  pub closed : c'.socket.write_closed ≡ c.socket.write_closed
  pub reading : is_reading c'.events ≡ is_reading c.events
  pub rest : List ℕ
  pub queue : contents c'.output_buffer ≡ contents c.output_buffer ++ rest
  pub writing : is_writing c'.events ≡ (is_writing c.events || ltb 0 (length rest))
  pub bounded : Bounded bound total t c'.output_buffer

write_closed-sent :
    (w : Written) (m : List ℕ) (s : Socket) → (sent w m s).write_closed ≡ s.write_closed
unfolding sent
write_closed-sent (wrote n) m s = refl
write_closed-sent (error e) m s = refl

-- Where nothing was queued, the written bytes and the left over ones are the message.
direct_stream :
    (w : Written) (m : List ℕ) (c : Conn)
    → length (contents c.output_buffer) ≡ 0
    → (write_directly w (length m) c.write_complete_cb).fault_error ≡ is_fatal w
    → (sent w m c.socket).accepted
        ++ (contents c.output_buffer
            ++ left_over (write_directly w (length m) c.write_complete_cb) m)
      ≡ stream c ++ (if is_fatal w then [] else m)
direct_stream w m c n f =
    let e : contents c.output_buffer ≡ [] = length_zero (contents c.output_buffer) n in
    rw (e, f, append-nil c.socket.accepted)
      (elim (Bool-cases (is_fatal w)) [
        | inl fatal ↦ rw (fatal, sent_fatal w m c.socket fatal)
        | inr fine ↦ rw fine (sent_stream w m c.socket c.write_complete_cb)
      ])

module _ ⦃h : Allocator⦄ (bound total t : ℕ) (w : Written) (m : List ℕ) (c : Conn)
    (i : Bounded bound total (length m + t) c.output_buffer) (ok : Returned w m) where
  pub refused : is_disconnected c.status ≡ true → Sends bound total t w m c c []
  refused s = record {
    run = unfold send_in_loop in rw s;
    bytes = rw s (sym (append-nil (stream c)));
    status = refl;
    closed = refl;
    reading = refl;
    rest = [];
    queue = sym (append-nil (contents c.output_buffer));
    writing = or_false (is_writing c.events);
    bounded = Bounded-less bound total (length m + t) t c.output_buffer (omega arith) i;
  }

  queued :
      is_disconnected c.status ≡ false
      → writes_now c ≡ false
      → (c' : Conn) × (rs : List Request) × Sends bound total t w m c c' rs
  queued s n =
      let (c', rs, run, k) =
        keep_rest-Kept bound total t
          (record { nwrote = 0; remaining = length m; fault_error = false; requests = [] }) m c i
          (omega arith) in
      (
        c',
        rs,
        record {
          run = unfold send_in_loop in rw (s, size-length c.output_buffer i.valid, n) run;
          bytes =
              rw (s, n)
                (ap₂ (λ q r. q.accepted ++ r) k.socket k.bytes
                  ∙ sym (append_assoc c.socket.accepted (contents c.output_buffer) m));
          status = k.status;
          closed = ap (λ q. q.write_closed) k.socket;
          reading = k.reading;
          rest = m;
          queue = k.bytes;
          writing = k.writing;
          bounded = k.bounded;
        },
      )

  direct :
      is_disconnected c.status ≡ false
      → writes_now c ≡ true
      → (c' : Conn) × (rs : List Request) × Sends bound total t w m c c' rs
  direct s n =
      let d : Direct = write_directly w (length m) c.write_complete_cb in
      let (fits, fatal) =
        write_directly_fits w m c.write_complete_cb ok (omega (arith, i.load, i.fits)) in
      let (c', rs, run, k) =
        keep_rest-Kept bound total t d m (record c { socket = sent w m c.socket }) i fits in
      (
        c',
        rs,
        record {
          run = unfold send_in_loop in rw (s, size-length c.output_buffer i.valid, n) run;
          bytes =
              rw (s, n)
                (ap₂ (λ q r. q.accepted ++ r) k.socket k.bytes
                  ∙ direct_stream w m c (ground arith) fatal);
          status = k.status;
          closed = ap (λ q. q.write_closed) k.socket ∙ write_closed-sent w m c.socket;
          reading = k.reading;
          rest = left_over d m;
          queue = k.bytes;
          writing = k.writing;
          bounded = k.bounded;
        },
      )

  -- SendInLoop returns on every branch, with the effects that `Sends` names: what it takes on stands
  -- behind what the connection had taken on before, part of it written and the rest queued. The
  -- message is dropped only if the connection is closed, or the direct write finds the peer gone.
  pub send_in_loop-Sends : (c' : Conn) × (rs : List Request) × Sends bound total t w m c c' rs
  send_in_loop-Sends = elim (Bool-cases (is_disconnected c.status)) [
    | inl s ↦ (c, [], refused s)
    | inr s ↦ elim (Bool-cases (writes_now c)) [ inl n ↦ direct s n | inr n ↦ queued s n ]
  ]
