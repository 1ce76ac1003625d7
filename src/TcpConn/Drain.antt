-- ===== src/TcpConn/Drain.antt =====
-- TcpConnection::HandleWrite, Shutdown and ShutdownInLoop: the output buffer goes out in order, and
-- the sending side is closed only behind the last byte.
use evk.Prelude.{
  ℕ, ◌≤◌, ◌≡◌, refl, sym, ap, subst, ap₂, ◌∙◌, List, [], ◌++◌, append_assoc, some, true, false, not,
  ◌||◌, ◌⊎◌, inl, inr, arith, length, take, drop, length-drop, take-append-drop, length_zero,
  lt→ltb, le→ltb_false, lt→==_zero, eq→==, Bool-cases,
}
use native.Mathlib.Decide.{dec_lt}
use evk.Buffer.{Buffer}
use evk.Buffer.Invariant.{IsValid, contents, size-length, to_slice_lem}
use evk.Buffer.Session.{Bounded, Leaves-Bounded}
use evk.Buffer.Reads.{skip-Leaves}
use evk.Channel.{is_writing, is_reading, disable_write}
use evk.Channel.Events.{events_lem}
use evk.TcpConn.{
  Conn, Written, wrote, error, Request, is_disconnecting, sent, handle_write, after_write,
  output_empty, shutdown_in_loop,
}
use evk.TcpConn.Stream.{stream, Waits, Returned}

-- The sending side is as it was; or it is closed now, with nothing queued.
abbrev pub Closes : Conn → Conn → Type 0
Closes c c' =
    (c'.socket.write_closed ≡ c.socket.write_closed)
    ⊎ ((c'.socket.write_closed ≡ true) × (contents c'.output_buffer ≡ []))

pub record Drains (bound total t : ℕ) (w : Written) (c c' : Conn) (rs : List Request) : Type 0 where
  pub run : handle_write w c ≡ some (c', rs)
  pub bytes : stream c' ≡ stream c
  pub status : c'.status ≡ c.status
  pub reading : is_reading c'.events ≡ is_reading c.events
  pub waits : Waits c'
  pub closes : Closes c c'
  pub bounded : Bounded bound total t c'.output_buffer

-- The connection when its last byte is written.
record Finished (c c' : Conn) : Type 0 where
  output : c'.output_buffer ≡ c.output_buffer
  accepted : c'.socket.accepted ≡ c.socket.accepted
  status : c'.status ≡ c.status
  reading : is_reading c'.events ≡ is_reading c.events
  idle : is_writing c'.events ≡ false
  closes : (c'.socket.write_closed ≡ c.socket.write_closed) ⊎ (c'.socket.write_closed ≡ true)

output_empty-Finished : (c : Conn) → Finished c (output_empty c).0
unfolding output_empty shutdown_in_loop
output_empty-Finished c =
    let off : is_writing (disable_write c.events) ≡ false = (events_lem c.events).6 in
    let keeps : is_reading (disable_write c.events) ≡ is_reading c.events =
      (events_lem c.events).7 in
    elim (Bool-cases (is_disconnecting c.status)) [
      | inl d ↦
          rw (d, off)
            (record {
              output = refl;
              accepted = refl;
              status = refl;
              reading = keeps;
              idle = off;
              closes = inr refl;
            })
      | inr d ↦ rw d (record {
        output = refl;
        accepted = refl;
        status = refl;
        reading = keeps;
        idle = off;
        closes = inl refl;
      })
    ]

module _ (bound total t : ℕ) (n : ℕ) (c : Conn) (i : Bounded bound total t c.output_buffer)
    (p : Waits c) (on : is_writing c.events ≡ true)
    (ok : n ≤ length (contents c.output_buffer)) where
  -- The socket has taken the first n bytes of the output buffer.
  half : Conn
  half = record c {
    socket = record (c.socket) {
      accepted = c.socket.accepted ++ take n (contents c.output_buffer);
    };
  }

  whole :
      (b : Buffer)
      → contents b ≡ drop n (contents c.output_buffer)
      → (c.socket.accepted ++ take n (contents c.output_buffer)) ++ contents b ≡ stream c
  whole b e = rw e (
      append_assoc c.socket.accepted (take n (contents c.output_buffer))
        (drop n (contents c.output_buffer))
      ∙ ap (λ q. c.socket.accepted ++ q) (take-append-drop n (contents c.output_buffer)))

  run_handle_write : handle_write (wrote n) c ≡ after_write (wrote n) half
  unfolding handle_write sent half
  run_handle_write = rw (on, to_slice_lem c.output_buffer i.valid)

  wrote-Drains : (c' : Conn) × (rs : List Request) × Drains bound total t (wrote n) c c' rs
  unfolding after_write half
  wrote-Drains = elim (dec_lt 0 n) [
    | no z ↦
        let e : n ≡ 0 = omega arith in
        (
          half,
          [],
          record {
            run = run_handle_write ∙ rw (le→ltb_false 0 n (omega arith));
            bytes = whole c.output_buffer (rw e);
            status = refl;
            reading = refl;
            waits = p;
            closes = inl refl;
            bounded = i;
          },
        )
    | yes pos ↦
        let (out, run, l) = skip-Leaves n c.output_buffer i.valid in
        let j : Bounded bound total t out =
          Leaves-Bounded bound total t c.output_buffer out i l
            (omega (arith, length-drop n (contents c.output_buffer))) in
        elim (dec_lt 0 (length (contents out))) [
          | yes more ↦ (
            record half { output_buffer = out },
            [],
            record {
              run =
                  run_handle_write
                  ∙ rw (
                    lt→ltb 0 n pos,
                    run,
                    size-length out l.valid,
                    lt→==_zero (length (contents out)) more,
                  );
              bytes = whole out l.bytes;
              status = refl;
              reading = refl;
              waits = on ∙ sym (lt→ltb 0 (length (contents out)) more);
              closes = inl refl;
              bounded = j;
            },
          )
          | no done ↦
              let e : length (contents out) ≡ 0 = omega arith in
              let f = output_empty-Finished (record half { output_buffer = out }) in
              (
                (output_empty (record half { output_buffer = out })).0,
                (output_empty (record half { output_buffer = out })).1,
                record {
                  run =
                      run_handle_write
                      ∙ rw (
                        lt→ltb 0 n pos,
                        run,
                        size-length out l.valid,
                        eq→== (length (contents out)) 0 e,
                      );
                  bytes = ap₂ ◌++◌ f.accepted (ap contents f.output) ∙ whole out l.bytes;
                  status = f.status;
                  reading = f.reading;
                  waits =
                      f.idle
                      ∙ sym (
                          le→ltb_false 0 _ (omega (arith, ap (λ b. length (contents b)) f.output)));
                  closes = elim f.closes [
                    | inl q ↦ inl q
                    | inr q ↦ inr (q, ap contents f.output ∙ length_zero (contents out) e)
                  ];
                  bounded = subst (Bounded bound total t) (sym f.output) j;
                },
              )
        ]
  ]

idle-Drains :
    (bound total t : ℕ) (w : Written) (c : Conn) (rs : List Request)
    → Bounded bound total t c.output_buffer
    → Waits c
    → handle_write w c ≡ some (c, rs)
    → Drains bound total t w c c rs
idle-Drains bound total t w c rs i p r = record {
  run = r;
  bytes = refl;
  status = refl;
  reading = refl;
  waits = p;
  closes = inl refl;
  bounded = i;
}

pub handle_write_off :
    (w : Written) (c : Conn) → is_writing c.events ≡ false → handle_write w c ≡ some (c, [])
unfolding handle_write
handle_write_off w c e = rw e

handle_write_error :
    (e : ℕ) (c : Conn)
    → IsValid c.output_buffer
    → is_writing c.events ≡ true
    → handle_write (error e) c ≡ some (c, [])
unfolding handle_write after_write sent
handle_write_error e c v on = rw (on, to_slice_lem c.output_buffer v)

-- HandleWrite returns on every branch. No byte is lost, doubled or moved; the channel waits for room
-- exactly while bytes are queued; and the sending side is closed only when none are. The status, and
-- the interest in reading, stay.
pub handle_write-Drains :
    (bound total t : ℕ) (w : Written) (c : Conn)
    → Bounded bound total t c.output_buffer
    → Waits c
    → Returned w (contents c.output_buffer)
    → (c' : Conn) × (rs : List Request) × Drains bound total t w c c' rs
handle_write-Drains bound total t (wrote n) c i p ok = elim (Bool-cases (is_writing c.events)) [
  | inl on ↦ wrote-Drains bound total t n c i p on ok
  | inr off ↦
      (c, [], idle-Drains bound total t (wrote n) c [] i p (handle_write_off (wrote n) c off))
]
handle_write-Drains bound total t (error e) c i p ok = elim (Bool-cases (is_writing c.events)) [
  | inl on ↦
      (c, [], idle-Drains bound total t (error e) c [] i p (handle_write_error e c i.valid on))
  | inr off ↦
      (c, [], idle-Drains bound total t (error e) c [] i p (handle_write_off (error e) c off))
]

-- What closing the sending side, or leaving that to HandleWrite, does to the connection.
pub record Shuts (c c' : Conn) : Type 0 where
  pub output : c'.output_buffer ≡ c.output_buffer
  pub accepted : c'.socket.accepted ≡ c.socket.accepted
  pub status : c'.status ≡ c.status
  pub events : c'.events ≡ c.events
  -- It is closed at once exactly if the channel does not wait for room.
  pub when : c'.socket.write_closed ≡ (c.socket.write_closed || not (is_writing c.events))

pub shutdown_in_loop-Shuts : (c : Conn) → Shuts c (shutdown_in_loop c)
unfolding shutdown_in_loop
shutdown_in_loop-Shuts c = elim (Bool-cases (is_writing c.events)) [
  | inl w ↦ rw w (record {
    output = refl;
    accepted = refl;
    status = refl;
    events = refl;
    when = sym (or_not w);
  })
  | inr w ↦ rw w (record {
    output = refl;
    accepted = refl;
    status = refl;
    events = refl;
    when = sym (or_not' w);
  })
]
  where
    or_not :
        is_writing c.events ≡ true
        → (c.socket.write_closed || not (is_writing c.events)) ≡ c.socket.write_closed
    or_not w = ground arith

    or_not' :
        is_writing c.events ≡ false → (c.socket.write_closed || not (is_writing c.events)) ≡ true
    or_not' w = ground arith
