-- ===== src/TcpConn/Rest.antt =====
-- The second half of TcpConnection::SendInLoop: what was not written is put behind the output buffer,
-- and the channel waits for room.
use evk.Prelude.{
  ℕ, ◌+◌, ◌<◌, ◌≡◌, refl, sym, ap, ap₂, ◌∙◌, List, [], ◌++◌, append-nil, some, Bool, true, false,
  ◌||◌, inl, inr, arith, length, drop, ltb, if◌then◌else◌, length-drop, drop_all, le→leb, lt→ltb,
  le→ltb_false, Bool-cases,
}
use native.Mathlib.Decide.{dec_lt}
use evk.Buffer.{Allocator, Buffer}
use evk.Buffer.Invariant.{contents, size-length}
use evk.Buffer.Session.{Bounded, Bounded-less, write-Bounded}
use evk.Channel.{is_writing, is_reading}
use evk.Channel.Events.{events_lem}
use evk.TcpConn.{Conn, Direct, Request, watch_output, high_water, keep_rest}

-- What a call that puts `rest` behind the output buffer does to the connection. `t` more bytes fit.
pub record Kept (bound total t : ℕ) (rest : List ℕ) (c c' : Conn) : Type 0 where
  pub bounded : Bounded bound total t c'.output_buffer
  pub bytes : contents c'.output_buffer ≡ contents c.output_buffer ++ rest
  pub socket : c'.socket ≡ c.socket
  pub status : c'.status ≡ c.status
  pub writing : is_writing c'.events ≡ (is_writing c.events || ltb 0 (length rest))
  pub reading : is_reading c'.events ≡ is_reading c.events

abbrev pub left_over : Direct → List ℕ → List ℕ
left_over d m = if d.fault_error then [] else drop d.nwrote m

module _ ⦃h : Allocator⦄ (bound total t : ℕ) (d : Direct) (m : List ℕ) (c : Conn)
    (i : Bounded bound total (length m + t) c.output_buffer)
    (fits : d.nwrote + d.remaining ≡ length m) where
  nothing-Kept : (e : List ℕ) → e ≡ [] → Kept bound total t e c c
  nothing-Kept e p = record {
    bounded = Bounded-less bound total (length m + t) t c.output_buffer (omega arith) i;
    bytes = rw p (sym (append-nil (contents c.output_buffer)));
    socket = refl;
    status = refl;
    writing = rw p (or_false (is_writing c.events));
    reading = refl;
  }
    where
      or_false : (b : Bool) → b ≡ (b || false)
      or_false b = ground arith

  watch_output-Kept :
      (out : Buffer) (rs : List Request)
      → contents out ≡ contents c.output_buffer ++ drop d.nwrote m
      → Bounded bound total t out
      → 0 < d.remaining
      → Kept bound total t (drop d.nwrote m) c (watch_output out rs c).0
  unfolding watch_output
  watch_output-Kept out rs same j pos =
      let some_left : ltb 0 (length (drop d.nwrote m)) ≡ true =
        lt→ltb 0 (length (drop d.nwrote m)) (omega (arith, length-drop d.nwrote m)) in
      elim (Bool-cases (is_writing c.events)) [
        | inl w ↦ rw w (record {
          bounded = j;
          bytes = same;
          socket = refl;
          status = refl;
          writing = w ∙ sym (ap (λ r. r || ltb 0 (length (drop d.nwrote m))) w);
          reading = refl;
        })
        | inr w ↦ rw w (record {
          bounded = j;
          bytes = same;
          socket = refl;
          status = refl;
          writing = (events_lem c.events).2 ∙ sym (ap₂ ◌||◌ w some_left);
          reading = (events_lem c.events).3;
        })
      ]

  pub keep_rest-Kept :
      (c' : Conn) × (rs : List Request) × (keep_rest d m c ≡ some (c', rs))
      × Kept bound total t (left_over d m) c c'
  unfolding keep_rest
  keep_rest-Kept = elim (Bool-cases d.fault_error) [
    | inl f ↦ (
      c,
      d.requests,
      rw (le→leb d.remaining (length m) (omega arith), f),
      nothing-Kept (left_over d m) (rw f),
    )
    | inr f ↦ elim (dec_lt 0 d.remaining) [
      | yes pos ↦
          let (out, run, same, j) = write-Bounded bound total t (drop d.nwrote m) c.output_buffer (
            Bounded-less bound total (length m + t) _ c.output_buffer
              (omega (arith, length-drop d.nwrote m)) i) in
          let rs : List Request =
            d.requests ++ high_water (length (contents c.output_buffer)) d.remaining c in
          (
            (watch_output out rs c).0,
            (watch_output out rs c).1,
            rw (
              le→leb d.remaining (length m) (omega arith),
              f,
              lt→ltb 0 d.remaining pos,
              size-length c.output_buffer i.valid,
              run,
            ),
            rw f (watch_output-Kept out rs same j pos),
          )
      | no stop ↦ (
        c,
        d.requests,
        rw (
          le→leb d.remaining (length m) (omega arith),
          f,
          le→ltb_false 0 d.remaining (omega arith),
        ),
        nothing-Kept (left_over d m) (rw f (drop_all d.nwrote m (omega arith))),
      )
    ]
  ]
