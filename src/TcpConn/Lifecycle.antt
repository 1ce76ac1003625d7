-- ===== src/TcpConn/Lifecycle.antt =====
-- The status of a connection: which handlers move it, and which asserts guard the moves.
use evk.Prelude.{
  Bool, ◌>>=◌, ℕ, zero, suc, append-nil, ◌+◌, ◌≤◌, ◌<◌, ◌≡◌, refl, ◌∙◌, List, [], ◌∷◌, ◌++◌, Option,
  some, none, true, false, ◌||◌, arith, length, size_mod, lt→ltb, ◌-◌,
}
use evk.Buffer.{Allocator, Buffer, Readv, failed, received, offered, extrabuf_size, read_from_fd}
use evk.Buffer.Invariant.{IsValid, contents, writable_bytes_lem}
use evk.Buffer.Fd.{read_from_fd-Holds}
use evk.Channel.{is_none_event, is_reading, disable_all}
use evk.TcpConn.{
  Conn, Status, disconnected, connecting, connected, disconnecting, Written, Request,
  updates_channel, calls_close, calls_message, removes_channel, is_connected, is_disconnecting,
  send, send_buffer, send_queued_buffer, send_in_loop, handle_write, handle_read, handle_close,
  shutdown, shutdown_in_loop, on_connect_established, on_connect_destroyed,
}
use evk.TcpConn.Sending.{
  forget, send_status, write_status, send-Passes, buffer-Passes, queued-Passes, Passes-status,
}

-- How far a connection's life has come.
abbrev pub rank : Status → ℕ
rank connecting = 0
rank connected = 1
rank disconnecting = 2
rank disconnected = 3

-- The entries of the class that may change a connection: what TcpServer calls, the callbacks of the
-- channel, Send and Shutdown on the loop's thread (`true`) or another (`false`), and the tasks that the
-- calls on another thread leave.
pub data Entry : Type 0 where
  established destroyed : Entry
  reads : Readv → Entry
  writes : Written → Entry
  closes : Entry
  sends : Bool → Written → List ℕ → Entry
  sends_in_loop : Written → List ℕ → Entry
  sends_buffer : Bool → Written → Buffer → Entry
  sends_queued_buffer : Written → Buffer → Entry
  shuts : Bool → Entry
  shuts_in_loop : Entry

module _ ⦃h : Allocator⦄ where
  unfoldable pub enter : Entry → Conn → Option (Conn × List Request)
  enter established c = on_connect_established c
  enter destroyed c = on_connect_destroyed c
  enter (reads r) c = handle_read r c
  enter (writes w) c = handle_write w c
  enter closes c = handle_close c
  enter (sends b w m) c = send b w m c
  enter (sends_in_loop w m) c = send_in_loop w m c
  enter (sends_buffer b w message) c = do x ← send_buffer b w message c; some (forget x)
  enter (sends_queued_buffer w message) c = do x ← send_queued_buffer w message c; some (forget x)
  enter (shuts b) c = some (shutdown b c)
  enter shuts_in_loop c = some ((shutdown_in_loop c, []))

  close_rank :
      (c c' : Conn) (rs : List Request)
      → handle_close c ≡ some (c', rs)
      → rank c.status ≤ rank c'.status
  unfolding handle_close
  close_rank c c' rs e = ground arith

  read_rank :
      (r : Readv) (c c' : Conn) (rs : List Request)
      → handle_read r c ≡ some (c', rs)
      → rank c.status ≤ rank c'.status
  unfolding handle_read handle_close
  read_rank r c c' rs e = ground arith

  -- Whatever entry runs, on whichever thread, and returns, the status moves forward or stays: connecting,
  -- connected, disconnecting, disconnected. No entry brings a closed connection back.
  pub enter-rank :
      (e : Entry) (c c' : Conn) (rs : List Request)
      → enter e c ≡ some (c', rs)
      → rank c.status ≤ rank c'.status
  unfolding enter
  enter-rank established c c' rs r = unfold on_connect_established in ground arith
  enter-rank destroyed c c' rs r = unfold on_connect_destroyed in ground arith
  enter-rank (reads b) c c' rs r = read_rank b c c' rs r
  enter-rank (writes w) c c' rs r = ground (arith, write_status w c c' rs r)
  enter-rank closes c c' rs r = close_rank c c' rs r
  enter-rank (sends b w m) c c' rs r =
      ground (arith, Passes-status w c c' rs (send-Passes b w m c c' rs r))
  enter-rank (sends_in_loop w m) c c' rs r = ground (arith, send_status w m c c' rs r)
  enter-rank (sends_buffer b w message) c c' rs r =
      ground (arith, Passes-status w c c' rs (buffer-Passes b w message c c' rs r))
  enter-rank (sends_queued_buffer w message) c c' rs r =
      ground (arith, Passes-status w c c' rs (queued-Passes w message c c' rs r))
  enter-rank (shuts true) c c' rs r = unfold shutdown shutdown_in_loop in ground arith
  enter-rank (shuts false) c c' rs r = unfold shutdown in ground arith
  enter-rank shuts_in_loop c c' rs r = unfold shutdown_in_loop in ground arith

-- What readv(2) may return for the input buffer's room.
abbrev pub Received : Readv → Conn → Type 0
Received (failed e) c = Unit {0}
Received (received bs) c =
    length bs ≤ offered (c.input_buffer.capacity - c.input_buffer.write_index)

-- The connection and the requests behind HandleRead, for each outcome of readv(2).
abbrev pub Reads : Readv → Conn → Conn → List Request → Type 0
Reads (failed e) c c' rs = (c' ≡ c) × (rs ≡ [])
Reads (received []) c c' rs =
    (contents c'.input_buffer ≡ contents c.input_buffer)
    × (c'.status ≡ disconnected)
    × (c'.events ≡ 0)
    × (rs ≡ updates_channel 0 ∷ calls_close ∷ [])
Reads (received (b ∷ bs)) c c' rs =
    (contents c'.input_buffer ≡ contents c.input_buffer ++ b ∷ bs)
    × IsValid c'.input_buffer
    × (c'.status ≡ c.status)
    × (c'.events ≡ c.events)
    × (rs ≡ calls_message ∷ [])

-- HandleRead on its three outcomes. Received bytes are put behind the input buffer, in order, and the
-- message callback is called; an error leaves the connection as it is; the peer's end of the stream
-- closes it: all events are disabled and the close callback is called, no other.
pub handle_read_outcomes :
    ⦃h : Allocator⦄ (r : Readv) (c : Conn)
    → IsValid c.input_buffer
    → c.input_buffer.capacity + c.input_buffer.capacity + extrabuf_size < size_mod
    → (is_connected c.status || is_disconnecting c.status) ≡ true
    → Received r c
    → (c' : Conn) × (rs : List Request) × (handle_read r c ≡ some (c', rs)) × Reads r c c' rs
unfolding handle_read handle_close disable_all
handle_read_outcomes (failed e) c v fit up ok =
    (c, [], unfold read_from_fd in rw (writable_bytes_lem c.input_buffer v), (refl, refl))
handle_read_outcomes (received []) c v fit up ok =
    let (b, run, k) = read_from_fd-Holds [] c.input_buffer v ok fit in
    (
      record c { input_buffer = b; status = disconnected; events = 0 },
      updates_channel 0 ∷ calls_close ∷ [],
      rw (run, up),
      (k.bytes ∙ append-nil (contents c.input_buffer), refl, refl, refl),
    )
handle_read_outcomes (received (x ∷ bs)) c v fit up ok =
    let (b, run, k) = read_from_fd-Holds (x ∷ bs) c.input_buffer v ok fit in
    (
      record c { input_buffer = b },
      calls_message ∷ [],
      rw (run, lt→ltb 0 (suc (length bs)) (omega arith)),
      (k.bytes, k.valid, refl, refl, refl),
    )

-- A connection that the peer closes, and that its server then destroys: no assert fails, the channel is
-- removed, and the close callback is called once. The connection callback, which has reported the
-- beginning, does not report this end.
pub close-destroyed :
    (c : Conn)
    → (is_connected c.status || is_disconnecting c.status) ≡ true
    → (c' : Conn) × (handle_close c ≡ some (c', updates_channel 0 ∷ calls_close ∷ []))
      × (on_connect_destroyed c' ≡ some (c', removes_channel ∷ []))
      × (c'.status ≡ disconnected)
unfolding handle_close on_connect_destroyed disable_all is_none_event
close-destroyed c up = (record c { status = disconnected; events = 0 }, rw up, refl, refl)

reading-not_none : (e : ℕ) → is_reading e ≡ true → is_none_event e ≡ false
unfolding is_none_event is_reading
reading-not_none zero h = cc
reading-not_none (suc e) h = ground arith

-- OnConnectDestroyed on a connection that is shutting down and still reads, as when the server goes
-- down before the peer has closed, stops at the assert of Channel::Remove.
pub destroyed_disconnecting :
    (c : Conn)
    → is_reading c.events ≡ true
    → c.status ≡ disconnecting
    → on_connect_destroyed c ≡ none
unfolding on_connect_destroyed
destroyed_disconnecting c on e = rw (e, reading-not_none c.events on)
