-- ===== src/TcpConn.antt =====
-- evk/tcp_conn.h and evk/tcp_conn.cc: one connection, on its loop's thread. A handler returns the new
-- connection and what it asks of others, in order; `none` is a failed assert. What write(2) and
-- readv(2) return is an argument. A callback that a handler makes last, or as the connection ends,
-- is a request; its own calls are later events.
pub mod Rest
pub mod Stream
pub mod Drain
pub mod Sending
pub mod Lifecycle
pub mod Run
pub mod Tests
use evk.Prelude.{
  ℕ, ◌+◌, ◌*◌, List, [], ◌∷◌, ◌++◌, Option, none, some, Bool, true, false, not, ◌&&◌, ◌||◌, ◌>>=◌,
  ◌>>◌, require, length, take, drop, ltb, leb, ◌==◌, if◌then◌else◌, sub_size, add_size,
}
use evk.Buffer.{
  Allocator, Buffer, Readv, failed, received, size, skip, write, to_slice, read_from_fd, next_all,
  reset,
}
use evk.Channel.{is_writing, is_none_event, enable_read, enable_write, disable_write, disable_all}

pub data Status : Type 0 where
  disconnected connecting connected disconnecting : Status

-- The socket, as the calls of this file change it: the bytes that write(2) took, and whether
-- shutdown(SHUT_WR) was called.
pub record Socket : Type 0 where
  pub accepted : List ℕ
  pub write_closed : Bool

pub record Conn : Type 0 where
  pub status : Status
  pub socket : Socket
  -- `events_` of the connection's channel
  pub events : ℕ
  -- whether the callbacks are set
  pub write_complete_cb : Bool
  pub high_water_mark_cb : Bool
  pub high_water_mark : ℕ
  pub input_buffer : Buffer
  pub output_buffer : Buffer

-- The setters of callbacks that the record names.
unfoldable pub set_write_complete_callback : Bool → Conn → Conn
set_write_complete_callback cb c = record c { write_complete_cb = cb }

unfoldable pub set_high_water_mark_callback : Bool → ℕ → Conn → Conn
set_high_water_mark_callback cb high_water_mark c = record c {
  high_water_mark_cb = cb;
  high_water_mark = high_water_mark;
}

-- What write(2) returns: a count, or -1 with an error number.
pub data Written : Type 0 where
  wrote : ℕ → Written
  error : ℕ → Written

abbrev pub ewouldblock : ℕ
ewouldblock = 11

abbrev pub epipe : ℕ
epipe = 32

abbrev pub econnreset : ℕ
econnreset = 104

-- What a handler asks of the loop, of its channel and of the user's callbacks.
pub data Request : Type 0 where
  updates_channel : ℕ → Request
  removes_channel : Request
  calls_connection calls_message calls_close : Request
  queues_write_complete : Request
  queues_high_water : ℕ → Request
  queues_send : List ℕ → Request
  queues_send_buffer : Request
  queues_shutdown : Request

abbrev pub is_disconnected : Status → Bool
is_disconnected disconnected = true
is_disconnected _ = false

abbrev pub is_connecting : Status → Bool
is_connecting connecting = true
is_connecting _ = false

abbrev pub is_connected : Status → Bool
is_connected connected = true
is_connected _ = false

abbrev pub is_disconnecting : Status → Bool
is_disconnecting disconnecting = true
is_disconnecting _ = false

abbrev pub request_if : Bool → Request → List Request
request_if b r = if b then r ∷ [] else []

-- The socket after write(2) of the bytes `m`.
unfoldable pub sent : Written → List ℕ → Socket → Socket
sent (wrote n) m s = record s { accepted = s.accepted ++ take n m }
sent (error e) m s = s

unfoldable pub shutdown_in_loop : Conn → Conn
shutdown_in_loop c =
    if not (is_writing c.events)
    then record c { socket = record (c.socket) { write_closed = true } }
    else c

-- The direct write of `SendInLoop`: nwrote, remaining, faultError, and what it asks for.
pub record Direct : Type 0 where
  pub nwrote : ℕ
  pub remaining : ℕ
  pub fault_error : Bool
  pub requests : List Request

unfoldable pub write_directly : Written → ℕ → Bool → Direct
write_directly (wrote n) len cb = record {
  nwrote = n;
  remaining = sub_size len n;
  fault_error = false;
  requests = request_if ((sub_size len n == 0) && cb) queues_write_complete;
}
write_directly (error e) len cb = record {
  nwrote = 0;
  remaining = len;
  fault_error = not (e == ewouldblock) && ((e == epipe) || (e == econnreset));
  requests = [];
}

-- The high water mark is reached by `remaining` bytes more than the old length.
unfoldable pub high_water : ℕ → ℕ → Conn → List Request
high_water old_len remaining c =
    request_if
      ((leb c.high_water_mark (add_size old_len remaining) && ltb old_len c.high_water_mark)
        && c.high_water_mark_cb)
      (queues_high_water (add_size old_len remaining))

-- `if (!channel_->IsWriting()) channel_->EnableWriteEvent();` behind the append.
unfoldable pub watch_output : Buffer → List Request → Conn → Conn × List Request
watch_output out requests c =
    if not (is_writing c.events)
    then (
      record c { output_buffer = out; events = enable_write c.events },
      requests ++ (updates_channel (enable_write c.events) ∷ []),
    )
    else (record c { output_buffer = out }, requests)

module _ ⦃h : Allocator⦄ where
  -- The rest of `SendInLoop`: what was not written is appended to the output buffer.
  unfoldable pub keep_rest : Direct → List ℕ → Conn → Option (Conn × List Request)
  keep_rest d m c = do
    require (leb d.remaining (length m))
    if not d.fault_error && ltb 0 d.remaining
        then (do
          old_len ← size c.output_buffer
          out ← write (drop d.nwrote m) c.output_buffer
          some (watch_output out (d.requests ++ high_water old_len d.remaining c) c))
        else some ((c, d.requests))

  unfoldable pub send_in_loop : Written → List ℕ → Conn → Option (Conn × List Request)
  send_in_loop w m c = if is_disconnected c.status then some ((c, [])) else do
    n ← size c.output_buffer
    if not (is_writing c.events) && (n == 0)
        then keep_rest (write_directly w (length m) c.write_complete_cb) m
            (record c { socket = sent w m c.socket })
        else keep_rest
            (record { nwrote = 0; remaining = length m; fault_error = false; requests = [] }) m c

  -- `Send` of a slice or of bytes; off the loop's thread the message is queued.
  unfoldable pub send : Bool → Written → List ℕ → Conn → Option (Conn × List Request)
  send in_loop_thread w m c =
      if is_connected c.status
      then (if in_loop_thread then send_in_loop w m c else some ((c, queues_send m ∷ [])))
      else some ((c, []))

  -- `Send(Buffer*)`, with the message's own buffer, which is emptied on the loop's thread; off it, the
  -- task that is queued takes the bytes out later.
  unfoldable pub send_buffer :
      Bool → Written → Buffer → Conn → Option (Conn × Buffer × List Request)
  send_buffer in_loop_thread w message c =
      if is_connected c.status
      then (if in_loop_thread
          then (do
            m ← to_slice message
            (c', requests) ← send_in_loop w m c
            some ((c', reset message, requests)))
          else some ((c, message, queues_send_buffer ∷ [])))
      else some ((c, message, []))

  -- The task that `Send(Buffer*)` leaves.
  unfoldable pub send_queued_buffer :
      Written → Buffer → Conn → Option (Conn × Buffer × List Request)
  send_queued_buffer w message c = do
    (m, message') ← next_all message
    (c', requests) ← send_in_loop w m c
    some ((c', message', requests))

unfoldable pub shutdown : Bool → Conn → Conn × List Request
shutdown in_loop_thread c =
    if is_connected c.status
    then (if in_loop_thread
        then (shutdown_in_loop (record c { status = disconnecting }), [])
        else (record c { status = disconnecting }, queues_shutdown ∷ []))
    else (c, [])

-- `HandleWrite`, where the output buffer has become empty.
unfoldable pub output_empty : Conn → Conn × List Request
output_empty c =
    let d = record c { events = disable_write c.events } in
    (
      if is_disconnecting d.status then shutdown_in_loop d else d,
      updates_channel d.events ∷ request_if d.write_complete_cb queues_write_complete,
    )

-- `HandleWrite`, behind the write(2) of the output buffer.
unfoldable pub after_write : Written → Conn → Option (Conn × List Request)
after_write (error e) c = some ((c, []))
after_write (wrote n) c =
    if ltb 0 n
    then (do
      out ← skip n c.output_buffer
      left ← size out
      let c' = record c { output_buffer = out }
      if left == 0 then some (output_empty c') else some ((c', [])))
    else some ((c, []))

unfoldable pub handle_write : Written → Conn → Option (Conn × List Request)
handle_write w c =
    if is_writing c.events
    then (do m ← to_slice c.output_buffer; after_write w (record c { socket = sent w m c.socket }))
    else some ((c, []))

unfoldable pub handle_close : Conn → Option (Conn × List Request)
handle_close c = do
  require (is_connected c.status || is_disconnecting c.status)
  some (
      (
        record c { status = disconnected; events = disable_all c.events },
        updates_channel (disable_all c.events) ∷ calls_close ∷ [],
      ))

-- A received count of zero is the peer's end of the stream.
unfoldable pub handle_read : ⦃h : Allocator⦄ → Readv → Conn → Option (Conn × List Request)
handle_read r c = do
  (n, input) ← read_from_fd r c.input_buffer
  let c' = record c { input_buffer = input }
  elim n [
    | failed e ↦ some ((c', []))
    | received bs ↦ (if ltb 0 (length bs) then some ((c', calls_message ∷ [])) else handle_close c')
  ]

unfoldable pub on_connect_established : Conn → Option (Conn × List Request)
on_connect_established c = do
  require (is_connecting c.status)
  some (
      (
        record c { status = connected; events = enable_read c.events },
        updates_channel (enable_read c.events) ∷ calls_connection ∷ [],
      ))

-- The assert is that of Channel::Remove.
unfoldable pub on_connect_destroyed : Conn → Option (Conn × List Request)
on_connect_destroyed c =
    if is_connected c.status
    then (let c' = record c { status = disconnected; events = disable_all c.events } in
        do
          require (is_none_event c'.events)
          some ((c', updates_channel c'.events ∷ calls_connection ∷ removes_channel ∷ [])))
    else do require (is_none_event c.events); some ((c, removes_channel ∷ []))
