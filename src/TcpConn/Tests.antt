-- ===== src/TcpConn/Tests.antt =====
-- The theorems on connections, at a connection with two bytes queued.
use evk.Prelude.{
  ◌≤◌, ◌≡◌, refl, List, [], ◌∷◌, ◌++◌, some, true, false, arith, sub_size, add_size, double_size,
}
use evk.Buffer.{
  Buffer, received, offered, size, skip, truncate, reset, to_slice, load, store, write,
  ensure_writable_bytes, grow, reallocate, compact, writable_bytes, prependable_bytes, read_from_fd,
}
use evk.Buffer.Session.{Bounded}
use evk.Buffer.Tests.{zeros}
use evk.Channel.{is_writing, enable_write, disable_write, disable_all, is_reading}
use evk.TcpConn.{
  Conn, connected, disconnected, disconnecting, wrote, Request, removes_channel, calls_close,
  updates_channel, handle_read, handle_close, send, keep_rest, write_directly, watch_output,
  high_water, sent, after_write, output_empty, shutdown, shutdown_in_loop, on_connect_destroyed,
  send_in_loop, handle_write,
}
use evk.TcpConn.Stream.{stream, Waits, Sends, send_in_loop-Sends}
use evk.TcpConn.Drain.{Drains, handle_write-Drains}
use evk.TcpConn.Lifecycle.{
  rank, reads, enter, enter-rank, Reads, handle_read_outcomes, close-destroyed,
}
use evk.TcpConn.Run.{
  Event, sends, writable, shuts, closes, step, run, Allowed, takes_all, Sound, run-stream,
}

abbrev input : Buffer
input = record {
  buffer = 0 ∷ 0 ∷ 0 ∷ 0 ∷ [];
  capacity = 4;
  read_index = 1;
  write_index = 1;
  reserved_prepend_size = 1;
}

-- Two bytes are queued.
abbrev output : Buffer
output = record {
  buffer = 0 ∷ 5 ∷ 6 ∷ 0 ∷ 0 ∷ [];
  capacity = 5;
  read_index = 1;
  write_index = 3;
  reserved_prepend_size = 1;
}

abbrev pub busy : Conn
busy = record {
  status = connected;
  socket = record { accepted = 4 ∷ []; write_closed = false };
  events = 7;
  write_complete_cb = true;
  high_water_mark_cb = true;
  high_water_mark = 3;
  input_buffer = input;
  output_buffer = output;
}

abbrev leaving : Conn
leaving = record busy { status = disconnecting }

-- Nine bytes queued or to come, in a block of at most thirty.
busy-Bounded : Bounded 30 9 7 output
busy-Bounded = record {
  valid = omega arith;
  load = omega arith;
  low = omega arith;
  enough = omega arith;
  fits = omega arith;
}

busy-Waits : Waits busy
unfolding is_writing
busy-Waits = refl

busy-Sound : Sound 30 9 7 busy
unfolding is_writing
busy-Sound = record { bounded = busy-Bounded; watch = refl }

-- A message behind the two bytes; both go out; the user shuts down; the rest goes out.
abbrev life : List Event
life =
    sends (wrote 0) (7 ∷ 8 ∷ 9 ∷ 1 ∷ 2 ∷ 3 ∷ 4 ∷ [])
    ∷ writable (wrote 2)
    ∷ shuts
    ∷ writable (wrote 7)
    ∷ closes
    ∷ []

life-Allowed : Allowed life busy
unfolding zeros step send send_in_loop keep_rest write_directly watch_output high_water sent size
    skip truncate reset to_slice load store write ensure_writable_bytes grow reallocate compact
    writable_bytes prependable_bytes handle_write after_write output_empty shutdown shutdown_in_loop
    handle_close is_writing enable_write disable_write disable_all sub_size add_size double_size
life-Allowed = (omega arith, (omega arith, (tt, (omega arith, (refl, tt)))))

run-stream_example :
    (c' : Conn) × (run life busy ≡ some c')
    × (stream c' ≡ stream busy ++ takes_all life busy)
    × Sound 30 9 0 c'
run-stream_example = run-stream 30 9 life busy busy-Sound life-Allowed

handle_write-Drains_example : (c' : Conn) × (rs : List Request) × Drains 30 9 7 (wrote 2) busy c' rs
handle_write-Drains_example =
    handle_write-Drains 30 9 7 (wrote 2) busy busy-Bounded busy-Waits (omega arith)

send_in_loop-Sends_example :
    (c' : Conn) × (rs : List Request) × Sends 30 9 5 (wrote 0) (7 ∷ 8 ∷ []) busy c' rs
send_in_loop-Sends_example =
    send_in_loop-Sends 30 9 5 (wrote 0) (7 ∷ 8 ∷ []) busy busy-Bounded (omega arith)

abbrev closed : Conn
closed = record busy { status = disconnected; events = 0 }

enter-closed :
    enter (reads (received [])) busy ≡ some (closed, updates_channel 0 ∷ calls_close ∷ [])
unfolding enter handle_read read_from_fd writable_bytes store sub_size handle_close disable_all
    add_size
enter-closed = refl

enter-rank_example : rank connected ≤ rank disconnected
enter-rank_example =
    enter-rank (reads (received [])) busy closed (updates_channel 0 ∷ calls_close ∷ []) enter-closed

handle_read_outcomes_example :
    (c' : Conn) × (rs : List Request) × (handle_read (received (8 ∷ 9 ∷ [])) busy ≡ some (c', rs))
    × Reads (received (8 ∷ 9 ∷ [])) busy c' rs
unfolding offered
handle_read_outcomes_example =
    handle_read_outcomes (received (8 ∷ 9 ∷ [])) busy (omega arith) (omega arith) refl (omega arith)

close-destroyed_example :
    (c' : Conn) × (handle_close busy ≡ some (c', updates_channel 0 ∷ calls_close ∷ []))
    × (on_connect_destroyed c' ≡ some (c', removes_channel ∷ []))
    × (c'.status ≡ disconnected)
close-destroyed_example = close-destroyed busy refl

leaving-reads : is_reading leaving.events ≡ true
unfolding is_reading
leaving-reads = refl
