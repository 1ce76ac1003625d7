-- ===== src/TcpServer.antt =====
-- evk/tcp_server.h and evk/tcp_server.cc: the connections of a server. A connection is named by the
-- number in its name, which is next_conn_id_ when it is made: the rest of the name is the same for
-- all, and the buffer of 64 bytes holds it whole. A loop is a number. What the server asks a loop to
-- run is a request with that loop; `none` is a failed assert,
-- or an `int` that overflows.
pub mod Connections
pub mod Life
pub mod Tests
use evk.Prelude.{
  ltb, ◌^◌, ℕ, ◌+◌, List, [], ◌∷◌, map, Option, some, none, ◌>>=◌, ◌>>◌, require, Bool, true, false,
  not, ◌==◌, if◌then◌else◌,
}
use evk.Prelude.Int.{ℤ, pos, negsuc}
use evk.Assoc.{find, erase, assign}
use evk.ServerStatus.{Status, null, initializing, initialized, starting, running, stopping, stopped}
use evk.ThreadPool
use evk.ThreadPool.{Pool, set_thread_num, get_next_loop}

pub record Server : Type 0 where
  pub status : Status
  pub loop : ℕ
  pub thread_pool : Pool
  -- whether its acceptor listens
  pub listening : Bool
  pub next_conn_id : ℕ
  -- `connections_`, by the number of the name, with the loop of each connection
  pub connections : List (ℕ × ℕ)

-- Acceptor::Listen, and OnConnectEstablished and OnConnectDestroyed of a connection.
pub data Task : Type 0 where
  listens : Task
  establishes destroys : ℕ → Task

-- `if (num_thread < 0) num_thread = 0;`
unfoldable pub thread_count : ℤ → ℕ
thread_count (pos n) = n
thread_count (negsuc n) = 0

-- The constructor.
unfoldable pub init : ℕ → ℤ → Server
init loop num_thread = record {
  status = initialized;
  loop = loop;
  thread_pool = set_thread_num (thread_count num_thread) (ThreadPool.init loop);
  listening = false;
  next_conn_id = 1;
  connections = [];
}

-- The destructor.
unfoldable pub destroy_all : List (ℕ × ℕ) → List (ℕ × Task)
destroy_all [] = []
destroy_all ((id, loop) ∷ m) = (loop, destroys id) ∷ destroy_all m

unfoldable pub is_initialized : Status → Bool
is_initialized initialized = true
is_initialized _ = false

-- `Start`, on the thread of the server's loop, where the acceptor listens at once; `start_loop` is
-- what the pool's threads return.
unfoldable pub start : (ℕ → ℕ) → Server → Option (Server × List (ℕ × Task))
start start_loop s =
    if is_initialized s.status
    then (do
      require (not s.listening)
      some (
          (
            record s {
              status = running;
              thread_pool = ThreadPool.start start_loop s.thread_pool;
              listening = true;
            },
            (s.loop, listens) ∷ [],
          )))
    else some ((s, []))

-- `++next_conn_id_`, an `int`: where it overflows the behaviour is undefined.
unfoldable pub handle_new_connection : Server → Option (Server × ℕ × Task)
handle_new_connection s = do
  (io_loop, pool) ← get_next_loop s.thread_pool
  require (ltb (s.next_conn_id + 1) (2 ^ 31))
  some (
      (
        record s {
          thread_pool = pool;
          next_conn_id = s.next_conn_id + 1;
          connections = assign s.next_conn_id io_loop s.connections;
        },
        io_loop,
        establishes s.next_conn_id,
      ))

-- `RemoveConnectionInLoop`. The erasure of a name that is not there is the assert's failure.
unfoldable pub remove_connection_in_loop : ℕ → ℕ → Server → Option (Server × ℕ × Task)
remove_connection_in_loop id io_loop s = elim (find id s.connections) [
  | none ↦ none
  | some l ↦ some ((record s { connections = erase id s.connections }, io_loop, destroys id))
]
