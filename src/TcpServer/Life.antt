-- ===== src/TcpServer/Life.antt =====
-- The connections of a server from HandleNewConnection to OnConnectDestroyed: evk/tcp_server.cc and
-- evk/tcp_conn.cc together. What RunInLoop and QueueInLoop are given waits as a list of jobs, which the
-- loops run in any order; one that RunInLoop runs at once is the next to run. The handlers run on open
-- connections. Destructor adds the destructor of the server, behind
-- which there are no steps.
pub mod Handlers
pub mod Jobs
pub mod Phases
pub mod Running
pub mod Moves
pub mod Safety
pub mod Destructor
pub mod Tests
use evk.Prelude.{
  ℕ, List, [], ◌∷◌, ◌++◌, Option, some, none, ◌>>=◌, ◌≡◌, Bool, true, false, ◌||◌, ◌==◌,
  if◌then◌else◌,
}
use evk.Buffer.{Allocator}
use evk.TcpConn.{
  Conn, Request, calls_close, is_connected, is_disconnecting, connecting, on_connect_established,
  on_connect_destroyed, handle_close,
}
use evk.TcpConn.Lifecycle.{Entry, established, destroyed, enter}
use evk.TcpServer.{
  Server, Task, establishes, destroys, listens, destroy_all, handle_new_connection,
  remove_connection_in_loop,
}

-- OnConnectEstablished, RemoveConnectionInLoop and OnConnectDestroyed.
pub data Kind : Type 0 where
  establish remove destroy : Kind

pub record World : Type 0 where
  pub server : Server
  -- the connections by their number, and the loop of each
  pub conns : ℕ → Conn
  pub loops : ℕ → ℕ
  -- what waits in the loops, by the connection's number
  pub jobs : List (Kind × ℕ)

abbrev pub set_at {ℓ} : {A : Type ℓ} → ℕ → A → (ℕ → A) → ℕ → A
set_at id v f x = if x == id then v else f x

abbrev pub is_close : Request → Bool
is_close calls_close = true
is_close _ = false

-- `TcpServer::RemoveConnection`, which each call of the close callback is.
unfoldable pub removals : ℕ → List Request → List (Kind × ℕ)
removals id [] = []
removals id (r ∷ rs) = let rest = removals id rs in if is_close r then (remove, id) ∷ rest else rest

unfoldable pub of_task : Task → List (Kind × ℕ)
of_task listens = []
of_task (establishes id) = (establish, id) ∷ []
of_task (destroys id) = (destroy, id) ∷ []

-- What a handler of the connection leaves.
unfoldable pub settle : ℕ → Conn × List Request → World → World
settle id (c, rs) w = record w { conns = set_at id c w.conns; jobs = w.jobs ++ removals id rs }

-- A job that is taken out of the list; `none` is a failed assert.
unfoldable pub run_job : Kind → ℕ → World → Option World
run_job establish id w = do x ← on_connect_established (w.conns id); some (settle id x w)
run_job remove id w = do
  (s, _, t) ← remove_connection_in_loop id (w.loops id) w.server
  some (record w { server = s; jobs = w.jobs ++ of_task t })
run_job destroy id w = do x ← on_connect_destroyed (w.conns id); some (settle id x w)

-- HandleNewConnection, which makes the connection `c`.
unfoldable pub accept : Conn → World → Option World
accept c w = do
  (s, l, t) ← handle_new_connection w.server
  some (record {
    server = s;
    conns = set_at w.server.next_conn_id c w.conns;
    loops = set_at w.server.next_conn_id l w.loops;
    jobs = w.jobs ++ of_task t;
  })

unfoldable pub of_tasks : List (ℕ × Task) → List (Kind × ℕ)
of_tasks [] = []
of_tasks ((l, t) ∷ ts) = of_task t ++ of_tasks ts

-- `~TcpServer`
unfoldable pub destruct : World → World
destruct w = record w {
  server = record (w.server) { connections = [] };
  jobs = w.jobs ++ of_tasks (destroy_all w.server.connections);
}

abbrev pub is_up : Conn → Bool
is_up c = is_connected c.status || is_disconnecting c.status

-- What the loop or the user calls on a connection.
pub data Event : Type 0 where
  hangs_up : Event
  enters : Entry → Event

abbrev pub is_event : Event → Bool
is_event hangs_up = true
is_event (enters established) = false
is_event (enters destroyed) = false
is_event (enters _) = true

unfoldable pub handle : ⦃h : Allocator⦄ → Event → Conn → Option (Conn × List Request)
handle hangs_up c = handle_close c
handle (enters e) c = enter e c

pub data Step ⦃h : Allocator⦄ : World → World → Type 0 where
  accepts : {w w' : World} (c : Conn) → c.status ≡ connecting → accept c w ≡ some w' → Step w w'
  runs :
      {w w' : World} (k : Kind) (id : ℕ) (before behind : List (Kind × ℕ))
      → w.jobs ≡ before ++ (k, id) ∷ behind
      → run_job k id (record w { jobs = before ++ behind }) ≡ some w'
      → Step w w'
  handles :
      {w : World} (id : ℕ) (e : Event) (x : Conn × List Request)
      → is_event e ≡ true
      → is_up (w.conns id) ≡ true
      → handle e (w.conns id) ≡ some x
      → Step w (settle id x w)

-- From a server without connections.
pub data Reach ⦃h : Allocator⦄ : World → Type 0 where
  here :
      {w : World}
      → w.server.connections ≡ []
      → w.jobs ≡ []
      → ((id : ℕ) → is_up (w.conns id) ≡ false)
      → Reach w
  later : {w w' : World} → Reach w → Step w w' → Reach w'
