-- ===== src/TcpServer/Tests.antt =====
-- The theorems on the server, with two loops and one connection.
use evk.Prelude.{
  ltb, leb, ◌||◌, ◌-◌, get_elem?, if◌then◌else◌, ℕ, ◌+◌, ◌≡◌, refl, List, [], ◌∷◌, some, true,
  arith,
}
use evk.Assoc.{find}
use evk.ServerStatus.{running, is_running}
use evk.ThreadPool.Turns.{turns}
use evk.TcpServer.{Server}
use evk.TcpServer.Connections.{accept_many, established, accept_many-turns}

abbrev serving : Server
serving = record {
  status = running;
  loop = 9;
  thread_pool = record {
    status = running;
    base_loop = 9;
    num_thread = 2;
    next = 1;
    loops = 10 ∷ 11 ∷ [];
  };
  listening = true;
  next_conn_id = 2;
  connections = (1, 10) ∷ [];
}

serving-running : is_running serving.thread_pool.status ≡ true
unfolding is_running
serving-running = refl

accept_many-turns_example :
    (ls : List ℕ) × (s' : Server) × (accept_many 3 serving ≡ some (established 2 ls, s'))
    × (turns 3 1 (10 ∷ 11 ∷ []) ≡ some ls)
    × (s'.next_conn_id ≡ 2 + 3)
    × ((id : ℕ)
        → find id s'.connections ≡ (
            if ltb id 2 || leb (2 + 3) id
            then find id serving.connections
            else get_elem? ls (id - 2)))
accept_many-turns_example = accept_many-turns 3 serving serving-running (omega arith) (omega arith)
