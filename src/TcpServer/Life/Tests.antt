-- ===== src/TcpServer/Life/Tests.antt =====
-- A connection that comes, and hangs up at once, at a server with two loops.
use evk.Prelude.{◌++◌, ℕ, false, List, ◌≡◌, refl, [], ◌∷◌, some, none, true, ◌==◌, if◌then◌else◌}
use evk.ServerStatus.{running, is_running}
use evk.ThreadPool.{get_next_loop, empty}
use evk.Assoc.{erase, assign}
use evk.Channel.{enable_read, disable_all}
use evk.Buffer.Tests.{zeros}
use evk.TcpConn.{
  disconnecting, queues_shutdown, shutdown, Conn, updates_channel, calls_close, connecting,
  connected, disconnected, on_connect_established, handle_close,
}
use evk.TcpConn.Tests.{busy}
use evk.TcpServer.{handle_new_connection}
use evk.TcpServer.Life.{
  Kind, destruct, destroy, enters, World, establish, remove, run_job, accept, settle, removals,
  of_task, hangs_up, handle, Reach, here, later, accepts, runs, handles,
}
use evk.TcpConn.Lifecycle.{enter, shuts}
use evk.TcpServer.Life.Destructor.{server_destructor_fails}
use evk.TcpServer.Life.Safety.{jobs_run, hang_up_again}

abbrev fresh : Conn
fresh = record busy { status = connecting; events = 0 }

abbrev nobody : Conn
nobody = record busy { status = disconnected; events = 0 }

abbrev quiet : World
quiet = record {
  server = record {
    status = running;
    loop = 9;
    thread_pool = record {
      status = running;
      base_loop = 9;
      num_thread = 2;
      next = 0;
      loops = 10 ∷ 11 ∷ [];
    };
    listening = true;
    next_conn_id = 1;
    connections = [];
  };
  conns = λ id. nobody;
  loops = λ id. 0;
  jobs = [];
}

-- The connection is taken on, established, and closed.
abbrev joined : World
joined = record quiet {
  server = record (quiet.server) {
    thread_pool = record (quiet.server.thread_pool) { next = 1 };
    next_conn_id = 2;
    connections = (1, 10) ∷ [];
  };
  conns = λ id. if id == 1 then fresh else nobody;
  loops = λ id. if id == 1 then 10 else 0;
  jobs = (establish, 1) ∷ [];
}

joined-accept : accept fresh quiet ≡ some joined
unfolding accept handle_new_connection get_next_loop is_running empty assign erase of_task
joined-accept = refl

joined-Reach : Reach joined
joined-Reach = later (here refl refl (λ id. refl)) (accepts fresh refl joined-accept)

jobs_run_example :
    (w : World) × (run_job establish 1 (record joined { jobs = [] }) ≡ some w) × Reach w
jobs_run_example = jobs_run establish 1 [] [] joined-Reach refl

abbrev reading : Conn
reading = record busy { status = connected; events = 3 }

abbrev talking : World
talking = record joined {
  conns = λ id. if id == 1 then reading else if id == 1 then fresh else nobody;
  jobs = [];
}

talking-run : run_job establish 1 (record joined { jobs = [] }) ≡ some talking
unfolding run_job on_connect_established settle removals enable_read
talking-run = refl

talking-Reach : Reach talking
talking-Reach = later joined-Reach (runs establish 1 [] [] refl talking-run)

abbrev over : World
over = record joined {
  conns = λ id.
      if id == 1 then record reading { status = disconnected; events = 0 } else talking.conns id;
  jobs = (remove, 1) ∷ [];
}

over-Reach : Reach over
unfolding settle removals handle handle_close disable_all
over-Reach = later talking-Reach (
    handles 1 hangs_up
      (record reading { status = disconnected; events = 0 }, updates_channel 0 ∷ calls_close ∷ [])
      refl refl refl)

hang_up_again_example : ((over.conns 1).events ≡ 0) × (handle hangs_up (over.conns 1) ≡ none)
hang_up_again_example = hang_up_again 1 [] [] over-Reach refl

-- The user shuts it down, from another thread.
abbrev closing : World
closing = record joined {
  conns = λ id. if id == 1 then record reading { status = disconnecting } else talking.conns id;
  jobs = [];
}

closing-Reach : Reach closing
unfolding settle removals handle enter shutdown
closing-Reach = later talking-Reach (
    handles 1 (enters (shuts false))
      (record reading { status = disconnecting }, queues_shutdown ∷ []) refl refl refl)

server_destructor_fails_example :
    (before : List (Kind × ℕ)) × (behind : List (Kind × ℕ)) × ((destruct closing).jobs
      ≡ before ++ (destroy, 1) ∷ behind)
    × (run_job destroy 1 (record (destruct closing) { jobs = before ++ behind }) ≡ none)
server_destructor_fails_example = server_destructor_fails 1 closing-Reach refl
