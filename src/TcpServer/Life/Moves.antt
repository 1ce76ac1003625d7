-- ===== src/TcpServer/Life/Moves.antt =====
-- A new connection, and what a handler makes of one.
use evk.Prelude.{
  require, ◌^◌, ◌>>◌, ℕ, ◌+◌, ◌≡◌, refl, sym, ap, subst, ◌∙◌, List, [], ◌∷◌, ◌++◌, append-nil,
  Option, some, none, ◌>>=◌, true, false, ◌||◌, ◌==◌, eq→==, ltb, arith, Bool-cases, inl, inr,
}
use mathlib.Core.Bool.{true≢false}
use mathlib.Core.Option.{some-injective, none-ne-some}
use evk.Assoc.{assign, is_absent}
use evk.Assoc.Laws.{find-assign}
use evk.ThreadPool.{Pool, get_next_loop}
use evk.TcpConn.{Conn, connecting, Request}
use evk.TcpServer.{Server, Task, establishes, handle_new_connection}
use evk.TcpServer.Life.{World, Kind, establish, set_at, removals, of_task, settle, accept, is_up}
use evk.TcpServer.Life.Handlers.{Outcome}
use evk.TcpServer.Life.Jobs.{
  jobs_of, jobs_of-append, Phase, unborn, made, alive, closed, leaving, gone, due, is_due, suits,
}
use evk.TcpServer.Life.Phases.{Lives, Inv, Same, is_unborn, the_same, put, no_jobs}

-- The world behind a new connection.
abbrev taken_on : Conn → ℕ → Pool → World → World
taken_on c l pool w = record {
  server = record (w.server) {
    thread_pool = pool;
    next_conn_id = w.server.next_conn_id + 1;
    connections = assign w.server.next_conn_id l w.server.connections;
  };
  conns = set_at w.server.next_conn_id c w.conns;
  loops = set_at w.server.next_conn_id l w.loops;
  jobs = w.jobs ++ (establish, w.server.next_conn_id) ∷ [];
}

-- HandleNewConnection and what follows it, of what GetNextLoop returns.
abbrev named : World → ℕ × Pool → Option (Server × ℕ × Task)
named w x = do
  require (ltb (w.server.next_conn_id + 1) (2 ^ 31))
  some (
      (
        record (w.server) {
          thread_pool = x.1;
          next_conn_id = w.server.next_conn_id + 1;
          connections = assign w.server.next_conn_id x.0 w.server.connections;
        },
        x.0,
        establishes w.server.next_conn_id,
      ))

abbrev joined : Conn → World → Server × ℕ × Task → Option World
joined c w x = some (record {
  server = x.0;
  conns = set_at w.server.next_conn_id c w.conns;
  loops = set_at w.server.next_conn_id x.1 w.loops;
  jobs = w.jobs ++ of_task x.2;
})

pub accept_lem :
    (c : Conn) (w w' : World)
    → accept c w ≡ some w'
    → (l : ℕ) × (pool : Pool) × (taken_on c l pool w ≡ w')
unfolding accept handle_new_connection of_task
accept_lem c w w' e = go (get_next_loop w.server.thread_pool) e
  where
    go :
        (o : Option (ℕ × Pool))
        → ((o >>= named w) >>= joined c w) ≡ some w'
        → (l : ℕ) × (pool : Pool) × (taken_on c l pool w ≡ w')
    go none q = absurd (none-ne-some w' q)
    go (some (l, pool)) q = elim (Bool-cases (ltb (w.server.next_conn_id + 1) (2 ^ 31))) [
      | inl fits ↦ (l, pool, some-injective _ _ (rw fits at q))
      | inr over ↦ absurd (none-ne-some w' (rw over at q))
    ]

irreflexive : (n : ℕ) → (ltb n n || false) ≡ false
irreflexive n = ground arith

next_unborn : (p : Phase) (n : ℕ) → (ltb n n || is_unborn p) ≡ true → p ≡ unborn
next_unborn unborn n h = refl
next_unborn p n h = absurd (true≢false (sym h ∙ irreflexive n))

pub accept-Inv :
    (c : Conn) (l : ℕ) (pool : Pool) (w : World)
    → c.status ≡ connecting
    → Inv w
    → Inv (taken_on c l pool w)
accept-Inv c l pool w fresh i x = elim (Bool-cases (x == w.server.next_conn_id)) [
  | inl same ↦ (
    made,
    subst (λ y. Lives made y (taken_on c l pool w)) (sym (the_same x w.server.next_conn_id same))
        new,
  )
  | inr apart ↦
      let (p, k) = i x in
      (
        p,
        record {
          waits =
              rw
                (
                  jobs_of-append x w.jobs ((establish, w.server.next_conn_id) ∷ []),
                  apart,
                  append-nil (jobs_of x w.jobs),
                )
                k.waits;
          kept = rw (find-assign w.server.next_conn_id l x w.server.connections, apart) k.kept;
          conn = rw apart k.conn;
          age = ground (arith, k.age);
        },
      )
]
  where
    n : ℕ
    n = w.server.next_conn_id

    new : Lives made n (taken_on c l pool w)
    new =
        let (p, k) = i n in
        let none_waits : jobs_of n w.jobs ≡ [] =
          no_jobs (jobs_of n w.jobs)
            (ap (λ q. is_due (due q) (jobs_of n w.jobs)) (sym (next_unborn p n k.age)) ∙ k.waits) in
        record {
          waits =
              rw (jobs_of-append n w.jobs ((establish, n) ∷ []), none_waits, eq→== n n refl) refl;
          kept =
              rw (find-assign n l n w.server.connections, eq→== n n refl)
                (unfold is_absent in refl);
          conn = rw (eq→== n n refl) (rw fresh refl);
          age = ground arith;
        }

only_alive : (p : Phase) (c : Conn) → suits p c ≡ true → is_up c ≡ true → p ≡ alive
only_alive unborn c h up = ground (arith, h, up)
only_alive made c h up = ground (arith, h, up)
only_alive alive c h up = refl
only_alive closed c h up = ground (arith, h, up)
only_alive leaving c h up = ground (arith, h, up)
only_alive gone c h up = ground (arith, h, up)

-- A handler keeps the connection alive or closes it.
pub alive_conn : (w : World) (id : ℕ) → Inv w → is_up (w.conns id) ≡ true → Lives alive id w
alive_conn w id i up =
    subst (λ q. Lives q id w) (only_alive (i id).0 (w.conns id) ((i id).1).conn up) (i id).1

pub settle-Inv :
    (w : World) (id : ℕ) (c : Conn) (rs : List Request)
    → Inv w
    → is_up (w.conns id) ≡ true
    → Outcome id c rs
    → Inv (settle id (c, rs) w)
unfolding settle
settle-Inv w id c rs i up o = elim o [
  | inl stays ↦
      put w w' id alive i
        (record {
          waits = own alive (removals id rs) refl ∙ rw (stays.2) refl;
          kept = l.kept;
          conn = rw (eq→== id id refl) (rw (stays.0) (stays.1));
          age = l.age;
        })
        (λ y apart. other y apart (rw (stays.2) refl))
  | inr ends ↦
      put w w' id closed i
        (record {
          waits = own closed (removals id rs) refl ∙ rw (ends.2) (rw (eq→== id id refl) refl);
          kept = l.kept;
          conn = rw (eq→== id id refl) (rw (ends.0, ends.1) refl);
          age = l.age;
        })
        (λ y apart. other y apart (rw (ends.2) (rw apart refl)))
]
  where
    w' : World
    w' = record w { conns = set_at id c w.conns; jobs = w.jobs ++ removals id rs }

    l : Lives alive id w
    l = alive_conn w id i up

    own :
        (q : Phase) (new : List (Kind × ℕ))
        → new ≡ removals id rs
        → is_due (due q) (jobs_of id (w.jobs ++ removals id rs))
          ≡ is_due (due q) (jobs_of id (removals id rs))
    own q new e =
        rw (jobs_of-append id w.jobs (removals id rs), no_jobs (jobs_of id w.jobs) l.waits) refl

    other : (y : ℕ) → (y == id) ≡ false → jobs_of y (removals id rs) ≡ [] → Same w w' y
    other y apart none_new = record {
      conn = rw apart refl;
      jobs =
          jobs_of-append y w.jobs (removals id rs) ∙ rw (none_new) (append-nil (jobs_of y w.jobs));
      kept = refl;
      age = refl;
    }
