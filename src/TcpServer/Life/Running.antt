-- ===== src/TcpServer/Life/Running.antt =====
-- The run of each kind of job.
use evk.Prelude.{
  ℕ, ◌≡◌, refl, sym, ap, subst, ◌∙◌, List, [], ◌∷◌, ◌++◌, Option, some, none, true, false, ◌&&◌,
  ◌==◌, eq→==, arith,
}
use mathlib.Core.Bool.{true≢false}
use mathlib.Core.Option.{none-ne-some}
use evk.Assoc.{find, erase, is_absent}
use evk.Assoc.Laws.{find-erase}
use evk.Channel.{enable_read, is_none_event}
use evk.Channel.Events.{events_lem}
use evk.TcpConn.{
  Conn, connected, is_disconnected, Request, updates_channel, calls_connection, removes_channel,
  on_connect_established, on_connect_destroyed,
}
use evk.TcpServer.Life.{World, Kind, establish, remove, destroy, removals, of_task, settle, run_job}
use evk.TcpServer.Life.Jobs.{
  jobs_of, Phase, unborn, made, alive, closed, leaving, gone, due, is_due,
}
use evk.TcpServer.Life.Phases.{Lives, Inv, Same, put, others_jobs, own_jobs}
use evk.TcpServer.Connections.{remove_lem}

abbrev pub before_job : Kind → Phase
before_job establish = made
before_job remove = closed
before_job destroy = leaving

-- Which phase a waiting job tells of.
pub phase_of : (p : Phase) (k : Kind) → due p ≡ some k → p ≡ before_job k
phase_of made establish h = refl
phase_of made remove h = cc
phase_of made destroy h = cc
phase_of closed establish h = cc
phase_of closed remove h = refl
phase_of closed destroy h = cc
phase_of leaving establish h = cc
phase_of leaving remove h = cc
phase_of leaving destroy h = refl
phase_of unborn k h = absurd (none-ne-some k h)
phase_of alive k h = absurd (none-ne-some k h)
phase_of gone k h = absurd (none-ne-some k h)

pub present : (o : Option ℕ) → is_absent o ≡ false → (l : ℕ) × (o ≡ some l)
unfolding is_absent
present none h = absurd (true≢false h)
present (some l) h = (l, refl)

destroyed_lem :
    (c : Conn)
    → (is_disconnected c.status && (c.events == 0)) ≡ true
    → on_connect_destroyed c ≡ some (c, removes_channel ∷ [])
unfolding on_connect_destroyed is_none_event
destroyed_lem c h = ground (arith, h)

-- A job is taken out of the world `w`, in which each connection is in a phase.
module _ (w : World) (i : Inv w) (id : ℕ) (before behind : List (Kind × ℕ)) where
  abbrev pub taken : World
  taken = record w { jobs = before ++ behind }

  abbrev pub Runs : Kind → Type 0
  Runs k = (w' : World) × (run_job k id taken ≡ some w') × Inv w'

  settled_others :
      (k : Kind) (x : Conn × List Request)
      → w.jobs ≡ before ++ (k, id) ∷ behind
      → removals id x.1 ≡ []
      → (y : ℕ) → (y == id) ≡ false
      → Same w (settle id x taken) y
  unfolding settle
  settled_others k x split none_asked y apart = record {
    conn = rw apart refl;
    jobs =
        others_jobs k id before behind (removals id x.1) y apart (rw none_asked refl)
        ∙ ap (jobs_of y) (sym split);
    kept = refl;
    age = refl;
  }

  established-Runs : w.jobs ≡ before ++ (establish, id) ∷ behind → Lives made id w → Runs establish
  unfolding run_job on_connect_established settle
  established-Runs split l =
      let c : Conn = record (w.conns id) {
        status = connected;
        events = enable_read (w.conns id).events;
      } in
      let rs : List Request =
        updates_channel (enable_read (w.conns id).events) ∷ calls_connection ∷ [] in
      let quiet : removals id rs ≡ [] = unfold removals in refl in
      let (_, jobs) =
        own_jobs establish id before behind (removals id rs) made
          (ap (λ js. is_due (due made) (jobs_of id js)) (sym split) ∙ l.waits) in
      (
        settle id (c, rs) taken,
        rw (l.conn) refl,
        put w (settle id (c, rs) taken) id alive i
            (record {
              waits = rw (jobs, quiet) refl;
              kept = l.kept;
              conn = rw (eq→== id id refl) ((events_lem (w.conns id).events).0);
              age = l.age;
            })
            (settled_others establish (c, rs) split quiet),
      )

  closed-Runs : w.jobs ≡ before ++ (remove, id) ∷ behind → Lives closed id w → Runs remove
  unfolding run_job of_task
  closed-Runs split l =
      let (x, there) = present (find id w.server.connections) l.kept in
      let new : List (Kind × ℕ) = (destroy, id) ∷ [] in
      let w' : World = record taken {
        server = record (w.server) { connections = erase id w.server.connections };
        jobs = (before ++ behind) ++ new;
      } in
      let (_, jobs) =
        own_jobs remove id before behind new closed
          (ap (λ js. is_due (due closed) (jobs_of id js)) (sym split) ∙ l.waits) in
      (
        w',
        rw (remove_lem id (w.loops id) x w.server there) refl,
        put w w' id leaving i
            (record {
              waits = rw jobs (rw (eq→== id id refl) refl);
              kept =
                  rw (find-erase id id w.server.connections)
                    (rw (eq→== id id refl) (unfold is_absent in refl));
              conn = l.conn;
              age = l.age;
            })
            (λ y apart. record {
              conn = refl;
              jobs =
                  others_jobs remove id before behind new y apart (rw apart refl)
                  ∙ ap (jobs_of y) (sym split);
              kept = find-erase id y w.server.connections ∙ rw apart refl;
              age = refl;
            }),
      )

  leaving-Runs : w.jobs ≡ before ++ (destroy, id) ∷ behind → Lives leaving id w → Runs destroy
  unfolding run_job settle
  leaving-Runs split l =
      let c : Conn = w.conns id in
      let rs : List Request = removes_channel ∷ [] in
      let quiet : removals id rs ≡ [] = unfold removals in refl in
      let (_, jobs) =
        own_jobs destroy id before behind (removals id rs) leaving
          (ap (λ js. is_due (due leaving) (jobs_of id js)) (sym split) ∙ l.waits) in
      (
        settle id (c, rs) taken,
        rw (destroyed_lem c l.conn) refl,
        put w (settle id (c, rs) taken) id gone i
            (record {
              waits = rw (jobs, quiet) refl;
              kept = l.kept;
              conn = rw (eq→== id id refl) l.conn;
              age = l.age;
            })
            (settled_others destroy (c, rs) split quiet),
      )

  -- Whatever job waits, it runs: no assert fails.
  pub any_Runs : (k : Kind) → w.jobs ≡ before ++ (k, id) ∷ behind → Runs k
  any_Runs k split =
      let (p, l) = i id in
      let (d, _) =
        own_jobs k id before behind [] p
          (ap (λ js. is_due (due p) (jobs_of id js)) (sym split) ∙ l.waits) in
      by_kind k split (subst (λ q. Lives q id w) (phase_of p k d) l)
    where
      by_kind :
          (k : Kind) → w.jobs ≡ before ++ (k, id) ∷ behind → Lives (before_job k) id w → Runs k
      by_kind establish split l = established-Runs split l
      by_kind remove split l = closed-Runs split l
      by_kind destroy split l = leaving-Runs split l
