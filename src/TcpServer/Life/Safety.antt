-- ===== src/TcpServer/Life/Safety.antt =====
-- The asserts on the way of a connection, in any order of what the loops run.
use evk.Prelude.{
  ℕ, ◌≡◌, refl, sym, ap, subst, ◌∙◌, List, [], ◌∷◌, ◌++◌, some, none, true, false, ◌&&◌, ◌==◌,
  arith,
}
use mathlib.Core.Option.{some-injective}
use evk.Buffer.{Allocator}
use evk.Assoc.{find, is_absent}
use evk.Channel.{is_reading}
use evk.TcpConn.{Conn, is_disconnected, handle_close}
use evk.TcpServer.Life.{
  World, Kind, remove, run_job, is_up, hangs_up, handle, accepts, runs, handles, Reach, here, later,
}
use evk.TcpServer.Life.Handlers.{handle-Outcome}
use evk.TcpServer.Life.Jobs.{jobs_of, unborn, due, is_due, suits}
use evk.TcpServer.Life.Phases.{Inv, own_jobs}
use evk.TcpServer.Life.Running.{any_Runs, phase_of}
use evk.TcpServer.Life.Moves.{alive_conn, accept_lem, accept-Inv, settle-Inv}

pub alive_reads :
    (w : World) (id : ℕ) → Inv w → is_up (w.conns id) ≡ true → is_reading (w.conns id).events ≡ true
alive_reads w id i up = ground (arith, (alive_conn w id i up).conn)

module _ ⦃h : Allocator⦄ where
  runs-Inv :
      (k : Kind) (id : ℕ) (before behind : List (Kind × ℕ)) (w w' : World)
      → Inv w
      → w.jobs ≡ before ++ (k, id) ∷ behind
      → run_job k id (record w { jobs = before ++ behind }) ≡ some w'
      → Inv w'
  runs-Inv k id before behind w w' i split run =
      let (v, ran, j) = any_Runs w i id before behind k split in
      subst Inv (some-injective v w' (sym ran ∙ run)) j

  here-Inv :
      (w : World)
      → w.server.connections ≡ []
      → w.jobs ≡ []
      → ((id : ℕ) → is_up (w.conns id) ≡ false)
      → Inv w
  here-Inv w empty idle down id = (
    unborn,
    record {
      waits = rw idle refl;
      kept = rw empty (unfold find is_absent in refl);
      conn = rw (down id) refl;
      age = ground arith;
    },
  )

  pub Reach-Inv : {w : World} → Reach w → Inv w
  Reach-Inv (here {w} empty idle down) = here-Inv w empty idle down
  Reach-Inv (later {w} {w'} r (accepts c fresh e)) =
      let (l, pool, same) = accept_lem c w w' e in
      subst Inv same (accept-Inv c l pool w fresh (Reach-Inv r))
  Reach-Inv (later {w} {w'} r (runs k id before behind split run)) =
      runs-Inv k id before behind w w' (Reach-Inv r) split run
  Reach-Inv (later {w} r (handles id e x is up run)) =
      settle-Inv w id x.0 x.1 (Reach-Inv r) up
        (handle-Outcome id e (w.conns id) x.0 x.1 is up (alive_reads w id (Reach-Inv r) up) run)

  -- In every state that is reached, each job that waits, at any place in the list, runs, and leads to a
  -- state that is reached: no assert fails in OnConnectEstablished, RemoveConnectionInLoop,
  -- OnConnectDestroyed or the Remove of the channel.
  pub jobs_run :
      {w : World} (k : Kind) (id : ℕ) (before behind : List (Kind × ℕ))
      → Reach w
      → w.jobs ≡ before ++ (k, id) ∷ behind
      → (w' : World) × (run_job k id (record w { jobs = before ++ behind }) ≡ some w') × Reach w'
  jobs_run {w} k id before behind r split =
      let (w', run, _) = any_Runs w (Reach-Inv r) id before behind k split in
      (w', run, later r (runs k id before behind split run))

  closed_mask :
      (c : Conn)
      → (is_disconnected c.status && (c.events == 0)) ≡ true
      → (c.events ≡ 0) × (handle hangs_up c ≡ none)
  unfolding handle handle_close
  closed_mask c q = (ground (arith, q), ground (arith, q))

  -- As long as the removal of a connection waits in the server's loop, its channel has an empty mask;
  -- and a hang-up, which epoll reports whatever the mask, fails in the assert of HandleClose.
  pub hang_up_again :
      {w : World} (id : ℕ) (before behind : List (Kind × ℕ))
      → Reach w
      → w.jobs ≡ before ++ (remove, id) ∷ behind
      → ((w.conns id).events ≡ 0) × (handle hangs_up (w.conns id) ≡ none)
  hang_up_again {w} id before behind r split =
      let (p, l) = Reach-Inv r id in
      let (d, _) =
        own_jobs remove id before behind [] p
          (ap (λ js. is_due (due p) (jobs_of id js)) (sym split) ∙ l.waits) in
      closed_mask (w.conns id)
        (subst (λ q. suits q (w.conns id) ≡ true) (phase_of p remove d) l.conn)
