-- ===== src/TcpServer/Life/Destructor.antt =====
-- The destructor of a server while connections live.
use evk.Prelude.{
  ℕ, ◌≡◌, refl, sym, ap, ◌∙◌, List, [], ◌∷◌, ◌++◌, append_assoc, some, none, true, ◌==◌, arith,
  Bool-cases, inl, inr,
}
use mathlib.Core.Bool.{false≢true}
use mathlib.Core.Option.{none-ne-some}
use evk.Buffer.{Allocator}
use evk.Assoc.{find}
use evk.Channel.{is_reading}
use evk.TcpConn.{Status, disconnecting, is_disconnecting}
use evk.TcpConn.Lifecycle.{destroyed_disconnecting}
use evk.TcpServer.{destroy_all}
use evk.TcpServer.Life.{World, Kind, destroy, run_job, destruct, of_task, of_tasks, is_up, Reach}
use evk.TcpServer.Life.Moves.{alive_conn}
use evk.TcpServer.Life.Running.{present}
use evk.TcpServer.Life.Safety.{Reach-Inv, alive_reads}

-- The job for a connection of the map stands among those of the destructor.
abbrev Stands : ℕ → List (Kind × ℕ) → Type 0
Stands id js =
    (before : List (Kind × ℕ)) × (behind : List (Kind × ℕ)) × (js
      ≡ before ++ (destroy, id) ∷ behind)

task-Stands :
    (id l : ℕ) (m : List (ℕ × ℕ)) → find id m ≡ some l → Stands id (of_tasks (destroy_all m))
unfolding find of_tasks destroy_all of_task
task-Stands id l [] h = absurd (none-ne-some l h)
task-Stands id l ((k, x) ∷ m) h = elim (Bool-cases (id == k)) [
  | inl same ↦ (
    [],
    of_tasks (destroy_all m),
    ap (λ n. (destroy, n) ∷ of_tasks (destroy_all m)) (ground (arith, same)),
  )
  | inr apart ↦
      let (before, behind, e) = task-Stands id l m (rw apart at h) in
      ((destroy, k) ∷ before, behind, ap (λ js. (destroy, k) ∷ js) e)
]

Stands-behind : (id : ℕ) (js ks : List (Kind × ℕ)) → Stands id ks → Stands id (js ++ ks)
Stands-behind id js ks (before, behind, e) = (
  js ++ before,
  behind,
  ap (λ xs. js ++ xs) e ∙ sym (append_assoc js before ((destroy, id) ∷ behind)),
)

the_status : (s : Status) → is_disconnecting s ≡ true → s ≡ disconnecting
the_status disconnecting h = refl
the_status _ h = absurd (false≢true h)

module _ ⦃h : Allocator⦄ where
  refused :
      (w : World) (id : ℕ)
      → is_reading (w.conns id).events ≡ true
      → is_disconnecting (w.conns id).status ≡ true
      → run_job destroy id w ≡ none
  unfolding run_job
  refused w id on s =
      rw (destroyed_disconnecting (w.conns id) on (the_status (w.conns id).status s)) refl

  -- In every state that is reached: where Shutdown has been called on a connection that the peer has not
  -- closed yet, the connection is in the map, so that the destructor of the server hands its
  -- OnConnectDestroyed to its loop; and there it fails, in the assert of the channel's Remove, since the
  -- channel still reads.
  pub server_destructor_fails :
      {w : World} (id : ℕ)
      → Reach w
      → is_disconnecting (w.conns id).status ≡ true
      → (before : List (Kind × ℕ)) × (behind : List (Kind × ℕ)) × ((destruct w).jobs
          ≡ before ++ (destroy, id) ∷ behind)
        × (run_job destroy id (record (destruct w) { jobs = before ++ behind }) ≡ none)
  unfolding destruct
  server_destructor_fails {w} id r s =
      let i = Reach-Inv r in
      let up : is_up (w.conns id) ≡ true = ground (arith, s) in
      let (l, there) = present (find id w.server.connections) (alive_conn w id i up).kept in
      let (before, behind, e) =
        Stands-behind id w.jobs (of_tasks (destroy_all w.server.connections))
          (task-Stands id l w.server.connections there) in
      (
        before,
        behind,
        e,
        refused (record (destruct w) { jobs = before ++ behind }) id (alive_reads w id i up) s,
      )
