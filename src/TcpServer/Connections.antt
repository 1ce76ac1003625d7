-- ===== src/TcpServer/Connections.antt =====
-- Connections come and go: each has a name of its own and a loop in its turn.
use evk.Prelude.{
  ltb, leb, lt→ltb, ◌||◌, ◌-◌, ◌^◌, get_elem?, Bool-cases, inl, inr, ℕ, zero, suc, ◌+◌, ◌<◌, ◌≡◌,
  refl, ap, ◌∙◌, List, [], ◌∷◌, Option, some, none, ◌>>=◌, true, arith, length, ◌==◌, if◌then◌else◌,
  subst, >>=-eq-some,
}
use mathlib.Core.Option.{some-injective}
use evk.Assoc.{find, erase, assign}
use evk.Assoc.Laws.{find-assign}
use evk.ServerStatus.{is_running}
use evk.ThreadPool.{Pool, get_next_loop}
use evk.ThreadPool.Turns.{run_next, turns, run_next-turns}
use evk.TcpServer.{
  Server, Task, establishes, destroys, handle_new_connection, remove_connection_in_loop,
}

-- Connections that come one behind the other: the loop of each, oldest first.
unfoldable pub accept_many : ℕ → Server → Option (List (ℕ × Task) × Server)
accept_many zero s = some ([], s)
accept_many (suc k) s = do
  (s', io_loop, task) ← handle_new_connection s
  (tasks, s'') ← accept_many k s'
  some ((io_loop, task) ∷ tasks, s'')

-- The tasks for the loops `ls`, with names from `id` on.
unfoldable pub established : ℕ → List ℕ → List (ℕ × Task)
established id [] = []
established id (l ∷ ls) = (l, establishes id) ∷ established (id + 1) ls

-- What stands at the name `id`, where `o` stood, behind `k` names from `n` on with the loops `ls`.
abbrev pub new_at : ℕ → ℕ → ℕ → List ℕ → Option ℕ → Option ℕ
new_at id n k ls o = if ltb id n || leb (n + k) id then o else get_elem? ls (id - n)

later_at :
    (id n l : ℕ) (ls : List ℕ) → n < id → get_elem? (l ∷ ls) (id - n) ≡ get_elem? ls (id - (n + 1))
later_at id n l ls h =
    let e : id - n ≡ suc (id - (n + 1)) = omega arith in ap (get_elem? (l ∷ ls)) e

first_at : (n l : ℕ) (ls : List ℕ) → get_elem? (l ∷ ls) (n - n) ≡ some l
first_at n l ls = let e : n - n ≡ 0 = omega arith in ap (get_elem? (l ∷ ls)) e

new_at-first :
    (id n k l : ℕ) (ls : List ℕ) (o : Option ℕ)
    → id ≡ n
    → new_at id (n + 1) k ls (if id == n then some l else o) ≡ new_at id n (suc k) (l ∷ ls) o
new_at-first id n k l ls o e = rw e (ground (arith, first_at n l ls))

new_at-later :
    (id n k l : ℕ) (ls : List ℕ) (o : Option ℕ)
    → n < id
    → new_at id (n + 1) k ls (if id == n then some l else o) ≡ new_at id n (suc k) (l ∷ ls) o
new_at-later id n k l ls o h = ground (arith, h, later_at id n l ls h)

new_at-suc :
    (id n k l : ℕ) (ls : List ℕ) (o : Option ℕ)
    → new_at id (n + 1) k ls (if id == n then some l else o) ≡ new_at id n (suc k) (l ∷ ls) o
new_at-suc id n k l ls o = elim (Bool-cases (ltb id n)) [
  | inl below ↦ ground (arith, below)
  | inr above ↦ elim (Bool-cases (id == n)) [
    | inl same ↦ new_at-first id n k l ls o (ground (arith, same))
    | inr apart ↦ new_at-later id n k l ls o (ground (arith, above, apart))
  ]
]

-- What `k` connections do, when the pool's turns are `ls` and leave it as `pool`.
record Accepts (k : ℕ) (s : Server) (ls : List ℕ) (pool : Pool) : Type 0 where
  behind : Server
  run : accept_many k s ≡ some (established s.next_conn_id ls, behind)
  turn : behind.thread_pool ≡ pool
  next : behind.next_conn_id ≡ s.next_conn_id + k
  found :
      (id : ℕ) → find id behind.connections ≡ new_at id s.next_conn_id k ls (find id s.connections)

-- The server behind one connection, on the loop `l`.
abbrev accepted : ℕ → Pool → Server → Server
accepted l pool s = record s {
  thread_pool = pool;
  next_conn_id = s.next_conn_id + 1;
  connections = assign s.next_conn_id l s.connections;
}

Accepts-suc :
    (k : ℕ) (s s' : Server) (l : ℕ) (ls : List ℕ) (p : Pool)
    → s.next_conn_id + 1 < 2 ^ 31
    → get_next_loop s.thread_pool ≡ some (l, p)
    → accept_many k (accepted l p s) ≡ some (established (s.next_conn_id + 1) ls, s')
    → accept_many (suc k) s ≡ some (established s.next_conn_id (l ∷ ls), s')
unfolding accept_many handle_new_connection established
Accepts-suc k s s' l ls p h g run = rw (g, lt→ltb (s.next_conn_id + 1) (2 ^ 31) h, run) refl

accept_follows :
    (k : ℕ) (s : Server) (ls : List ℕ) (pool : Pool)
    → s.next_conn_id + k < 2 ^ 31
    → run_next k s.thread_pool ≡ some (ls, pool)
    → Accepts k s ls pool
unfolding run_next
accept_follows zero s ls pool h e =
    subst (λ (q : List ℕ × Pool). Accepts zero s q.0 q.1) (some-injective _ _ e)
      (record {
        behind = s;
        run = unfold accept_many established in refl;
        turn = refl;
        next = omega arith;
        found = λ id. ground arith;
      })
accept_follows (suc k) s ls pool h e =
    let ((l, p), g, r) = >>=-eq-some (get_next_loop s.thread_pool) _ e in
    let ((ls', p'), g', r') = >>=-eq-some (run_next k p) _ r in
    let a : Accepts k (accepted l p s) ls' p' =
      accept_follows k (accepted l p s) ls' p' (omega (arith, h)) g' in
    subst (λ (q : List ℕ × Pool). Accepts (suc k) s q.0 q.1) (some-injective _ _ r')
      (record {
        behind = a.behind;
        run = Accepts-suc k s a.behind l ls' p (omega (arith, h)) g a.run;
        turn = a.turn;
        next = omega (arith, a.next);
        found = λ id.
            a.found id
            ∙ ap (new_at id (s.next_conn_id + 1) k ls')
                (find-assign s.next_conn_id l id s.connections)
            ∙ new_at-suc id s.next_conn_id k l ls' (find id s.connections);
      })

-- On a running server whose pool has loops, `k` connections are taken on, as long as next_conn_id_ does
-- not overflow: the tasks that establish them go to the loops in their turns, from the one that is next
-- on, round and round; their names are the numbers from next_conn_id_ on; and in the map each of these
-- names stands for its own connection, with the loop of its turn, and every other name for what it
-- stood for before.
pub accept_many-turns :
    (k : ℕ) (s : Server)
    → is_running s.thread_pool.status ≡ true
    → s.thread_pool.next < length s.thread_pool.loops
    → s.next_conn_id + k < 2 ^ 31
    → (ls : List ℕ) × (s' : Server) × (accept_many k s ≡ some (established s.next_conn_id ls, s'))
      × (turns k s.thread_pool.next s.thread_pool.loops ≡ some ls)
      × (s'.next_conn_id ≡ s.next_conn_id + k)
      × ((id : ℕ)
          → find id s'.connections ≡ (
              if ltb id s.next_conn_id || leb (s.next_conn_id + k) id
              then find id s.connections
              else get_elem? ls (id - s.next_conn_id)))
accept_many-turns k s up h fits =
    let (ls, run, t) = run_next-turns k s.thread_pool up h in
    let a : Accepts k s ls _ = accept_follows k s ls _ fits run in
    (ls, a.behind, a.run, t, a.next, a.found)

-- A connection that is in the map, with whatever loop, is erased.
pub remove_lem :
    (id l x : ℕ) (s : Server)
    → find id s.connections ≡ some x
    → remove_connection_in_loop id l s
      ≡ some (record s { connections = erase id s.connections }, l, destroys id)
unfolding remove_connection_in_loop
remove_lem id l x s e =
    ap
      (λ (o : Option ℕ). elim o [
        | none ↦ none
        | some y ↦ some (record s { connections = erase id s.connections }, l, destroys id)
      ])
      e
