-- ===== src/ThreadPool/Tests.antt =====
-- The theorems on the pool, at three loops.
use evk.Prelude.{ℕ, ◌+◌, ◌%◌, ◌≡◌, refl, arith, List, [], ◌∷◌, some, true}
use evk.ServerStatus.{running, is_running}
use evk.ThreadPool.{Pool}
use evk.ThreadPool.Turns.{run_next, turns, run_next-turns}

-- The second loop is next.
abbrev three : Pool
three = record {
  status = running;
  base_loop = 9;
  num_thread = 3;
  next = 1;
  loops = 10 ∷ 11 ∷ 12 ∷ [];
}

three-running : is_running three.status ≡ true
unfolding is_running
three-running = refl

turns-three : turns 5 1 (10 ∷ 11 ∷ 12 ∷ []) ≡ some (11 ∷ 12 ∷ 10 ∷ 11 ∷ 12 ∷ [])
unfolding turns
turns-three = refl

run_next-turns_example :
    (ls : List ℕ) × (run_next 5 three ≡ some (ls, record three { next = (1 + 5) % 3 }))
    × (turns 5 1 (10 ∷ 11 ∷ 12 ∷ []) ≡ some ls)
run_next-turns_example = run_next-turns 5 three three-running (omega arith)
