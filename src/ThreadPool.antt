-- ===== src/ThreadPool.antt =====
-- evk/event_loop_thread_pool.h and .cc: the loops that a server hands its connections to, in turn.
-- A loop is a number, and `none` is a failed assert or an index out of range. The caller is on the
-- thread of the base loop. What the threads' StartLoop returns is an argument.
pub mod Turns
pub mod Tests
use evk.Prelude.{
  ℕ, zero, suc, ◌+◌, ◌%◌, List, [], ◌∷◌, ◌++◌, Option, some, none, ◌>>=◌, ◌>>◌, require, length,
  get_elem?, leb, if◌then◌else◌, ◌==◌, Bool, not,
}
use evk.ServerStatus.{Status, null, running, stopped, is_running}

pub record Pool : Type 0 where
  pub status : Status
  pub base_loop : ℕ
  pub num_thread : ℕ
  pub next : ℕ
  pub loops : List ℕ

unfoldable pub init : ℕ → Pool
init base = record { status = null; base_loop = base; num_thread = 0; next = 0; loops = [] }

unfoldable pub set_thread_num : ℕ → Pool → Pool
set_thread_num n p = record p { num_thread = n }

-- The loop of `Start`, from thread `i` on, with `n` threads left.
unfoldable pub start_threads : (ℕ → ℕ) → ℕ → ℕ → List ℕ
start_threads start_loop zero i = []
start_threads start_loop (suc n) i = start_loop i ∷ start_threads start_loop n (suc i)

unfoldable pub start : (ℕ → ℕ) → Pool → Pool
start start_loop p = record p {
  status = running;
  loops = p.loops ++ start_threads start_loop p.num_thread 0;
}

unfoldable pub empty : List ℕ → Bool
empty loops = length loops == 0

unfoldable pub get_next_loop : Pool → Option (ℕ × Pool)
get_next_loop p = do
  require (is_running p.status)
  if not (empty p.loops)
      then (do
        loop ← get_elem? p.loops p.next
        let next = p.next + 1
        some (loop, record p { next = if leb (length p.loops) next then 0 else next }))
      else some (p.base_loop, p)

unfoldable pub get_next_loop_with_hash : ℕ → Pool → Option ℕ
get_next_loop_with_hash hash_code p = do
  require (is_running p.status)
  if not (empty p.loops) then get_elem? p.loops (hash_code % length p.loops) else some p.base_loop

unfoldable pub get_all_loops : Pool → Option (List ℕ)
get_all_loops p = do
  require (is_running p.status)
  some (if empty p.loops then p.base_loop ∷ [] else p.loops)
