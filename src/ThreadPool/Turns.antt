-- ===== src/ThreadPool/Turns.antt =====
-- GetNextLoop over many calls: the loops take turns.
use evk.Prelude.{
  ℕ, zero, suc, ◌+◌, ◌%◌, ◌<◌, ◌≡◌, refl, sym, ap, ◌∙◌, List, [], ◌∷◌, Option, some, ◌>>=◌, arith,
  length, get_elem?, leb, if◌then◌else◌, le→leb, lt→leb_false, true, lt→==_zero, length_zero, ◌⊎◌,
  inl, inr,
}
use native.Mathlib.Decide.{dec_le}
use native.Mathlib.Nat.{mod-lt, mod-add-mod, mod_self, mod-eq_of_lt}
use evk.ServerStatus.{is_running}
use evk.ThreadPool.{
  Pool, empty, init, set_thread_num, start, start_threads, get_next_loop, get_next_loop_with_hash,
}

-- The picks of `k` calls, and the pool behind them.
unfoldable pub run_next : ℕ → Pool → Option (List ℕ × Pool)
run_next zero p = some ([], p)
run_next (suc k) p = do (l, p') ← get_next_loop p; (ls, p'') ← run_next k p'; some (l ∷ ls, p'')

-- What the turns give: the loops from index `i` on, round and round.
unfoldable pub turns : ℕ → ℕ → List ℕ → Option (List ℕ)
turns zero i loops = some []
turns (suc k) i loops = do
  l ← get_elem? loops (i % length loops)
  ls ← turns k (i + 1) loops
  some (l ∷ ls)

within : (xs : List ℕ) (i : ℕ) → i < length xs → (x : ℕ) × (get_elem? xs i ≡ some x)
within [] i h = absurd (omega arith)
within (x ∷ xs) zero h = (x, refl)
within (x ∷ xs) (suc i) h = within xs i (omega arith)

-- The step of `next_`, at an index below `n`, is the step modulo `n`.
wrap_lem : (i n : ℕ) → 0 < n → (if leb n (i % n + 1) then 0 else (i % n + 1)) ≡ (i + 1) % n
wrap_lem i n pos = elim (dec_le n (i % n + 1)) [
  | yes h ↦
      rw (le→leb n (i % n + 1) h)
        (sym (mod_self n) ∙ ap (λ a. a % n) (omega (arith, mod-lt i pos)) ∙ mod-add-mod i n 1)
  | no h ↦
      let l : i % n + 1 < n = omega arith in
      rw (lt→leb_false n (i % n + 1) l) (sym (mod-eq_of_lt l) ∙ mod-add-mod i n 1)
]

next_step :
    (p : Pool) (i : ℕ)
    → is_running p.status ≡ true
    → 0 < length p.loops
    → p.next ≡ i % length p.loops
    → (l : ℕ) × (get_elem? p.loops (i % length p.loops) ≡ some l)
      × (get_next_loop p ≡ some (l, record p { next = (i + 1) % length p.loops }))
unfolding get_next_loop empty
next_step p i up pos e =
    let (l, at) = within p.loops (i % length p.loops) (mod-lt i pos) in
    (l, at, rw (up, lt→==_zero (length p.loops) pos, e, at, wrap_lem i (length p.loops) pos))

run_from :
    (k : ℕ) (p : Pool) (i : ℕ)
    → is_running p.status ≡ true
    → 0 < length p.loops
    → p.next ≡ i % length p.loops
    → (ls : List ℕ) × (run_next k p ≡ some (ls, record p { next = (i + k) % length p.loops }))
      × (turns k i p.loops ≡ some ls)
unfolding run_next turns
run_from zero p i up pos e = (
  [],
  ap (λ m. some ([], record p { next = m })) (e ∙ ap (λ a. a % length p.loops) (omega arith)),
  refl,
)
run_from (suc k) p i up pos e =
    let (l, at, run) = next_step p i up pos e in
    let p' : Pool = record p { next = (i + 1) % length p.loops } in
    let (ls, run', t) = run_from k p' (i + 1) up pos refl in
    (
      l ∷ ls,
      rw (run, run')
          (ap (λ m. some (l ∷ ls, record p { next = m % length p.loops })) (omega arith)),
      rw (at, t),
    )

-- On a running pool with loops, any number of calls returns them in turn from `next_` on, round and
-- round, without a failed assert or an index out of range; `next_` stays below their number.
pub run_next-turns :
    (k : ℕ) (p : Pool)
    → is_running p.status ≡ true
    → p.next < length p.loops
    → (ls : List ℕ) × (run_next k p ≡ some (ls, record p { next = (p.next + k) % length p.loops }))
      × (turns k p.next p.loops ≡ some ls)
run_next-turns k p up h = run_from k p p.next up (omega arith) (sym (mod-eq_of_lt h))

-- On a running pool GetNextLoopWithHash always returns: the base loop if there are no others, else
-- the loop whose index is the hash code modulo their number.
pub get_next_loop_with_hash-cases :
    (hash_code : ℕ) (p : Pool)
    → is_running p.status ≡ true
    → ((p.loops ≡ []) × (get_next_loop_with_hash hash_code p ≡ some p.base_loop))
      ⊎ ((l : ℕ) × (get_elem? p.loops (hash_code % length p.loops) ≡ some l)
          × (get_next_loop_with_hash hash_code p ≡ some l))
unfolding get_next_loop_with_hash empty
get_next_loop_with_hash-cases hash_code p up = elim (dec_le 1 (length p.loops)) [
  | yes pos ↦
      let (l, at) = within p.loops (hash_code % length p.loops) (mod-lt hash_code pos) in
      inr (l, at, rw (up, lt→==_zero (length p.loops) pos, at))
  | no none_there ↦
      let e : p.loops ≡ [] = length_zero p.loops (omega arith) in inl (e, rw (up, ap length e))
]

length-start_threads : (f : ℕ → ℕ) (n i : ℕ) → length (start_threads f n i) ≡ n
unfolding start_threads
length-start_threads f zero i = refl
length-start_threads f (suc n) i = ap suc (length-start_threads f n (suc i))

-- Start on a new pool leaves it running, with one loop for each thread and the turn at the first.
pub start_lem :
    (f : ℕ → ℕ) (base n : ℕ)
    → (is_running (start f (set_thread_num n (init base))).status ≡ true)
      × (length (start f (set_thread_num n (init base))).loops ≡ n)
      × ((start f (set_thread_num n (init base))).next ≡ 0)
unfolding start set_thread_num init is_running
start_lem f base n = (refl, length-start_threads f n 0, refl)
