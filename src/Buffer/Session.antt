-- ===== src/Buffer/Session.antt =====
-- A buffer against what it promises: a queue of bytes. A client appends, skips and takes bytes, in
-- any order and number, and sees what the queue would show.
use evk.Prelude.{
  ℕ, ◌+◌, ◌*◌, ◌≤◌, ◌<◌, ◌≡◌, refl, ap, List, [], ◌∷◌, ◌++◌, Option, some, ◌>>=◌, arith, length,
  take, drop, length-append, length-drop, size_mod,
}
use evk.Buffer.{Allocator, Buffer, write, skip, next, next_all, to_slice}
use evk.Buffer.Invariant.{IsValid, contents, to_slice_lem}
use evk.Buffer.Writes.{write-Holds}
use evk.Buffer.Reads.{Leaves, skip-Leaves, next-Leaves, next_all-Leaves}

-- A client's calls: Append, Skip (and Retrieve), Next, NextAll, ToString.
pub data Op : Type 0 where
  appends : List ℕ → Op
  skips : ℕ → Op
  takes : ℕ → Op
  takes_all : Op
  looks : Op

-- The queue: what the call shows, and the bytes that are left.
unfoldable pub step_queue : Op → List ℕ → List ℕ × List ℕ
step_queue (appends d) q = ([], q ++ d)
step_queue (skips n) q = ([], drop n q)
step_queue (takes n) q = (take n q, drop n q)
step_queue takes_all q = (q, [])
step_queue looks q = (q, q)

unfoldable pub run_queue : List Op → List ℕ → List (List ℕ) × List ℕ
run_queue [] q = ([], q)
run_queue (op ∷ ops) q =
    let (shown, q') = step_queue op q in let (later, q'') = run_queue ops q' in (shown ∷ later, q'')

-- The same calls made on a buffer.
module _ ⦃h : Allocator⦄ where
  unfoldable pub step_buffer : Op → Buffer → Option (List ℕ × Buffer)
  step_buffer (appends d) b = do b' ← write d b; some ([], b')
  step_buffer (skips n) b = do b' ← skip n b; some ([], b')
  step_buffer (takes n) b = next n b
  step_buffer takes_all b = next_all b
  step_buffer looks b = do d ← to_slice b; some (d, b)

  unfoldable pub run_buffer : List Op → Buffer → Option (List (List ℕ) × Buffer)
  run_buffer [] b = some ([], b)
  run_buffer (op ∷ ops) b = do
    (shown, b') ← step_buffer op b
    (later, b'') ← run_buffer ops b'
    some (shown ∷ later, b'')

-- How many bytes the calls append.
abbrev pub appended : List Op → ℕ
appended [] = 0
appended (appends d ∷ ops) = length d + appended ops
appended (skips n ∷ ops) = appended ops
appended (takes n ∷ ops) = appended ops
appended (takes_all ∷ ops) = appended ops
appended (looks ∷ ops) = appended ops

-- The storage stays below a bound that depends on the bytes alone, with `t` more to come.
pub record Bounded (bound total t : ℕ) (b : Buffer) : Type 0 where
  pub valid : IsValid b
  pub load : length (contents b) + t ≤ total
  pub low : b.capacity ≤ bound
  pub enough : 3 * (total + b.reserved_prepend_size) ≤ bound
  pub fits : 2 * bound + total < size_mod

pub Bounded-less :
    (bound total t u : ℕ) (b : Buffer) → u ≤ t → Bounded bound total t b → Bounded bound total u b
Bounded-less bound total t u b h i = record {
  valid = i.valid;
  load = omega arith;
  low = i.low;
  enough = i.enough;
  fits = i.fits;
}

pub Leaves-Bounded :
    (bound total t : ℕ) (b b' : Buffer) {d : List ℕ}
    → Bounded bound total t b
    → Leaves d b b'
    → length d ≤ length (contents b)
    → Bounded bound total t b'
Leaves-Bounded bound total t b b' i l h = record {
  valid = l.valid;
  load = omega (arith, i.load, ap length l.bytes);
  low = omega (arith, i.low, i.valid.stored, l.valid.stored, ap length l.storage);
  enough = omega (arith, i.enough, l.prefix);
  fits = i.fits;
}

module _ ⦃h : Allocator⦄ where
  pub write-Bounded :
      (bound total t : ℕ) (d : List ℕ) (b : Buffer)
      → Bounded bound total (length d + t) b
      → (b' : Buffer) × (write d b ≡ some b')
        × (contents b' ≡ contents b ++ d)
        × Bounded bound total t b'
  write-Bounded bound total t d b i =
      let (b', run, w, thrift) = write-Holds d b i.valid (omega (arith, i.load, i.low, i.fits)) in
      (
        b',
        run,
        w.bytes,
        record {
          valid = w.valid;
          load = omega (arith, i.load, ap length w.bytes, length-append (contents b) d);
          low = omega (arith, thrift, i.low, i.load, i.enough);
          enough = omega (arith, i.enough, w.prefix);
          fits = i.fits;
        },
      )

  step_refines :
      (bound total : ℕ) (op : Op) (ops : List Op) (b : Buffer)
      → Bounded bound total (appended (op ∷ ops)) b
      → (b' : Buffer) × (step_buffer op b ≡ some ((step_queue op (contents b)).0, b'))
        × (contents b' ≡ (step_queue op (contents b)).1)
        × Bounded bound total (appended ops) b'
  unfolding step_buffer step_queue
  step_refines bound total (appends d) ops b i =
      let (b', run, same, i') = write-Bounded bound total (appended ops) d b i in
      (b', rw run, same, i')
  step_refines bound total (skips n) ops b i =
      let (b', run, l) = skip-Leaves n b i.valid in
      (
        b',
        rw run,
        l.bytes,
        Leaves-Bounded bound total _ b b' i l (omega (arith, length-drop n (contents b))),
      )
  step_refines bound total (takes n) ops b i =
      let (b', run, l) = next-Leaves n b i.valid in
      (
        b',
        run,
        l.bytes,
        Leaves-Bounded bound total _ b b' i l (omega (arith, length-drop n (contents b))),
      )
  step_refines bound total takes_all ops b i =
      let (run, l) = next_all-Leaves b i.valid in
      (_, run, l.bytes, Leaves-Bounded bound total _ b _ i l (omega arith))
  step_refines bound total looks ops b i = (b, rw (to_slice_lem b i.valid), refl, i)

  run_Bounded :
      (bound total : ℕ) (ops : List Op) (b : Buffer)
      → Bounded bound total (appended ops) b
      → (b' : Buffer) × (run_buffer ops b ≡ some ((run_queue ops (contents b)).0, b'))
        × (contents b' ≡ (run_queue ops (contents b)).1)
        × Bounded bound total 0 b'
  unfolding run_buffer run_queue
  run_Bounded bound total [] b i = (b, refl, refl, i)
  run_Bounded bound total (op ∷ ops) b i =
      let (b', run, same, i') = step_refines bound total op ops b i in
      let (b'', run', same', i'') = run_Bounded bound total ops b' i' in
      (b'', rw (run, run', same), rw (← same) same', i'')

  -- Whatever a client does, every call returns and shows what the queue of bytes would show, and the
  -- storage stays within any bound that is at least its first size, and at least three times the bytes
  -- unread at first, appended and reserved; twice the bound and those bytes must be within size_t.
  pub run_refines :
      (bound : ℕ) (ops : List Op) (b : Buffer)
      → IsValid b
      → b.capacity ≤ bound
      → 3 * (length (contents b) + appended ops + b.reserved_prepend_size) ≤ bound
      → 2 * bound + (length (contents b) + appended ops) < size_mod
      → (b' : Buffer) × (run_buffer ops b ≡ some ((run_queue ops (contents b)).0, b'))
        × (contents b' ≡ (run_queue ops (contents b)).1)
        × IsValid b'
        × (b'.capacity ≤ bound)
  run_refines bound ops b v low enough fits =
      let (b', run, same, i) =
        run_Bounded bound (length (contents b) + appended ops) ops b
          (record { valid = v; load = omega arith; low = low; enough = enough; fits = fits }) in
      (b', run, same, i.valid, i.low)
