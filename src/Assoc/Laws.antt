-- ===== src/Assoc/Laws.antt =====
-- What the operations on a map make of a look-up at every key.
use evk.Prelude.{
  ℕ, ◌≡◌, refl, List, [], ◌∷◌, some, none, true, ◌==◌, if◌then◌else◌, arith, Bool-cases, inl, inr,
}
use evk.Assoc.{find, erase, assign}

pub find-here :
    (c fd k : ℕ) (m : List (ℕ × ℕ))
    → find fd m ≡ some c
    → find k m ≡ (if k == fd then some c else find k m)
find-here c fd k m e = elim (Bool-cases (k == fd)) [
  | inl same ↦ rw same (rw (the_same k fd same) e)
  | inr differs ↦ rw differs refl
]
  where
    the_same : (k fd : ℕ) → (k == fd) ≡ true → k ≡ fd
    the_same k fd h = ground arith

pub find-erase :
    (fd k : ℕ) (m : List (ℕ × ℕ)) → find k (erase fd m) ≡ (if k == fd then none else find k m)
unfolding find erase
find-erase fd k [] = ground arith
find-erase fd k ((j, c) ∷ m) = ground (arith, find-erase fd k m)

pub find-assign :
    (key value k : ℕ) (m : List (ℕ × ℕ))
    → find k (assign key value m) ≡ (if k == key then some value else find k m)
unfolding assign find
find-assign key value k m = ground (arith, find-erase key k m)
