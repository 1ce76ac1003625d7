-- ===== src/Poller/Slots.antt =====
-- Which slot stands where, behind the operations on the list.
use evk.Prelude.{
  ℕ, zero, suc, ◌≡◌, refl, sym, ◌∙◌, List, [], ◌∷◌, some, none, length, get_elem?, set, take, true,
  false, ◌&&◌, ltb, ◌==◌, if◌then◌else◌, arith,
}
use mathlib.Core.Bool.{false≢true}

none_below : (k : ℕ) → ltb k 0 ≡ false
none_below k = ground arith

module _ {ℓ} {A : Type ℓ} where
  pub get-take :
      (n k : ℕ) (xs : List A) → get_elem? (take n xs) k ≡ (if ltb k n then get_elem? xs k else none)
  get-take zero k xs = ground arith
  get-take (suc n) k [] = ground arith
  get-take (suc n) zero (x ∷ xs) = ground arith
  get-take (suc n) (suc k) (x ∷ xs) = get-take n k xs ∙ ground arith

  pub get-set :
      (i k : ℕ) (a : A) (xs : List A)
      → get_elem? (set xs i a) k
        ≡ (if (k == i) && ltb i (length xs) then some a else get_elem? xs k)
  get-set i k a [] = ground arith
  get-set zero zero a (x ∷ xs) = ground arith
  get-set zero (suc k) a (x ∷ xs) = ground arith
  get-set (suc i) zero a (x ∷ xs) = ground arith
  get-set (suc i) (suc k) a (x ∷ xs) = get-set i k a xs ∙ ground arith

  pub get-some :
      (k : ℕ) (xs : List A) → ltb k (length xs) ≡ true → (x : A) × (get_elem? xs k ≡ some x)
  get-some k [] h = absurd (false≢true (sym (none_below k) ∙ h))
  get-some zero (x ∷ xs) h = (x, refl)
  get-some (suc k) (x ∷ xs) h = get-some k xs (ground (arith, h))

  pub get-within :
      (k : ℕ) (x : A) (xs : List A) → get_elem? xs k ≡ some x → ltb k (length xs) ≡ true
  get-within k x [] h = cc
  get-within zero x (y ∷ xs) h = ground arith
  get-within (suc k) x (y ∷ xs) h = ground (arith, get-within k x xs h)
