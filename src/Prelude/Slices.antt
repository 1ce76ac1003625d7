-- ===== src/Prelude/Slices.antt =====
-- What `slice` and `splice` make of a block of storage: the laws of memcpy.
use Prim.Native.Nat.{ℕ, zero, suc, ◌+◌, ◌≤◌}
use mathlib.Core.Path.{◌≡◌, refl, ap, ◌∙◌}
use mathlib.Core.List.{List, [], ◌∷◌, ◌++◌, append-nil}
use native.Mathlib.Nat.{zero-add}
use native.Mathlib.Omega.{arith}
use evk.Prelude.Lists.{length, take, drop, slice, overwrite, splice}

module _ {ℓ} {A : Type ℓ} where
  pub length-slice : (i n : ℕ) (xs : List A) → i + n ≤ length xs → length (slice i n xs) ≡ n
  length-slice zero zero xs h = refl
  length-slice zero (suc n) [] h = absurd (omega arith)
  length-slice zero (suc n) (x ∷ xs) h = omega (arith, length-slice zero n xs (omega arith))
  length-slice (suc i) n [] h = absurd (omega arith)
  length-slice (suc i) n (x ∷ xs) h = length-slice i n xs (omega arith)

  pub slice_zero : (i : ℕ) (xs : List A) → slice i 0 xs ≡ []
  slice_zero zero xs = refl
  slice_zero (suc i) [] = refl
  slice_zero (suc i) (x ∷ xs) = slice_zero i xs

  pub take-slice : (k i n : ℕ) (xs : List A) → k ≤ n → take k (slice i n xs) ≡ slice i k xs
  take-slice zero zero n xs h = refl
  take-slice (suc k) zero zero xs h = absurd (omega arith)
  take-slice (suc k) zero (suc n) [] h = refl
  take-slice (suc k) zero (suc n) (x ∷ xs) h = ap (◌∷◌ x) (take-slice k zero n xs (omega arith))
  take-slice zero (suc i) n [] h = refl
  take-slice (suc k) (suc i) n [] h = refl
  take-slice k (suc i) n (x ∷ xs) h = take-slice k i n xs h

  drop-take : (k n t : ℕ) (xs : List A) → t ≡ k + n → drop k (take t xs) ≡ slice k n xs
  drop-take zero n t xs h = ap (λ m. take m xs) (omega arith)
  drop-take (suc k) n zero xs h = absurd (omega arith)
  drop-take (suc k) n (suc t) [] h = refl
  drop-take (suc k) n (suc t) (x ∷ xs) h = drop-take k n t xs (omega arith)

  pub drop-slice :
      (k i n t j : ℕ) (xs : List A) → t ≡ k + n → j ≡ i + k → drop k (slice i t xs) ≡ slice j n xs
  drop-slice k zero n t j xs h e = rw (e, zero-add) (drop-take k n t xs h)
  drop-slice k (suc i) n t zero xs h e = absurd (omega arith)
  drop-slice zero (suc i) n t (suc j) [] h e = refl
  drop-slice (suc k) (suc i) n t (suc j) [] h e = refl
  drop-slice k (suc i) n t (suc j) (x ∷ xs) h e = drop-slice k i n t j xs h (omega arith)

  pub length-overwrite :
      (xs ys : List A) → length ys ≤ length xs → length (overwrite xs ys) ≡ length xs
  length-overwrite xs [] h = refl
  length-overwrite [] (y ∷ ys) h = absurd (omega arith)
  length-overwrite (x ∷ xs) (y ∷ ys) h = ap suc (length-overwrite xs ys (omega arith))

  pub length-splice :
      (xs : List A) (i : ℕ) (ys : List A)
      → i + length ys ≤ length xs
      → length (splice xs i ys) ≡ length xs
  length-splice xs zero ys h = length-overwrite xs ys (omega arith)
  length-splice [] (suc i) ys h = refl
  length-splice (x ∷ xs) (suc i) ys h = ap suc (length-splice xs i ys (omega arith))

  take-overwrite :
      (n t m : ℕ) (xs ys : List A)
      → t ≡ length ys + n
      → m ≡ length ys
      → t ≤ length xs
      → take t (overwrite xs ys) ≡ ys ++ slice m n xs
  take-overwrite n t zero xs [] h e l = ap (λ k. take k xs) (omega arith)
  take-overwrite n t (suc m) xs [] h e l = absurd (omega arith)
  take-overwrite n t m [] (y ∷ ys) h e l = absurd (omega arith)
  take-overwrite n t zero (x ∷ xs) (y ∷ ys) h e l = absurd (omega arith)
  take-overwrite n zero (suc m) (x ∷ xs) (y ∷ ys) h e l = absurd (omega arith)
  take-overwrite n (suc t) (suc m) (x ∷ xs) (y ∷ ys) h e l =
      ap (◌∷◌ y) (take-overwrite n t m xs ys (omega arith) (omega arith) (omega arith))

  -- A block read from where it was written on: what was written, then the old bytes behind it.
  pub slice-splice_self :
      (xs : List A) (i : ℕ) (ys : List A) (n t m : ℕ)
      → t ≡ length ys + n
      → m ≡ i + length ys
      → i + t ≤ length xs
      → slice i t (splice xs i ys) ≡ ys ++ slice m n xs
  slice-splice_self xs zero ys n t m h e l =
      take-overwrite n t m xs ys h (omega arith) (omega arith)
  slice-splice_self [] (suc i) ys n t m h e l = absurd (omega arith)
  slice-splice_self (x ∷ xs) (suc i) ys n t zero h e l = absurd (omega arith)
  slice-splice_self (x ∷ xs) (suc i) ys n t (suc m) h e l =
      slice-splice_self xs i ys n t m h (omega arith) (omega arith)

  take-splice :
      (xs : List A) (j : ℕ) (ys : List A) (t : ℕ)
      → t ≡ j + length ys
      → t ≤ length xs
      → take t (splice xs j ys) ≡ take j xs ++ ys
  take-splice xs zero ys t h l =
      take-overwrite 0 t (length ys) xs ys (omega arith) refl l
      ∙ rw (slice_zero (length ys) xs) (append-nil ys)
  take-splice [] (suc j) ys t h l = absurd (omega arith)
  take-splice (x ∷ xs) (suc j) ys zero h l = absurd (omega arith)
  take-splice (x ∷ xs) (suc j) ys (suc t) h l =
      ap (◌∷◌ x) (take-splice xs j ys t (omega arith) (omega arith))

  -- A block that ends with what was written: the old bytes before it, then what was written.
  pub slice-splice_extend :
      (xs : List A) (i j : ℕ) (ys : List A) (d t : ℕ)
      → j ≡ i + d
      → t ≡ d + length ys
      → i + t ≤ length xs
      → slice i t (splice xs j ys) ≡ slice i d xs ++ ys
  slice-splice_extend xs zero j ys d t e h l =
      rw (e, zero-add) (take-splice xs d ys t h (omega arith))
  slice-splice_extend [] (suc i) j ys d t e h l = absurd (omega arith)
  slice-splice_extend (x ∷ xs) (suc i) zero ys d t e h l = absurd (omega arith)
  slice-splice_extend (x ∷ xs) (suc i) (suc j) ys d t e h l =
      slice-splice_extend xs i j ys d t (omega arith) h (omega arith)

  slice_all : (xs : List A) → slice 0 (length xs) xs ≡ xs
  slice_all [] = refl
  slice_all (x ∷ xs) = ap (◌∷◌ x) (slice_all xs)
