-- ===== src/Prelude/Int.antt =====
-- Integers over the native numbers, for the C++ `int` values that can be negative, and their
-- arithmetic: division rounds towards zero. `negsuc n` is -(n + 1).
use Prim.Native.Nat.{ℕ, zero, suc, ◌+◌, ◌-◌, ◌*◌, ◌/◌, ◌%◌}
use mathlib.Core.Path.{◌≡◌, refl}
use mathlib.Core.Bool.{Bool, true, false}
use native.Mathlib.Nat.{zero-div, zero-mod, zero-mul}
use native.Mathlib.Omega.{arith}
use evk.Prelude.Tests.{ltb, leb, ◌==◌, if◌then◌else◌}

pub data ℤ : Type 0 where
  pos : ℕ → ℤ
  negsuc : ℕ → ℤ

abbrev pub is_neg : ℤ → Bool
is_neg (pos n) = false
is_neg (negsuc n) = true

abbrev pub eq_int : ℤ → ℤ → Bool
eq_int (pos a) (pos b) = a == b
eq_int (pos a) (negsuc b) = false
eq_int (negsuc a) (pos b) = false
eq_int (negsuc a) (negsuc b) = a == b

abbrev pub pos_part : ℤ → ℕ
pos_part (pos n) = n
pos_part (negsuc n) = 0

abbrev pub neg_part : ℤ → ℕ
neg_part (pos n) = 0
neg_part (negsuc n) = suc n

-- The difference of two numbers, and the negative of one.
abbrev pub sub_ℕ : ℕ → ℕ → ℤ
sub_ℕ a b = if leb b a then pos (a - b) else negsuc (b - a - 1)

abbrev pub neg_ℕ : ℕ → ℤ
neg_ℕ zero = pos 0
neg_ℕ (suc n) = negsuc n

infixl 65 ◌+ℤ◌ ◌-ℤ◌
unfoldable pub ◌+ℤ◌ : ℤ → ℤ → ℤ
a +ℤ b = sub_ℕ (pos_part a + pos_part b) (neg_part a + neg_part b)

unfoldable pub ◌-ℤ◌ : ℤ → ℤ → ℤ
a -ℤ b = sub_ℕ (pos_part a + neg_part b) (neg_part a + pos_part b)

abbrev pub ltb_ℤ : ℤ → ℤ → Bool
ltb_ℤ a b = ltb (pos_part a + neg_part b) (pos_part b + neg_part a)

abbrev pub leb_ℤ : ℤ → ℤ → Bool
leb_ℤ a b = leb (pos_part a + neg_part b) (pos_part b + neg_part a)

-- Times, divided by, and modulo a number of nanoseconds.
abbrev pub times_ℤ : ℤ → ℕ → ℤ
times_ℤ (pos n) k = pos (n * k)
times_ℤ (negsuc n) k = neg_ℕ (suc n * k)

abbrev pub quot_ℤ : ℤ → ℕ → ℤ
quot_ℤ (pos n) k = pos (n / k)
quot_ℤ (negsuc n) k = neg_ℕ (suc n / k)

abbrev pub rem_ℤ : ℤ → ℕ → ℤ
rem_ℤ (pos n) k = pos (n % k)
rem_ℤ (negsuc n) k = neg_ℕ (suc n % k)

pub neg_ℕ_parts : (n : ℕ) → (pos_part (neg_ℕ n) ≡ 0) × (neg_part (neg_ℕ n) ≡ n)
neg_ℕ_parts zero = ground arith
neg_ℕ_parts (suc n) = ground arith

pub +ℤ_parts :
    (a b : ℤ)
    → pos_part (a +ℤ b) + neg_part a + neg_part b ≡ neg_part (a +ℤ b) + pos_part a + pos_part b
unfolding ◌+ℤ◌
+ℤ_parts a b = ground arith

pub -ℤ_parts :
    (a b : ℤ)
    → pos_part (a -ℤ b) + neg_part a + pos_part b ≡ neg_part (a -ℤ b) + pos_part a + neg_part b
unfolding ◌-ℤ◌
-ℤ_parts a b = ground arith

pub eq_of_parts : (a b : ℤ) → pos_part a + neg_part b ≡ pos_part b + neg_part a → a ≡ b
eq_of_parts a b h = ground arith

-- The operations on negatives.
pub quot_neg : (m k : ℕ) → quot_ℤ (neg_ℕ m) k ≡ neg_ℕ (m / k)
quot_neg zero k = rw (zero-div k) refl
quot_neg (suc m) k = refl

pub rem_neg : (m k : ℕ) → rem_ℤ (neg_ℕ m) k ≡ neg_ℕ (m % k)
rem_neg zero k = rw (zero-mod k) refl
rem_neg (suc m) k = refl

pub times_neg : (m k : ℕ) → times_ℤ (neg_ℕ m) k ≡ neg_ℕ (m * k)
times_neg zero k = rw (zero-mul k) refl
times_neg (suc m) k = refl

pub add_neg : (a b : ℕ) → neg_ℕ a +ℤ neg_ℕ b ≡ neg_ℕ (a + b)
add_neg a b =
    eq_of_parts _ _ (
      omega
        (arith, +ℤ_parts (neg_ℕ a) (neg_ℕ b), neg_ℕ_parts a, neg_ℕ_parts b, neg_ℕ_parts (a + b)))
