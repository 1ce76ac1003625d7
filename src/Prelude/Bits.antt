-- ===== src/Prelude/Bits.antt =====
-- `&` and `|` at variables: one digit at a time, then for masks and fields that stand apart.
use Prim.Native.Nat.{
  ℕ, zero, suc, ◌+◌, ◌*◌, ◌/◌, ◌%◌, ◌^◌, ◌≤◌, ◌<◌, min, max, bit_and, bit_or, digits,
  bit_and-bitwise, bit_or-bitwise,
}
use mathlib.Core.Path.{◌≡◌, refl, ap, ap₂, sym, ◌∙◌}
use native.Mathlib.Omega.{arith}
use native.Mathlib.Nat.{pow-suc, div-add-mod', mod-lt, one-le-pow}

module _ (rest : ℕ → ℕ) (op : ℕ → ℕ → ℕ) where
  -- The recursion on digits does not depend on its fuel, once that is enough.
  enough_fuel : (k l x y : ℕ) → x ≤ k → x ≤ l → digits rest op k x y ≡ digits rest op l x y
  enough_fuel zero zero x y hk hl = refl
  enough_fuel (suc k) (suc l) zero y hk hl = refl
  enough_fuel (suc k) zero zero y hk hl = refl
  enough_fuel zero (suc l) zero y hk hl = refl
  enough_fuel zero l (suc x) y hk hl = absurd (omega arith)
  enough_fuel (suc k) zero (suc x) y hk hl = absurd (omega arith)
  enough_fuel (suc k) (suc l) (suc x) y hk hl =
      ap (λ h. h * 2 + op (suc x % 2) (y % 2))
        (enough_fuel k l (suc x / 2) (y / 2) (omega arith) (omega arith))

pub bit_and_digit : (x y : ℕ) → bit_and x y ≡ bit_and (x / 2) (y / 2) * 2 + min (x % 2) (y % 2)
bit_and_digit zero y = omega (arith, bit_and-bitwise 0 y, bit_and-bitwise 0 (y / 2))
bit_and_digit (suc x) y = omega (
  arith,
  bit_and-bitwise (suc x) y,
  bit_and-bitwise (suc x / 2) (y / 2),
  enough_fuel (λ _. 0) min x (suc x / 2) (suc x / 2) (y / 2) (omega arith) (omega arith),
)

pub bit_or_digit : (x y : ℕ) → bit_or x y ≡ bit_or (x / 2) (y / 2) * 2 + max (x % 2) (y % 2)
bit_or_digit zero y = omega (arith, bit_or-bitwise 0 y, bit_or-bitwise 0 (y / 2))
bit_or_digit (suc x) y = omega (
  arith,
  bit_or-bitwise (suc x) y,
  bit_or-bitwise (suc x / 2) (y / 2),
  enough_fuel (λ w. w) max x (suc x / 2) (suc x / 2) (y / 2) (omega arith) (omega arith),
)

and_eq : (a b c d : ℕ) → a ≡ c → b ≡ d → bit_and a b ≡ bit_and c d
and_eq a b c d p q = ap₂ bit_and p q

doubled : (q k : ℕ) → q * 2 ^ suc k ≡ 2 * (q * 2 ^ k)
doubled q k = omega (arith, ap (λ (t : ℕ). q * t) (pow-suc 2 k))

-- `x & (m << k)`, where `q` and `r` are the high part of `x` and its k low bits.
pub bit_and_high :
    (k m q r : ℕ) → r < 2 ^ k → bit_and (q * 2 ^ k + r) (m * 2 ^ k) ≡ bit_and q m * 2 ^ k
bit_and_high zero m q zero h =
    and_eq (q * 2 ^ 0 + 0) (m * 2 ^ 0) q m (omega arith) (omega arith) ∙ omega arith
bit_and_high zero m q (suc r) h = absurd (omega arith)
bit_and_high (suc k) m q r h = omega (
  arith,
  bit_and_digit (q * 2 ^ suc k + r) (m * 2 ^ suc k),
  doubled q k,
  doubled m k,
  doubled (bit_and q m) k,
  bit_and_high k m q (r / 2) (omega (arith, pow-suc 2 k)),
  and_eq ((q * 2 ^ suc k + r) / 2) (m * 2 ^ suc k / 2) (q * 2 ^ k + r / 2) (m * 2 ^ k)
      (omega (arith, doubled q k)) (omega (arith, doubled m k)),
)

bit_and_nothing : (n x : ℕ) → x ≤ n → bit_and x 0 ≡ 0
bit_and_nothing n zero h = refl
bit_and_nothing zero (suc x) h = absurd (omega arith)
bit_and_nothing (suc n) (suc x) h =
    omega (arith, bit_and_digit (suc x) 0, bit_and_nothing n (suc x / 2) (omega arith))

pub bit_and-zero : (x : ℕ) → bit_and x 0 ≡ 0
bit_and-zero x = bit_and_nothing x x (omega arith)

pub bit_and-one : (x : ℕ) → bit_and x 1 ≡ x % 2
bit_and-one x = omega (arith, bit_and_digit x 1, bit_and-zero (x / 2))

-- `x & (m << k)` once more, for any `x`.
pub bit_and_field : (k m x : ℕ) → bit_and x (m * 2 ^ k) ≡ bit_and (x / 2 ^ k) m * 2 ^ k
bit_and_field k m x =
    ap (λ y. bit_and y (m * 2 ^ k)) (sym (div-add-mod' x (2 ^ k)))
    ∙ bit_and_high k m (x / 2 ^ k) (x % 2 ^ k) (mod-lt x (one-le-pow k 2 (omega arith)))

bit_and_nibble : (x : ℕ) → bit_and x 15 ≡ x % 16
bit_and_nibble x = omega (
  arith,
  bit_and_digit x 15,
  bit_and_digit (x / 2) 7,
  bit_and_digit (x / 2 / 2) 3,
  bit_and-one (x / 2 / 2 / 2),
)

low_nibble : (m x : ℕ) → bit_and x (m * 16 + 15) ≡ bit_and (x / 2 / 2 / 2 / 2) m * 16 + x % 16
low_nibble m x = rw (a, b, c, d) (omega arith)
  where
    step : (n : ℕ) (y : ℕ) → bit_and y (n * 2 + 1) ≡ bit_and (y / 2) n * 2 + y % 2
    step n y =
        bit_and_digit y (n * 2 + 1)
        ∙ ap₂ (λ u v. bit_and (y / 2) u * 2 + v) (omega arith) (omega arith)

    a : bit_and x (m * 16 + 15) ≡ bit_and (x / 2) (m * 8 + 7) * 2 + x % 2
    a = ap (bit_and x) (omega arith) ∙ step (m * 8 + 7) x

    b : bit_and (x / 2) (m * 8 + 7) ≡ bit_and (x / 2 / 2) (m * 4 + 3) * 2 + x / 2 % 2
    b = ap (bit_and (x / 2)) (omega arith) ∙ step (m * 4 + 3) (x / 2)

    c : bit_and (x / 2 / 2) (m * 4 + 3) ≡ bit_and (x / 2 / 2 / 2) (m * 2 + 1) * 2 + x / 2 / 2 % 2
    c = ap (bit_and (x / 2 / 2)) (omega arith) ∙ step (m * 2 + 1) (x / 2 / 2)

    d : bit_and (x / 2 / 2 / 2) (m * 2 + 1) ≡ bit_and (x / 2 / 2 / 2 / 2) m * 2 + x / 2 / 2 / 2 % 2
    d = step m (x / 2 / 2 / 2)

-- `x & 0xff`
pub bit_and_byte : (x : ℕ) → bit_and x 255 ≡ x % 256
bit_and_byte x = omega (arith, low_nibble 15 x, bit_and_nibble (x / 2 / 2 / 2 / 2))

bit_or_nothing : (n x : ℕ) → x ≤ n → bit_or x 0 ≡ x
bit_or_nothing n zero h = refl
bit_or_nothing zero (suc x) h = absurd (omega arith)
bit_or_nothing (suc n) (suc x) h =
    omega (arith, bit_or_digit (suc x) 0, bit_or_nothing n (suc x / 2) (omega arith))

zero-bit_or : (y : ℕ) → bit_or 0 y ≡ y
zero-bit_or y = bit_or-bitwise 0 y

-- `|` of a low part and a field above it.
pub bit_or_above : (k r q : ℕ) → r < 2 ^ k → bit_or r (q * 2 ^ k) ≡ r + q * 2 ^ k
bit_or_above zero zero q h = zero-bit_or (q * 2 ^ 0) ∙ omega arith
bit_or_above zero (suc r) q h = absurd (omega arith)
bit_or_above (suc k) r q h = omega (
  arith,
  bit_or_digit r (q * 2 ^ suc k),
  doubled q k,
  bit_or_above k (r / 2) q (omega (arith, pow-suc 2 k)),
  ap (bit_or (r / 2)) {x = q * 2 ^ suc k / 2} {y = q * 2 ^ k} (omega (arith, doubled q k)),
)
