-- ===== src/InetAddress/Decimal.antt =====
-- The decimal print of a uint16_t, and what it means.
use native.Mathlib.Nat.{pow-suc}
use evk.Prelude.{
  ℕ, zero, suc, ◌+◌, ◌-◌, ◌*◌, ◌/◌, ◌%◌, ◌^◌, ◌<◌, ◌≤◌, ◌≡◌, refl, ◌∙◌, List, [], ◌∷◌, ◌++◌, length,
  length-append, ltb, if◌then◌else◌, arith, Bool-cases, inl, inr,
}

-- The last `n` digits, from the highest that is not zero.
unfoldable pub digits : ℕ → ℕ → List ℕ
digits zero x = []
digits (suc n) x =
    let rest = digits n (x / 10) in if ltb x 10 then (48 + x) ∷ [] else rest ++ (48 + x % 10) ∷ []

-- "%u" of a uint16_t, which has at most five.
unfoldable pub print : ℕ → List ℕ
print x = digits 5 x

-- The number that digits spell behind `n`.
abbrev pub value : ℕ → List ℕ → ℕ
value n [] = n
value n (c ∷ s) = value (n * 10 + (c - 48)) s

value-append : (n : ℕ) (s t : List ℕ) → value n (s ++ t) ≡ value (value n s) t
value-append n [] t = refl
value-append n (c ∷ s) t = value-append (n * 10 + (c - 48)) s t

rest_digit : (v x : ℕ) → v ≡ x / 10 → v * 10 + (48 + x % 10 - 48) ≡ x
rest_digit v x h = omega arith

power : (n : ℕ) → 10 ^ suc n ≡ 10 * 10 ^ n
power n = omega (arith, pow-suc 10 n)

tenth : (n x : ℕ) → x < 10 ^ suc n → x / 10 < 10 ^ n
tenth n x h = omega (arith, power n)

pub value-digits : (n x : ℕ) → x < 10 ^ n → value 0 (digits n x) ≡ x
unfolding digits
value-digits zero x h = omega arith
value-digits (suc n) x h = elim (Bool-cases (ltb x 10)) [
  | inl l ↦ rw l (omega arith)
  | inr g ↦
      let rest : value 0 (digits n (x / 10)) ≡ x / 10 = value-digits n (x / 10) (tenth n x h) in
      rw g (
        value-append 0 (digits n (x / 10)) ((48 + x % 10) ∷ [])
        ∙ rest_digit (value 0 (digits n (x / 10))) x rest)
]

pub length-digits : (n x : ℕ) → length (digits n x) ≤ n
unfolding digits
length-digits zero x = omega arith
length-digits (suc n) x = elim (Bool-cases (ltb x 10)) [
  | inl l ↦ rw l (omega arith)
  | inr g ↦
      rw (g, length-append (digits n (x / 10)) ((48 + x % 10) ∷ []))
        (omega (arith, length-digits n (x / 10)))
]
