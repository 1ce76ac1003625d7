-- ===== src/Buffer/Endian/Bytes.antt =====
-- Little-endian numerals: a number as n bytes, and the value of bytes.
use evk.Prelude.{
  ℕ, zero, suc, ◌+◌, ◌*◌, ◌/◌, ◌%◌, ◌^◌, ◌<◌, ◌≡◌, refl, sym, ap, ap₂, subst, reverse-cons, ◌∙◌,
  List, [], ◌∷◌, ◌++◌, arith, length, reverse, length-append,
}
use native.Mathlib.Nat.{pow-suc}

abbrev pub le_bytes : ℕ → ℕ → List ℕ
le_bytes zero x = []
le_bytes (suc n) x = (x % 256) ∷ le_bytes n (x / 256)

abbrev pub le_value : List ℕ → ℕ
le_value [] = 0
le_value (c ∷ cs) = c + 256 * le_value cs

abbrev pub AreBytes : List ℕ → Type 0
AreBytes [] = Unit {0}
AreBytes (c ∷ cs) = (c < 256) × AreBytes cs

pub length-le_bytes : (n x : ℕ) → length (le_bytes n x) ≡ n
length-le_bytes zero x = refl
length-le_bytes (suc n) x = ap suc (length-le_bytes n (x / 256))

pub le_bytes-AreBytes : (n x : ℕ) → AreBytes (le_bytes n x)
le_bytes-AreBytes zero x = tt
le_bytes-AreBytes (suc n) x = (omega arith, le_bytes-AreBytes n (x / 256))

pub le_bytes-le_value :
    (n : ℕ) (cs : List ℕ) → length cs ≡ n → AreBytes cs → le_bytes n (le_value cs) ≡ cs
le_bytes-le_value zero [] e h = refl
le_bytes-le_value zero (c ∷ cs) e h = absurd (omega arith)
le_bytes-le_value (suc n) [] e h = absurd (omega arith)
le_bytes-le_value (suc n) (c ∷ cs) e h =
    ap₂ ◌∷◌ (omega arith) (ap (le_bytes n) (omega arith) ∙ le_bytes-le_value n cs (omega arith) h.1)

pub le_value-le_bytes : (n x : ℕ) → x < 256 ^ n → le_value (le_bytes n x) ≡ x
le_value-le_bytes zero x h = omega arith
le_value-le_bytes (suc n) x h =
    omega (arith, le_value-le_bytes n (x / 256) (omega (arith, pow-suc 256 n)))

AreBytes-append : (xs ys : List ℕ) → AreBytes xs → AreBytes ys → AreBytes (xs ++ ys)
AreBytes-append [] ys h k = k
AreBytes-append (x ∷ xs) ys h k = (h.0, AreBytes-append xs ys h.1 k)

pub AreBytes-reverse : (xs : List ℕ) → AreBytes xs → AreBytes (reverse xs)
AreBytes-reverse [] h = tt
AreBytes-reverse (x ∷ xs) h =
    subst AreBytes (sym (reverse-cons x xs))
      (AreBytes-append (reverse xs) (x ∷ []) (AreBytes-reverse xs h.1) (h.0, tt))

pub length-reverse : (xs : List ℕ) → length (reverse xs) ≡ length xs
length-reverse [] = refl
length-reverse (x ∷ xs) =
    omega
      (arith, ap length (reverse-cons x xs), length-append (reverse xs) (x ∷ []), length-reverse xs)

power : (n : ℕ) → 256 ^ suc n ≡ 256 * 256 ^ n
power n = omega (arith, pow-suc 256 n)

pub le_value_bound : (n : ℕ) (cs : List ℕ) → length cs ≡ n → AreBytes cs → le_value cs < 256 ^ n
le_value_bound zero [] l h = omega arith
le_value_bound zero (c ∷ cs) l h = absurd (omega arith)
le_value_bound (suc n) [] l h = absurd (omega arith)
le_value_bound (suc n) (c ∷ cs) l h =
    omega (arith, power n, h.0, le_value_bound n cs (omega arith) h.1)
