-- ===== src/Duration/Laws.antt =====
-- Spans of time and struct timeval.
use evk.Prelude.{ℕ, zero, suc, ◌*◌, ◌/◌, ◌%◌, ◌<◌, ◌≡◌, refl, ap, ◌≢◌, some, ◌∙◌, arith}
use native.Mathlib.Nat.{mul-div_cancel}
use evk.Prelude.Int.{
  ℤ, pos, negsuc, pos_part, neg_part, neg_ℕ, neg_ℕ_parts, +ℤ_parts, eq_of_parts, rem_neg, quot_neg,
  times_neg, add_neg, quot_ℤ, times_ℤ,
}
use evk.Duration.{Duration, of_timeval, to_timeval, div, mul, negate}

-- The nanoseconds rounded towards zero to whole microseconds.
abbrev pub whole_microseconds : ℤ → ℤ
whole_microseconds (pos n) = pos (n / 1000 * 1000)
whole_microseconds (negsuc n) = neg_ℕ (suc n / 1000 * 1000)

-- The microseconds of a timeval that `To` fills are less than a second, and of the same sign as the
-- span; and the constructor makes of it the span in whole microseconds, rounded towards zero.
pub of_timeval-to_timeval :
    (d : Duration)
    → ((of_timeval (to_timeval d)).ns ≡ whole_microseconds d.ns)
      × (pos_part (to_timeval d).tv_usec < 1000000)
      × (neg_part (to_timeval d).tv_usec < 1000000)
unfolding of_timeval to_timeval
of_timeval-to_timeval d = go d.ns
  where
    go :
        (z : ℤ)
        → ((of_timeval (to_timeval (record { ns = z }))).ns ≡ whole_microseconds z)
          × (pos_part (to_timeval (record { ns = z })).tv_usec < 1000000)
          × (neg_part (to_timeval (record { ns = z })).tv_usec < 1000000)
    go (pos n) = (
      eq_of_parts _ _ (
          omega (
            arith,
            +ℤ_parts (pos (n / 1000000000 * 1000000000)) (pos (n % 1000000000 / 1000 * 1000)),
          )),
      omega arith,
      omega arith,
    )
    go (negsuc n) =
        rw
          (
            rem_neg (suc n) 1000000000,
            quot_neg (suc n % 1000000000) 1000,
            times_neg (suc n / 1000000000) 1000000000,
            times_neg (suc n % 1000000000 / 1000) 1000,
            add_neg (suc n / 1000000000 * 1000000000) (suc n % 1000000000 / 1000 * 1000),
          )
          (
            ap neg_ℕ (omega arith),
            omega (arith, neg_ℕ_parts (suc n % 1000000000 / 1000)),
            omega (arith, neg_ℕ_parts (suc n % 1000000000 / 1000)),
          )

div-mul_pos : (z : ℤ) (n : ℕ) → quot_ℤ (times_ℤ z (suc n)) (suc n) ≡ z
div-mul_pos (pos a) n = ap pos (mul-div_cancel a (omega arith))
div-mul_pos (negsuc a) n =
    quot_neg (suc a * suc n) (suc n) ∙ ap neg_ℕ (mul-div_cancel (suc a) (omega arith))

negate_neg : (m : ℕ) → negate (neg_ℕ m) ≡ pos m
negate_neg zero = refl
negate_neg (suc m) = refl

div-mul_neg : (z : ℤ) (n : ℕ) → negate (quot_ℤ (negate (times_ℤ z (suc n))) (suc n)) ≡ z
div-mul_neg (pos a) n =
    ap negate (quot_neg (a * suc n) (suc n))
    ∙ negate_neg (a * suc n / suc n)
    ∙ ap pos (mul-div_cancel a (omega arith))
div-mul_neg (negsuc a) n =
    ap (λ z. negate (quot_ℤ z (suc n))) (negate_neg (suc a * suc n))
    ∙ ap neg_ℕ (mul-div_cancel (suc a) (omega arith))

-- A span multiplied by a number that is not zero, and divided by it again, is the span.
pub div-mul : (n : ℤ) (d : Duration) → n ≢ pos 0 → div n (mul n d) ≡ some d
unfolding div mul
div-mul (pos zero) d h = absurd (h refl)
div-mul (pos (suc n)) d h = ap (λ z. some (record { ns = z })) (div-mul_pos d.ns n)
div-mul (negsuc n) d h = ap (λ z. some (record { ns = z })) (div-mul_neg d.ns n)
