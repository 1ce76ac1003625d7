-- ===== src/Timestamp/Laws.antt =====
-- Points in time and spans between them.
use evk.Prelude.{
  ℕ, suc, ◌+◌, ◌*◌, ◌/◌, ◌%◌, ◌<◌, ◌^◌, ◌≡◌, ◌⊎◌, inl, inr, ap, true, false, arith, ◌==◌,
  le→ltb_false, eq→==,
}
use native.Mathlib.Decide.{dec_lt}
use evk.Prelude.Int.{
  ℤ, pos, negsuc, pos_part, neg_part, neg_ℕ, ◌+ℤ◌, ◌-ℤ◌, +ℤ_parts, -ℤ_parts, eq_of_parts, rem_neg,
  quot_neg, times_neg, add_neg, quot_ℤ, times_ℤ, ltb_ℤ, eq_int,
}
use evk.Duration.{Duration}
use evk.Timestamp.{
  Timestamp, to_timeval, unix_micro, unix, lt, eq, add, sub, since, now, is_valid, utc_microsecond,
  to_int64, of_timeval,
}

-- A span added to a point is taken off again by `-`, and is what lies between the two; a point is
-- reached from another by adding what lies between them; and the greater one comes later by a
-- positive span.
pub add-since :
    (t u : Timestamp) (d : Duration)
    → (sub (add t d) d ≡ t)
      × (since (add t d) t ≡ d)
      × (add t (since u t) ≡ u)
      × (lt t u ≡ ltb_ℤ (pos 0) (since u t).ns)
unfolding add sub since lt
add-since t u d = (
  ap (λ z. record { ns = z })
      (eq_of_parts _ _ (omega (arith, +ℤ_parts t.ns d.ns, -ℤ_parts (t.ns +ℤ d.ns) d.ns))),
  ap (λ z. record { ns = z })
      (eq_of_parts _ _ (omega (arith, +ℤ_parts t.ns d.ns, -ℤ_parts (t.ns +ℤ d.ns) t.ns))),
  ap (λ z. record { ns = z })
      (eq_of_parts _ _ (omega (arith, -ℤ_parts u.ns t.ns, +ℤ_parts t.ns (u.ns -ℤ t.ns)))),
  ground (arith, -ℤ_parts u.ns t.ns),
)

eq_int_parts : (a b : ℤ) → eq_int a b ≡ (pos_part a + neg_part b == pos_part b + neg_part a)
eq_int_parts (pos a) (pos b) = ground arith
eq_int_parts (pos a) (negsuc b) = ground arith
eq_int_parts (negsuc a) (pos b) = ground arith
eq_int_parts (negsuc a) (negsuc b) = ground arith

-- Of two points exactly one of `<`, `==` and `>` holds, and `==` only between equal ones.
pub lt-cases :
    (t u : Timestamp)
    → ((lt t u ≡ true) × (eq t u ≡ false) × (lt u t ≡ false))
      ⊎ ((lt t u ≡ false) × (eq t u ≡ true) × (lt u t ≡ false) × (t ≡ u))
      ⊎ ((lt t u ≡ false) × (eq t u ≡ false) × (lt u t ≡ true))
unfolding lt eq
lt-cases t u =
    rw (eq_int_parts t.ns u.ns)
      (elim (dec_lt (pos_part t.ns + neg_part u.ns) (pos_part u.ns + neg_part t.ns)) [
        | yes before ↦ inl (ground arith)
        | no h ↦ elim (dec_lt (pos_part u.ns + neg_part t.ns) (pos_part t.ns + neg_part u.ns)) [
          | yes behind ↦ inr (inr (ground arith))
          | no g ↦ inr (
              inl (
                le→ltb_false _ _ (omega arith),
                eq→== _ _ (omega arith),
                le→ltb_false _ _ (omega arith),
                ap (λ z. record { ns = z }) (eq_of_parts t.ns u.ns (omega arith)),
              ))
        ]
      ])

-- UnixMicro is what Unix and the microseconds of TimeVal make up.
pub unix_micro-to_timeval :
    (t : Timestamp) → unix_micro t ≡ times_ℤ (unix t) 1000000 +ℤ (to_timeval t).tv_usec
unfolding unix_micro unix to_timeval
unix_micro-to_timeval t = go t.ns
  where
    go :
        (z : ℤ)
        → quot_ℤ z 1000
          ≡ times_ℤ (quot_ℤ z 1000000000) 1000000 +ℤ (to_timeval (record { ns = z })).tv_usec
    go (pos n) =
        eq_of_parts _ _
          (omega (arith, +ℤ_parts (pos (n / 1000000000 * 1000000)) (pos (n % 1000000000 / 1000))))
    go (negsuc n) =
        rw
          (
            rem_neg (suc n) 1000000000,
            quot_neg (suc n % 1000000000) 1000,
            times_neg (suc n / 1000000000) 1000000,
            add_neg (suc n / 1000000000 * 1000000) (suc n % 1000000000 / 1000),
          )
          (ap neg_ℕ (omega arith))

now_small :
    (tv_sec tv_usec : ℕ)
    → (tv_sec * 1000000 + tv_usec) * 1000 < 2 ^ 63
    → now tv_sec tv_usec ≡ record { ns = pos ((tv_sec * 1000000 + tv_usec) * 1000) }
unfolding now utc_microsecond to_int64
now_small tv_sec tv_usec fit = ap (λ z. record { ns = z }) (ground arith)

-- Now, for a clock behind 1970 whose nanoseconds fit an int64_t, is a valid point, and the one that
-- the constructor makes of the clock's timeval.
pub now_lem :
    (tv_sec tv_usec : ℕ)
    → 0 < tv_sec
    → (tv_sec * 1000000 + tv_usec) * 1000 < 2 ^ 63
    → (is_valid (now tv_sec tv_usec) ≡ true)
      × (now tv_sec tv_usec ≡ of_timeval (record { tv_sec = pos tv_sec; tv_usec = pos tv_usec }))
unfolding is_valid of_timeval
now_lem tv_sec tv_usec later fit = rw (now_small tv_sec tv_usec fit) (
  ground arith,
  ap (λ z. record { ns = z })
      (eq_of_parts _ _
        (omega (arith, +ℤ_parts (pos (tv_sec * 1000000000)) (pos (tv_usec * 1000))))),
)
