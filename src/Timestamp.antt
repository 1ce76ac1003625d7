-- ===== src/Timestamp.antt =====
-- evk/timestamp.h and evk/gettimeofday.h: a point in time, in nanoseconds since the Epoch, as an
-- integer (see Duration). What gettimeofday returns is an argument.
pub mod Laws
use evk.Prelude.{ℕ, ◌+◌, ◌*◌, ◌/◌, ◌%◌, ◌^◌, Bool, ltb, if◌then◌else◌}
use evk.Prelude.Int.{ℤ, pos, negsuc, ◌+ℤ◌, ◌-ℤ◌, sub_ℕ, ltb_ℤ, eq_int, times_ℤ, quot_ℤ, rem_ℤ}
use evk.Duration.{Duration, Timeval, microsecond, second, nanoseconds}

pub record Timestamp : Type 0 where
  pub ns : ℤ

-- The constructor with no argument, and `Invalid`.
unfoldable pub invalid : Timestamp
invalid = record { ns = pos 0 }

unfoldable pub of_timeval : Timeval → Timestamp
of_timeval t = record { ns = times_ℤ t.tv_sec second +ℤ times_ℤ t.tv_usec microsecond }

unfoldable pub is_valid : Timestamp → Bool
is_valid t = ltb_ℤ (pos 0) t.ns

-- `utcmicrosecond`, a uint64_t, of the seconds and microseconds that gettimeofday gives.
unfoldable pub utc_microsecond : ℕ → ℕ → ℕ
utc_microsecond tv_sec tv_usec = (tv_sec * 1000000 + tv_usec) % 2 ^ 64

-- The conversion of a uint64_t to int64_t.
unfoldable pub to_int64 : ℕ → ℤ
to_int64 n = sub_ℕ n (if ltb n (2 ^ 63) then 0 else 2 ^ 64)

-- `timevalconv`
unfoldable pub timeval_conv : ℕ → Timeval
timeval_conv time_us = record {
  tv_sec = quot_ℤ (to_int64 time_us) 1000000;
  tv_usec = rem_ℤ (to_int64 time_us) 1000000;
}

unfoldable pub now : ℕ → ℕ → Timestamp
now tv_sec tv_usec = record {
  ns = to_int64 (utc_microsecond tv_sec tv_usec * microsecond % 2 ^ 64);
}

-- `To` and `TimeVal`
unfoldable pub to_timeval : Timestamp → Timeval
to_timeval t = record {
  tv_sec = quot_ℤ t.ns second;
  tv_usec = quot_ℤ (rem_ℤ t.ns second) microsecond;
}

unfoldable pub unix : Timestamp → ℤ
unix t = quot_ℤ t.ns second

unfoldable pub unix_nano : Timestamp → ℤ
unix_nano t = t.ns

unfoldable pub unix_micro : Timestamp → ℤ
unix_micro t = quot_ℤ t.ns microsecond

unfoldable pub lt : Timestamp → Timestamp → Bool
lt t rhs = ltb_ℤ t.ns rhs.ns

unfoldable pub eq : Timestamp → Timestamp → Bool
eq t rhs = eq_int t.ns rhs.ns

-- `Add`, `operator+=` and `operator+`
unfoldable pub add : Timestamp → Duration → Timestamp
unfolding nanoseconds
add t d = record { ns = t.ns +ℤ nanoseconds d }

-- `operator-=` and `operator-` of a span
unfoldable pub sub : Timestamp → Duration → Timestamp
unfolding nanoseconds
sub t d = record { ns = t.ns -ℤ nanoseconds d }

-- `operator-` of two points
unfoldable pub since : Timestamp → Timestamp → Duration
since t rhs = record { ns = t.ns -ℤ rhs.ns }

-- The numbers that `ToString` prints: seconds, and microseconds with six digits.
unfoldable pub printed : Timestamp → ℤ × ℤ
printed t = (quot_ℤ t.ns second, quot_ℤ (rem_ℤ t.ns second) microsecond)
