-- ===== src/Duration.antt =====
-- evk/duration.h: a time span in nanoseconds. The C++ value is an int64_t, whose overflow is
-- undefined; here it is an integer, which agrees wherever the program's value is defined. The
-- conversions through `double` are left out.
pub mod Laws
use evk.Prelude.{ℕ, zero, suc, ◌*◌, Bool, Option, some, none, ◌==◌, if◌then◌else◌}
use evk.Prelude.Int.{
  ℤ, pos, negsuc, ◌+ℤ◌, ◌-ℤ◌, ltb_ℤ, leb_ℤ, eq_int, times_ℤ, quot_ℤ, rem_ℤ, neg_ℕ,
}

-- `kMicrosecond`, `kMillisecond`, `kSecond`, `kMinute` and `kHour`
abbrev pub microsecond : ℕ
microsecond = 1000

abbrev pub millisecond : ℕ
millisecond = 1000 * microsecond

abbrev pub second : ℕ
second = 1000 * millisecond

abbrev pub minute : ℕ
minute = 60 * second

abbrev pub hour : ℕ
hour = 60 * minute

-- struct timeval
pub record Timeval : Type 0 where
  pub tv_sec : ℤ
  pub tv_usec : ℤ

pub record Duration : Type 0 where
  pub ns : ℤ

unfoldable pub init : Duration
init = record { ns = pos 0 }

unfoldable pub of_timeval : Timeval → Duration
of_timeval t = record { ns = times_ℤ t.tv_sec second +ℤ times_ℤ t.tv_usec microsecond }

unfoldable pub of_nanoseconds : ℤ → Duration
of_nanoseconds nanoseconds = record { ns = nanoseconds }

unfoldable pub nanoseconds : Duration → ℤ
nanoseconds d = d.ns

unfoldable pub is_zero : Duration → Bool
is_zero d = eq_int d.ns (pos 0)

-- `To` and `TimeVal`
unfoldable pub to_timeval : Duration → Timeval
to_timeval d = record {
  tv_sec = quot_ℤ d.ns second;
  tv_usec = quot_ℤ (rem_ℤ d.ns second) microsecond;
}

-- `operator<`, `<=`, `>`, `>=` and `==`
unfoldable pub lt : Duration → Duration → Bool
lt d rhs = ltb_ℤ d.ns rhs.ns

unfoldable pub le : Duration → Duration → Bool
le d rhs = leb_ℤ d.ns rhs.ns

unfoldable pub gt : Duration → Duration → Bool
gt d rhs = ltb_ℤ rhs.ns d.ns

unfoldable pub ge : Duration → Duration → Bool
ge d rhs = leb_ℤ rhs.ns d.ns

unfoldable pub eq : Duration → Duration → Bool
eq d rhs = eq_int d.ns rhs.ns

-- `operator+=` and `operator-=`
unfoldable pub add : Duration → Duration → Duration
add d rhs = record { ns = d.ns +ℤ rhs.ns }

unfoldable pub sub : Duration → Duration → Duration
sub d rhs = record { ns = d.ns -ℤ rhs.ns }

-- The product with an `int`, and the quotient by one, which is undefined at zero.
abbrev pub negate : ℤ → ℤ
negate (pos n) = neg_ℕ n
negate (negsuc n) = pos (suc n)

unfoldable pub mul : ℤ → Duration → Duration
mul (pos n) d = record { ns = times_ℤ d.ns n }
mul (negsuc n) d = record { ns = negate (times_ℤ d.ns (suc n)) }

unfoldable pub div : ℤ → Duration → Option Duration
div (pos zero) d = none
div (pos (suc n)) d = some (record { ns = quot_ℤ d.ns (suc n) })
div (negsuc n) d = some (record { ns = negate (quot_ℤ d.ns (suc n)) })
