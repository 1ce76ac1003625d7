-- ===== src/Prelude/Words.antt =====
-- `size_t` arithmetic, 64 bits wide. `-` on ℕ stops at 0, so the modulus is added first.
use Prim.Native.Nat.{ℕ, ◌+◌, ◌-◌, ◌*◌, ◌%◌, ◌^◌, ◌≤◌, ◌<◌}
use mathlib.Core.Path.{◌≡◌}
use native.Mathlib.Omega.{arith}

abbrev pub size_mod : ℕ
size_mod = 2 ^ 64

unfoldable pub add_size : ℕ → ℕ → ℕ
add_size a b = (a + b) % size_mod

unfoldable pub sub_size : ℕ → ℕ → ℕ
sub_size a b = (a + size_mod - b) % size_mod

-- `a << 1`
unfoldable pub double_size : ℕ → ℕ
double_size a = a * 2 % size_mod

-- Where nothing wraps, they are the operations on numbers.
pub add_size_lem : (a b : ℕ) → a + b < size_mod → add_size a b ≡ a + b
unfolding add_size
add_size_lem a b h = omega arith

pub sub_size_lem : (a b : ℕ) → a < size_mod → b ≤ a → sub_size a b ≡ a - b
unfolding sub_size
sub_size_lem a b h k = omega arith

pub double_size_lem : (a : ℕ) → a + a < size_mod → double_size a ≡ a + a
unfolding double_size
double_size_lem a h = omega arith
