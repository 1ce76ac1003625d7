-- ===== src/Assoc.antt =====
-- A std::map from numbers to numbers, as the list of its entries: the channel map of a poller, by
-- descriptor, and the connection map of a server, by the number in the connection's name.
pub mod Laws
use evk.Prelude.{ℕ, List, [], ◌∷◌, Option, some, none, Bool, true, false, ◌==◌, if◌then◌else◌}

unfoldable pub find : ℕ → List (ℕ × ℕ) → Option ℕ
find fd [] = none
find fd ((k, c) ∷ m) = let rest = find fd m in if fd == k then some c else rest

unfoldable pub erase : ℕ → List (ℕ × ℕ) → List (ℕ × ℕ)
erase fd [] = []
erase fd ((k, c) ∷ m) = let rest = erase fd m in if fd == k then rest else (k, c) ∷ rest

-- `it != end() && it->second == channel`
unfoldable pub is_at : ℕ → Option ℕ → Bool
is_at c none = false
is_at c (some c') = c' == c

unfoldable pub is_absent : Option ℕ → Bool
is_absent none = true
is_absent (some c) = false

-- `m[k] = c`
unfoldable pub assign : ℕ → ℕ → List (ℕ × ℕ) → List (ℕ × ℕ)
assign k c m = (k, c) ∷ erase k m
