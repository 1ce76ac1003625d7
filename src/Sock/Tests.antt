-- ===== src/Sock/Tests.antt =====
-- The theorems on sockets, at concrete errors and addresses.
use evk.Prelude.{◌<◌, ◌≡◌, refl, [], ◌∷◌, false, ltb, lt→ltb, if◌then◌else◌}
use evk.Prelude.Int.{ℤ, pos, negsuc}
use evk.Sock.{Sockaddr, is_self_connect, Setsockopt}
use evk.Sock.Errors.{is_self_connect_lem}

-- [::1]:80
abbrev loopback : Sockaddr
loopback = record {
  family = 10;
  port = 80;
  s_addr = 0;
  sin6_addr = 0 ∷ 0 ∷ 0 ∷ 0 ∷ 0 ∷ 0 ∷ 0 ∷ 0 ∷ 0 ∷ 0 ∷ 0 ∷ 0 ∷ 0 ∷ 0 ∷ 0 ∷ 1 ∷ [];
}

is_self_connect_lem_example : is_self_connect loopback loopback ≡ false
is_self_connect_lem_example = is_self_connect_lem loopback loopback

unfoldable strict : Setsockopt → ℤ
strict s = if ltb s.optlen 4 then negsuc 0 else pos 0

strict_short : (s : Setsockopt) → s.optlen < 4 → strict s ≡ negsuc 0
unfolding strict
strict_short s h = rw (lt→ltb s.optlen 4 h) refl
