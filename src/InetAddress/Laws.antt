-- ===== src/InetAddress/Laws.antt =====
-- Addresses that are printed and read back.
use evk.Prelude.{
  if◌then◌else◌, ℕ, ◌-◌, ◌^◌, ◌<◌, ◌≡◌, ◌⊎◌, inl, inr, refl, List, ◌∷◌, ◌++◌, length, some, lt→ltb,
  take_all, arith, Bool, true, false, ◌==◌,
}
use evk.Buffer.Endian.{Endian, ntoh}
use evk.Buffer.Endian.Laws.{ntoh-hton, hton-ntoh, ntoh_bound, hton_bound}
use evk.Sock.{af_inet, af_inet6}
use evk.InetAddress.Decimal.{print, digits, value, value-digits, length-digits}
use evk.InetAddress.{
  inaddr_loopback, Inet, InetAddress, of_port, of_text, parse_from_ip_port, parse_from_ip_port6,
  zeroed, zeroed6, family, to_port, port_net_endian, to_ip, to_ip_in, to_ip_port, to_ip_port_in,
}

-- An address of one of the two families.
abbrev pub IsInet : InetAddress → Type 0
IsInet a = (a.addr.family ≡ af_inet) × (a.addr.s_addr < 2 ^ 32)

abbrev pub IsInet6 : InetAddress → Type 0
IsInet6 a = (a.addr.family ≡ af_inet6) × (length a.addr.sin6_addr ≡ 16)

abbrev pub IsValid : InetAddress → Type 0
IsValid a = (a.addr.port < 2 ^ 16) × (IsInet a ⊎ IsInet6 a)

-- The two have one family, IP and port.
abbrev pub IsSame : InetAddress → InetAddress → Type 0
IsSame a b =
    (b.addr.port ≡ a.addr.port)
    × (b.addr.family ≡ a.addr.family)
    × (((a.addr.family ≡ af_inet) × (b.addr.s_addr ≡ a.addr.s_addr))
        ⊎ ((a.addr.family ≡ af_inet6) × (b.addr.sin6_addr ≡ a.addr.sin6_addr)))

-- The text that inet_ntop makes of an address.
abbrev ip_text : (inet : Inet) (a : InetAddress) → IsInet a ⊎ IsInet6 a → List ℕ
ip_text inet a (inl _) = inet.ntop a.addr.s_addr
ip_text inet a (inr _) = inet.ntop6 a.addr.sin6_addr

to_ip_lem :
    (inet : Inet) (a : InetAddress) (v : IsInet a ⊎ IsInet6 a)
    → to_ip inet a ≡ some (ip_text inet a v)
unfolding to_ip to_ip_in family
to_ip_lem inet a (inl v) = rw v.0 refl
to_ip_lem inet a (inr v) = rw v.0 refl

ip_text_short :
    (inet : Inet) (a : InetAddress) (v : IsInet a ⊎ IsInet6 a) → length (ip_text inet a v) < 46
ip_text_short inet a (inl v) = omega (arith, inet.ntop_fits a.addr.s_addr)
ip_text_short inet a (inr v) = inet.ntop6_fits a.addr.sin6_addr

read_back :
    (inet : Inet) (e : Endian) (old a : InetAddress) (v : IsInet a ⊎ IsInet6 a)
    → a.addr.port < 2 ^ 16
    → IsSame a (of_text inet e old (ip_text inet a v) (to_port e a) (family a == af_inet6))
unfolding of_text parse_from_ip_port parse_from_ip_port6 zeroed zeroed6 family to_port
    port_net_endian
read_back inet e old a (inl v) h =
    rw (v.0, inet.pton-ntop a.addr.s_addr v.1, hton-ntoh e 2 a.addr.port h)
      (refl, refl, inl (refl, refl))
read_back inet e old a (inr v) h =
    rw (v.0, inet.pton6-ntop6 a.addr.sin6_addr v.1, hton-ntoh e 2 a.addr.port h)
      (refl, refl, inr (refl, refl))

module _ (inet : Inet) (e : Endian) (a : InetAddress) (v : IsValid a) where
  -- ToIp gives the text of an address of either family, and the constructor of that text and of ToPort
  -- makes an address with the same family, IP and port, whatever its memory held.
  pub to_ip-of_text :
      (old : InetAddress)
      → (ip : List ℕ) × (to_ip inet a ≡ some ip)
        × IsSame a (of_text inet e old ip (to_port e a) (family a == af_inet6))
  to_ip-of_text old = (ip_text inet a v.1, to_ip_lem inet a v.1, read_back inet e old a v.1 v.0)

  -- ToIpPort cuts nothing off: it is the text of ToIp, a colon and the decimal print of ToPort, and
  -- those digits spell the port.
  pub to_ip_port_lem :
      (ip : List ℕ) × (to_ip inet a ≡ some ip)
      × (to_ip_port inet e a ≡ some (ip ++ 58 ∷ print (to_port e a)))
      × (value 0 (print (to_port e a)) ≡ to_port e a)
  unfolding to_ip_port to_ip_port_in to_port port_net_endian print to_ip
  to_ip_port_lem =
      let p : ℕ = ntoh e 2 a.addr.port in
      let short : length (ip_text inet a v.1) < 46 = ip_text_short inet a v.1 in
      (
        ip_text inet a v.1,
        to_ip_lem inet a v.1,
        rw
            (
              to_ip_lem inet a v.1,
              lt→ltb (length (ip_text inet a v.1)) 64 (omega arith),
              take_all (64 - length (ip_text inet a v.1) - 1) (58 ∷ digits 5 p)
                  (omega (arith, length-digits 5 p)),
            )
            refl,
        value-digits 5 p (omega (arith, ntoh_bound e 2 a.addr.port)),
      )

-- The constructor of a port makes a valid address of the family that was asked for, whose ToPort is
-- the port.
pub of_port-IsValid :
    (e : Endian) (old : InetAddress) (port : ℕ) (loop_back_only ipv6 : Bool)
    → port < 2 ^ 16
    → IsValid (of_port e old port loop_back_only ipv6)
      × (to_port e (of_port e old port loop_back_only ipv6) ≡ port)
      × (family (of_port e old port loop_back_only ipv6) ≡ (if ipv6 then af_inet6 else af_inet))
unfolding of_port zeroed zeroed6 to_port port_net_endian family
of_port-IsValid e old port true true h =
    ((hton_bound e 2 port, inr (refl, refl)), ntoh-hton e 2 port h, refl)
of_port-IsValid e old port false true h =
    ((hton_bound e 2 port, inr (refl, refl)), ntoh-hton e 2 port h, refl)
of_port-IsValid e old port l false h = (
  (hton_bound e 2 port, inl (refl, hton_bound e 4 (if l then inaddr_loopback else 0))),
  ntoh-hton e 2 port h,
  refl,
)
