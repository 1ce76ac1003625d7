-- ===== src/InetAddress/Tests.antt =====
-- Addresses printed and read back, with a C library that prints an address as one character.
use evk.Prelude.{
  ℕ, ◌≡◌, inl, refl, ap, List, [], ◌∷◌, ◌++◌, take, take_all, length-take, some, none, arith, true,
  ◌==◌,
}
use evk.Buffer.Endian.{little, ntoh, from_memory, to_memory}
use evk.Sock.{af_inet6}
use evk.InetAddress.{
  Inet, InetAddress, of_port, of_text, to_ip, to_ip_port, to_port, family, port_net_endian,
  to_ip_port_in, to_ip_in,
}
use evk.InetAddress.Decimal.{print, value, digits}
use evk.InetAddress.Laws.{IsValid, IsSame, to_ip-of_text, to_ip_port_lem}

abbrev inet : Inet
inet = record {
  ntop = λ a. a ∷ [];
  ntop6 = λ a. take 45 a;
  pton = λ s. elim s [ [] ↦ none | a ∷ _ ↦ some a ];
  pton6 = λ s. some s;
  ntop_fits = λ a. omega arith;
  ntop6_fits = λ a. omega (arith, length-take 45 a);
  pton-ntop = λ a h. refl;
  pton6-ntop6 = λ a h. ap some (take_all 45 a (omega arith));
}

-- 10.0.0.1, port 8080, in memory that ended with a scope.
abbrev address : InetAddress
address = record {
  addr = record { family = 2; port = 36895; s_addr = 16777226; sin6_addr = [] };
  scope_id = 7;
}

abbrev address6 : InetAddress
address6 = of_port little address 443 true true

address-IsValid : IsValid address
address-IsValid = (omega arith, inl (refl, omega arith))

address_port : to_port little address ≡ 8080
unfolding to_port port_net_endian ntoh from_memory to_memory
address_port = refl

address_text : to_ip_port inet little address ≡ some (16777226 ∷ 58 ∷ 56 ∷ 48 ∷ 56 ∷ 48 ∷ [])
unfolding to_ip_port to_ip_port_in to_ip_in family print digits ntoh from_memory to_memory
address_text = refl

to_ip-of_text_example :
    (ip : List ℕ) × (to_ip inet address ≡ some ip)
    × IsSame address
        (of_text inet little address6 ip (to_port little address) (family address == af_inet6))
to_ip-of_text_example = to_ip-of_text inet little address address-IsValid address6

to_ip_port_lem_example :
    (ip : List ℕ) × (to_ip inet address ≡ some ip)
    × (to_ip_port inet little address ≡ some (ip ++ 58 ∷ print (to_port little address)))
    × (value 0 (print (to_port little address)) ≡ to_port little address)
to_ip_port_lem_example = to_ip_port_lem inet little address address-IsValid
