-- ===== src/InetAddress.antt =====
-- evk/inet_address.h, evk/inet_address.cc and the addresses in evk/socket_ops.cc. An address is a
-- union of a sockaddr_in and a sockaddr_in6, which share the family, the port and the word behind it.
-- Text is the list of its characters.
pub mod Decimal
pub mod Laws
pub mod Tests
use evk.Prelude.{
  ℕ, ◌+◌, ◌-◌, ◌*◌, List, [], ◌∷◌, ◌++◌, Option, some, none, ◌>>=◌, ◌>>◌, ◌≡◌, ◌<◌, ◌^◌, require,
  length, replicate, take, drop, Bool, true, false, leb, ltb, ◌==◌, ◌&&◌, if◌then◌else◌,
}
use evk.Prelude.Int.{ℤ, pos, eq_int}
use evk.Buffer.Endian.{Endian, hton, ntoh}
use evk.Sock.{Sockaddr, af_inet, af_inet6}
use evk.InetAddress.Decimal.{print}

-- The text functions of the C library. inet_pton is `none` where it does not return 1.
pub record Inet : Type 0 where
  pub ntop : ℕ → List ℕ
  pub ntop6 : List ℕ → List ℕ
  pub pton : List ℕ → Option ℕ
  pub pton6 : List ℕ → Option (List ℕ)
  -- The texts fit INET_ADDRSTRLEN and INET6_ADDRSTRLEN with the zero at their end.
  pub ntop_fits : (a : ℕ) → length (ntop a) < 16
  pub ntop6_fits : (a : List ℕ) → length (ntop6 a) < 46
  pub pton-ntop : (a : ℕ) → a < 2 ^ 32 → pton (ntop a) ≡ some a
  pub pton6-ntop6 : (a : List ℕ) → length a ≡ 16 → pton6 (ntop6 a) ≡ some a

pub record InetAddress : Type 0 where
  -- `s_addr` is `sin6_flowinfo` of a sockaddr_in6
  pub addr : Sockaddr
  pub scope_id : ℕ

abbrev pub inaddr_loopback : ℕ
inaddr_loopback = 127 * 2 ^ 24 + 1

abbrev pub in6addr_any : List ℕ
in6addr_any = replicate 16 0

abbrev pub in6addr_loopback : List ℕ
in6addr_loopback = replicate 15 0 ++ 1 ∷ []

-- memset of the sockaddr_in6, and of the sockaddr_in: it ends behind 8 bytes of `sin6_addr`.
unfoldable pub zeroed6 : InetAddress
zeroed6 = record {
  addr = record { family = 0; port = 0; s_addr = 0; sin6_addr = replicate 16 0 };
  scope_id = 0;
}

unfoldable pub zeroed : InetAddress → InetAddress
zeroed old = record old {
  addr = record {
    family = 0;
    port = 0;
    s_addr = 0;
    sin6_addr = replicate 8 0 ++ drop 8 old.addr.sin6_addr;
  };
}

-- The constructor of a port; `old` is what the memory holds.
unfoldable pub of_port : Endian → InetAddress → ℕ → Bool → Bool → InetAddress
of_port e old port loop_back_only ipv6 =
    if ipv6
    then record zeroed6 {
      addr = record zeroed6.addr {
        family = af_inet6;
        sin6_addr = if loop_back_only then in6addr_loopback else in6addr_any;
        port = hton e 2 port;
      };
    }
    else record (zeroed old) {
      addr = record (zeroed old).addr {
        family = af_inet;
        s_addr = hton e 4 (if loop_back_only then inaddr_loopback else 0);
        port = hton e 2 port;
      };
    }

-- `ParseFromIpPort`; where inet_pton fails, the address is as it was.
unfoldable pub parse_from_ip_port : Inet → Endian → List ℕ → ℕ → InetAddress → InetAddress
parse_from_ip_port inet e ip port a = record a {
  addr = record a.addr {
    family = af_inet;
    port = hton e 2 port;
    s_addr = elim (inet.pton ip) [ none ↦ a.addr.s_addr | some x ↦ x ];
  };
}

unfoldable pub parse_from_ip_port6 : Inet → Endian → List ℕ → ℕ → InetAddress → InetAddress
parse_from_ip_port6 inet e ip port a = record a {
  addr = record a.addr {
    family = af_inet6;
    port = hton e 2 port;
    sin6_addr = elim (inet.pton6 ip) [ none ↦ a.addr.sin6_addr | some x ↦ x ];
  };
}

-- The constructor of a text and a port.
unfoldable pub of_text : Inet → Endian → InetAddress → List ℕ → ℕ → Bool → InetAddress
of_text inet e old ip port ipv6 =
    if ipv6
    then parse_from_ip_port6 inet e ip port zeroed6
    else parse_from_ip_port inet e ip port (zeroed old)

unfoldable pub family : InetAddress → ℕ
family a = a.addr.family

unfoldable pub port_net_endian : InetAddress → ℕ
port_net_endian a = a.addr.port

unfoldable pub to_port : Endian → InetAddress → ℕ
to_port e a = ntoh e 2 (port_net_endian a)

unfoldable pub ip_net_endian : InetAddress → Option ℕ
ip_net_endian a = do require (family a == af_inet); some a.addr.s_addr

unfoldable pub set_scope_id : ℕ → InetAddress → InetAddress
set_scope_id scope_id a = if family a == af_inet6 then record a { scope_id = scope_id } else a

unfoldable pub set_sock_addr_inet6 : InetAddress → InetAddress → InetAddress
set_sock_addr_inet6 addr6 a = addr6

-- What gethostbyname_r leaves in its `struct hostent`.
pub record Hostent : Type 0 where
  pub h_addrtype : ℕ
  pub h_length : ℕ
  pub h_addr : ℕ

-- `Resolve`, of what gethostbyname_r returned and the `hostent` it found.
unfoldable pub resolve : ℤ → Option Hostent → InetAddress → Option (Bool × InetAddress)
resolve ret none a = some (false, a)
resolve ret (some he) a =
    if eq_int ret (pos 0)
    then (do
      require (he.h_addrtype == af_inet && he.h_length == 4)
      some (true, record a { addr = record a.addr { s_addr = he.h_addr } }))
    else some (false, a)

-- `sock::ToIp` into a buffer of `size` characters; `none` also where the buffer is not written.
unfoldable pub to_ip_in : Inet → ℕ → InetAddress → Option (List ℕ)
to_ip_in inet size a =
    if family a == af_inet
    then (do require (leb 16 size); some (inet.ntop a.addr.s_addr))
    else if family a == af_inet6
    then (do require (leb 46 size); some (inet.ntop6 a.addr.sin6_addr))
    else none

-- `sock::ToIpPort`: snprintf of ":%u" behind the text, cut where the buffer ends.
unfoldable pub to_ip_port_in : Inet → Endian → ℕ → InetAddress → Option (List ℕ)
to_ip_port_in inet e size a = do
  ip ← to_ip_in inet size a
  let end = length ip
  require (ltb end size)
  some (ip ++ take (size - end - 1) (58 ∷ print (ntoh e 2 a.addr.port)))

unfoldable pub to_ip : Inet → InetAddress → Option (List ℕ)
to_ip inet a = to_ip_in inet 64 a

unfoldable pub to_ip_port : Inet → Endian → InetAddress → Option (List ℕ)
to_ip_port inet e a = to_ip_port_in inet e 64 a
