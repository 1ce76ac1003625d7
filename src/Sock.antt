-- ===== src/Sock.antt =====
-- evk/socket_ops.h, evk/socket_ops.cc and evk/socket.cc: the calls on sockets, where they test or
-- compare what the system returned. The results of the system calls are arguments; `none` is a
-- LOG_FATAL, which ends the program.
pub mod Errors
pub mod Tests
use evk.Prelude.{
  ℕ, List, [], ◌∷◌, Option, some, none, ◌>>◌, require, Bool, true, false, not, ◌&&◌, ◌||◌, take,
  ltb, ◌==◌, if◌then◌else◌,
}
use evk.Prelude.Int.{ℤ, pos, negsuc, is_neg, eq_int}

-- What a call that makes a descriptor returned: a descriptor, or -1 with an error number.
pub data Result : Type 0 where
  descriptor : ℕ → Result
  failed : ℕ → Result

abbrev pub eperm : ℕ
eperm = 1

abbrev pub eintr : ℕ
eintr = 4

abbrev pub ebadf : ℕ
ebadf = 9

abbrev pub eagain : ℕ
eagain = 11

abbrev pub emfile : ℕ
emfile = 24

abbrev pub eproto : ℕ
eproto = 71

abbrev pub econnaborted : ℕ
econnaborted = 103

-- The first group of the switch in `Accept`; all other errors are fatal.
unfoldable pub is_expected : ℕ → Bool
is_expected e =
    (e == eagain)
    || ((e == econnaborted) || ((e == eintr) || ((e == eproto) || ((e == eperm) || (e == emfile)))))

-- `Accept`. SetNonBlockAndCloseOnExec is called on the descriptor, or on -1, before the test;
-- `errno_behind` is errno behind its calls of fcntl.
unfoldable pub accept : Result → ℕ → Option Result
accept (descriptor connfd) errno_behind = some (descriptor connfd)
accept (failed e) errno_behind = do require (is_expected errno_behind); some (failed errno_behind)

-- `CreateNonblockingSocket`: any failure is fatal. So it is in `Bind` and `Listen`.
unfoldable pub create_nonblocking_socket : Result → Option ℕ
create_nonblocking_socket (descriptor sockfd) = some sockfd
create_nonblocking_socket (failed e) = none

unfoldable pub bind : ℤ → Option (Unit {0})
bind ret = require (not (is_neg ret))

unfoldable pub listen : ℤ → Option (Unit {0})
listen ret = require (not (is_neg ret))

-- `GetSocketError`, of what getsockopt returned, errno, and the option's value.
unfoldable pub get_socket_error : ℤ → ℕ → ℕ → ℕ
get_socket_error ret errno optval = if is_neg ret then errno else optval

-- What `IsSelfConnect` reads of a sockaddr_in6, or of the sockaddr_in in its place.
pub record Sockaddr : Type 0 where
  pub family : ℕ
  pub port : ℕ
  pub s_addr : ℕ
  pub sin6_addr : List ℕ

abbrev pub af_inet : ℕ
af_inet = 2

abbrev pub af_inet6 : ℕ
af_inet6 = 10

abbrev pub in6_addr_size : ℕ
in6_addr_size = 16

-- memcmp of n bytes: zero exactly if they are the same, else the sign of the first difference.
unfoldable pub memcmp : List ℕ → List ℕ → ℤ
memcmp [] ys = pos 0
memcmp (x ∷ xs) [] = pos 0
memcmp (x ∷ xs) (y ∷ ys) =
    let rest = memcmp xs ys in if x == y then rest else if ltb x y then negsuc 0 else pos 1

-- `sizeof(localaddr.sin6_addr) == 0`, as a number.
unfoldable pub compared_size : ℕ
compared_size = if in6_addr_size == 0 then 1 else 0

unfoldable pub is_self_connect : Sockaddr → Sockaddr → Bool
is_self_connect localaddr peeraddr =
    if localaddr.family == af_inet
    then (localaddr.port == peeraddr.port) && (localaddr.s_addr == peeraddr.s_addr)
    else if localaddr.family == af_inet6
    then (localaddr.port == peeraddr.port)
      && not (
          eq_int
            (memcmp (take compared_size localaddr.sin6_addr)
              (take compared_size peeraddr.sin6_addr))
            (pos 0))
    else false

-- The arguments of setsockopt: level, name, value and the length of the value in bytes.
pub record Setsockopt : Type 0 where
  pub level : ℕ
  pub name : ℕ
  pub optval : ℕ
  pub optlen : ℕ

abbrev pub sol_socket : ℕ
sol_socket = 1

abbrev pub ipproto_tcp : ℕ
ipproto_tcp = 6

unfoldable pub set_tcp_no_delay : Bool → Setsockopt
set_tcp_no_delay on =
    let optval : ℕ = if on then 1 else 0 in
    record { level = ipproto_tcp; name = 1; optval = optval; optlen = optval }

unfoldable pub set_reuse_addr : Bool → Setsockopt
set_reuse_addr on =
    let optval : ℕ = if on then 1 else 0 in
    record { level = sol_socket; name = 2; optval = optval; optlen = optval }

unfoldable pub set_reuse_port : Bool → Setsockopt
set_reuse_port on =
    let optval : ℕ = if on then 1 else 0 in
    record { level = sol_socket; name = 15; optval = optval; optlen = optval }

unfoldable pub set_keep_alive : Bool → Setsockopt
set_keep_alive on =
    let optval : ℕ = if on then 1 else 0 in
    record { level = sol_socket; name = 9; optval = optval; optlen = optval }

-- `GetTcpInfo`, of what getsockopt returned, as a `bool`.
unfoldable pub get_tcp_info : ℤ → Bool
get_tcp_info ret = not (eq_int ret (pos 0))
