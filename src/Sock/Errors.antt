-- ===== src/Sock/Errors.antt =====
-- What becomes of a failed accept, of the test for a connection to oneself, and of the options.
use evk.Prelude.{ℕ, ◌<◌, ◌≡◌, refl, none, Bool, true, false, arith, ◌==◌, ◌&&◌, if◌then◌else◌}
use evk.Prelude.Int.{ℤ, negsuc}
use evk.Sock.{
  failed, accept, is_expected, ebadf, Sockaddr, af_inet, is_self_connect, compared_size, memcmp,
  Setsockopt, set_tcp_no_delay, set_reuse_addr, set_reuse_port, set_keep_alive,
}

-- fcntl on -1 fails with EBADF. So errno no longer tells why accept failed, and Accept ends the
-- program on every failure of accept, on EAGAIN, EINTR and EMFILE too.
pub accept_failed :
    (e errno_behind : ℕ) → errno_behind ≡ ebadf → accept (failed e) errno_behind ≡ none
unfolding accept is_expected
accept_failed e errno_behind h = rw h refl

-- Where the local address is IPv4, the ports and the IPv4 addresses are compared, whatever the family of
-- the peer's address is; in every other case the result is false, between two IPv6 addresses too, even
-- equal ones, since memcmp is called with the length zero.
pub is_self_connect_lem :
    (localaddr peeraddr : Sockaddr)
    → is_self_connect localaddr peeraddr ≡ (
        if localaddr.family == af_inet
        then (localaddr.port == peeraddr.port) && (localaddr.s_addr == peeraddr.s_addr)
        else false)
unfolding is_self_connect compared_size memcmp
is_self_connect_lem localaddr peeraddr = ground arith

-- On a system whose setsockopt refuses a value shorter than an `int`, as Linux does, none of the four
-- options is ever set, or cleared: the length passed is the value, at most 1.
pub options_refused :
    (setsockopt : Setsockopt → ℤ)
    → ((s : Setsockopt) → s.optlen < 4 → setsockopt s ≡ negsuc 0)
    → (on : Bool)
    → (setsockopt (set_tcp_no_delay on) ≡ negsuc 0)
      × (setsockopt (set_reuse_addr on) ≡ negsuc 0)
      × (setsockopt (set_reuse_port on) ≡ negsuc 0)
      × (setsockopt (set_keep_alive on) ≡ negsuc 0)
unfolding set_tcp_no_delay set_reuse_addr set_reuse_port set_keep_alive
options_refused setsockopt h true =
    (h _ (omega arith), h _ (omega arith), h _ (omega arith), h _ (omega arith))
options_refused setsockopt h false =
    (h _ (omega arith), h _ (omega arith), h _ (omega arith), h _ (omega arith))
