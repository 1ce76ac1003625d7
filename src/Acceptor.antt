-- ===== src/Acceptor.antt =====
-- evk/acceptor.h, evk/acceptor.cc and Socket::Accept of evk/socket.cc: the listening socket. A handler
-- returns what it asks of others, in order.
pub mod Laws
use evk.Prelude.{
  ℕ, List, [], ◌∷◌, Option, some, none, ◌>>=◌, ◌>>◌, require, Bool, true, false, not, ◌==◌,
  if◌then◌else◌,
}
use evk.Prelude.Int.{ℤ, is_neg}
use evk.Channel.{enable_read, disable_all, is_none_event}
use evk.Sock.{Result, descriptor, failed, emfile, accept, create_nonblocking_socket, bind, listen}

pub record Acceptor : Type 0 where
  pub accept_socket : ℕ
  -- `events_` of its channel
  pub events : ℕ
  -- whether the callback is set
  pub new_connection_callback : Bool
  pub listening : Bool

pub data Request : Type 0 where
  updates_channel : ℕ → Request
  removes_channel : Request
  calls_new_connection closes : ℕ → Request
  -- the idle descriptor is closed, takes the place of the refused connection, is closed again and
  -- opened again
  gives_idle_fd : Request
  closes_idle_fd : Request

-- The constructor, of what socket(2) and bind(2) return, and whether the idle descriptor was opened.
unfoldable pub init : Result → ℤ → Bool → Option Acceptor
init socket bound idle = do
  fd ← create_nonblocking_socket socket
  require idle
  bind bound
  some (record {
    accept_socket = fd;
    events = 0;
    new_connection_callback = false;
    listening = false;
  })

-- The destructor. The assert is that of Channel::Remove.
unfoldable pub destroy : Acceptor → Option (List Request)
destroy a = do
  require (is_none_event (disable_all a.events))
  some (updates_channel (disable_all a.events) ∷ removes_channel ∷ closes_idle_fd ∷ [])

unfoldable pub set_new_connection_callback : Acceptor → Acceptor
set_new_connection_callback a = record a { new_connection_callback = true }

-- `Listen`, of what listen(2) returns.
unfoldable pub start_listening : ℤ → Acceptor → Option (Acceptor × List Request)
start_listening ret a = do
  listen ret
  some (
      (
        record a { listening = true; events = enable_read a.events },
        updates_channel (enable_read a.events) ∷ [],
      ))

-- `HandleRead`, of what accept(2) returns and errno behind the calls of fcntl.
unfoldable pub handle_read : Result → ℕ → Acceptor → Option (List Request)
handle_read accepted errno_behind a = do
  r ← accept accepted errno_behind
  elim r [
    | descriptor connfd ↦
        some (
          if a.new_connection_callback
          then calls_new_connection connfd ∷ []
          else closes connfd ∷ [])
    | failed errno ↦ some (if errno == emfile then gives_idle_fd ∷ [] else [])
  ]
