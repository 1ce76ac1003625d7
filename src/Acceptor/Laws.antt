-- ===== src/Acceptor/Laws.antt =====
-- What HandleRead makes of each result of accept.
use evk.Prelude.{ℕ, ◌≡◌, refl, [], ◌∷◌, some, none, if◌then◌else◌}
use evk.Sock.{Result, descriptor, failed, accept, ebadf}
use evk.Sock.Errors.{accept_failed}
use evk.Acceptor.{Acceptor, calls_new_connection, closes, handle_read}

-- Each accepted connection is handed on, or closed if nobody takes it. If fcntl on -1 fails with
-- EBADF, any failure of accept ends the program, so that the idle descriptor is never given up.
pub handle_read_lem :
    (accepted : Result) (errno_behind : ℕ) (a : Acceptor)
    → errno_behind ≡ ebadf
    → handle_read accepted errno_behind a ≡ elim accepted [
      | descriptor connfd ↦ some (
          if a.new_connection_callback
          then calls_new_connection connfd ∷ []
          else closes connfd ∷ [])
      | failed e ↦ none
    ]
unfolding handle_read
handle_read_lem (descriptor connfd) errno_behind a h = unfold accept in refl
handle_read_lem (failed e) errno_behind a h = rw (accept_failed e errno_behind h) refl
