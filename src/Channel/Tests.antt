-- ===== src/Channel/Tests.antt =====
-- The theorems on channels, at concrete bits.
use evk.Prelude.{◌≡◌, refl, [], ◌∷◌, true, false}
use evk.Channel.{Channel, close, error, read, write, handle_event}
use evk.Prelude.Int.{negsuc}
use evk.Channel.Dispatch.{fires, select, handle_event_lem}

-- POLLIN and POLLERR came, and all callbacks are set.
abbrev ready : Channel
ready = record {
  fd = 5;
  events = 3;
  revents = 9;
  index = negsuc 0;
  event_handling = false;
  added_to_loop = true;
  read_fn = true;
  write_fn = true;
  error_fn = true;
  close_fn = true;
}

handle_event-ready : (handle_event ready).0 ≡ error ∷ read ∷ []
unfolding handle_event
handle_event-ready = refl

handle_event_lem_example :
    ((handle_event ready).0 ≡ select (fires ready) (close ∷ error ∷ read ∷ write ∷ []))
    × ((handle_event ready).1 ≡ record ready { event_handling = false })
handle_event_lem_example = handle_event_lem ready
