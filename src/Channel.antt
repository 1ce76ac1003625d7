-- ===== src/Channel.antt =====
-- evk/channel.h and evk/channel.cc: a file descriptor with the events that are waited for, those
-- that came, and the callbacks. Masks and events are bit patterns of an `int`.
pub mod Events
pub mod Dispatch
pub mod Tests
use Prim.Native.Nat.{bit_and, bit_or}
use evk.Prelude.{
  ℕ, ◌-◌, ◌^◌, List, [], ◌∷◌, ◌++◌, Bool, true, false, not, ◌&&◌, ◌==◌, if◌then◌else◌,
}
use evk.Prelude.Int.{ℤ, negsuc}

abbrev pub pollin : ℕ
pollin = 0x001

abbrev pub pollpri : ℕ
pollpri = 0x002

abbrev pub pollout : ℕ
pollout = 0x004

abbrev pub pollerr : ℕ
pollerr = 0x008

abbrev pub pollhup : ℕ
pollhup = 0x010

abbrev pub pollnval : ℕ
pollnval = 0x020

abbrev pub pollrdhup : ℕ
pollrdhup = 0x2000

-- `kNone`, `kReadable` and `kWritable`
abbrev pub none_event : ℕ
none_event = 0

abbrev pub readable : ℕ
readable = bit_or pollin pollpri

abbrev pub writable : ℕ
writable = pollout

-- `~mask` of a 32-bit `int`.
abbrev pub complement : ℕ → ℕ
complement mask = 2 ^ 32 - 1 - mask

-- A callback is here whether it is set; what it does is its owner's.
pub record Channel : Type 0 where
  pub fd : ℕ
  pub events : ℕ
  pub revents : ℕ
  pub index : ℤ
  pub event_handling : Bool
  pub added_to_loop : Bool
  pub read_fn : Bool
  pub write_fn : Bool
  pub error_fn : Bool
  pub close_fn : Bool

unfoldable pub init : ℕ → Channel
init fd = record {
  fd = fd;
  events = 0;
  revents = 0;
  index = negsuc 0;
  event_handling = false;
  added_to_loop = false;
  read_fn = false;
  write_fn = false;
  error_fn = false;
  close_fn = false;
}

-- The setters.
unfoldable pub set_read_callback : Bool → Channel → Channel
set_read_callback cb c = record c { read_fn = cb }

unfoldable pub set_write_callback : Bool → Channel → Channel
set_write_callback cb c = record c { write_fn = cb }

unfoldable pub set_close_callback : Bool → Channel → Channel
set_close_callback cb c = record c { close_fn = cb }

unfoldable pub set_error_callback : Bool → Channel → Channel
set_error_callback cb c = record c { error_fn = cb }

unfoldable pub set_revents : ℕ → Channel → Channel
set_revents revents c = record c { revents = revents }

unfoldable pub set_index : ℤ → Channel → Channel
set_index idx c = record c { index = idx }

-- `(flags & mask) != 0`
abbrev pub has_any : ℕ → ℕ → Bool
has_any flags mask = not (bit_and flags mask == 0)

unfoldable pub is_reading : ℕ → Bool
is_reading events = has_any events readable

unfoldable pub is_writing : ℕ → Bool
is_writing events = has_any events writable

unfoldable pub is_none_event : ℕ → Bool
is_none_event events = events == none_event

-- What EnableReadEvent to DisableAllEvent make of `events_`; each then calls Update().
unfoldable pub enable_read : ℕ → ℕ
enable_read events = bit_or events readable

unfoldable pub enable_write : ℕ → ℕ
enable_write events = bit_or events writable

unfoldable pub disable_read : ℕ → ℕ
disable_read events = bit_and events (complement readable)

unfoldable pub disable_write : ℕ → ℕ
disable_write events = bit_and events (complement writable)

unfoldable pub disable_all : ℕ → ℕ
disable_all events = none_event

pub data Callback : Type 0 where
  close error read write : Callback

-- `if (condition) { if (fn) fn(); }`
abbrev pub call_if : Bool → Bool → Callback → List Callback
call_if condition fn cb = if condition && fn then cb ∷ [] else []

-- `HandleEvent`: the callbacks that it makes, in order, and the channel behind them.
unfoldable pub handle_event : Channel → List Callback × Channel
handle_event c = (
  call_if (has_any c.revents pollhup && not (has_any c.revents pollin)) c.close_fn close
      ++ (call_if (has_any c.revents (bit_or pollerr pollnval)) c.error_fn error
          ++ (call_if (has_any c.revents (bit_or (bit_or pollin pollpri) pollrdhup)) c.read_fn read
              ++ call_if (has_any c.revents pollout) c.write_fn write)),
  record c { event_handling = false },
)
