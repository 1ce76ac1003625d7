-- ===== src/EPoller.antt =====
-- evk/epoller.h and evk/epoller.cc: the channels that an event loop polls with epoll(7). A channel
-- is named by its identity; `none` is a failed assert, or a LOG_FATAL, which ends the program. What
-- epoll_ctl and epoll_wait return is an argument. The caller is on the loop's thread.
pub mod Sync
pub mod Waiting
pub mod Tests
use evk.Prelude.{
  ℕ, ◌+◌, ◌*◌, List, [], ◌∷◌, ◌++◌, Option, some, none, ◌>>=◌, ◌>>◌, require, length, Bool, true,
  false, not, ◌&&◌, ◌||◌, leb, ltb, ◌==◌, if◌then◌else◌,
}
use evk.Assoc.{find, erase, is_at, is_absent}

-- `kNew`, `kAdded` and `kDeleted`
pub data Index : Type 0 where
  new added deleted : Index

-- What the poller sees of a channel: its identity, descriptor, events, and `index_`.
pub record Polled : Type 0 where
  pub channel : ℕ
  pub fd : ℕ
  pub events : ℕ
  pub index : Index

-- The operations of epoll_ctl.
pub data Operation : Type 0 where
  add modify delete : Operation

-- `channel_map_` is the list of descriptors with the identities of their channels.
unfoldable pub has_channel : Polled → List (ℕ × ℕ) → Bool
has_channel ch m = is_at ch.channel (find ch.fd m)

-- `Update`: an error of epoll_ctl is fatal but for a deletion.
unfoldable pub update : Bool → Operation → Option Operation
update ok delete = some delete
update ok op = do require ok; some op

-- `UpdateChannel`: the index and the map behind it, and the operation that epoll_ctl was given.
unfoldable pub update_channel :
    Bool → Polled → List (ℕ × ℕ) → Option (Index × List (ℕ × ℕ) × Operation)
update_channel ok ch m = elim ch.index [
  | new ↦ (do
    require (is_absent (find ch.fd m))
    op ← update ok add
    some (added, (ch.fd, ch.channel) ∷ m, op))
  | deleted ↦ (do require (has_channel ch m); op ← update ok add; some (added, m, op))
  | added ↦ (do op ← update ok modify; some (added, m, op))
]

-- The operations on `index_`.
unfoldable pub is_new : Index → Bool
is_new new = true
is_new _ = false

unfoldable pub deletes : Index → List Operation
deletes added = delete ∷ []
deletes _ = []

-- `RemoveChannel`. Its second assert is an assignment, `channel_map_[fd] = channel`, and holds; the
-- entry that it stores is erased below.
unfoldable pub remove_channel :
    Polled → List (ℕ × ℕ) → Option (Index × List (ℕ × ℕ) × List Operation)
remove_channel ch m = do
  require (not (is_absent (find ch.fd m)))
  require (ch.events == 0)
  require (not (is_new ch.index))
  some (new, erase ch.fd m, deletes ch.index)
