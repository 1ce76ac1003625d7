-- ===== src/Poller.antt =====
-- evk/poller.h and evk/poller.cc: the channels that are polled with poll(2). A channel is named by its
-- identity; `none` is a failed assert, or an access out of bounds. The caller is on the loop's thread.
pub mod Slots
pub mod InStep
pub mod Remove
pub mod Reenabled
pub mod Tests
use evk.Prelude.{
  ℕ, ◌+◌, ◌-◌, List, [], ◌∷◌, ◌++◌, Option, some, none, ◌>>=◌, ◌>>◌, require, length, get_elem?,
  set, take, Bool, true, false, not, ◌&&◌, ◌||◌, ltb, ◌==◌, if◌then◌else◌,
}
use evk.Prelude.Int.{ℤ, pos, negsuc, eq_int}
use evk.Assoc.{find, erase, assign, is_at, is_absent}

-- struct pollfd; poll(2) passes over a negative `fd`.
pub record Pollfd : Type 0 where
  pub fd : ℤ
  pub events : ℕ
  pub revents : ℕ

-- What the poller sees of a channel: its identity, descriptor and events.
pub record Watched : Type 0 where
  pub channel : ℕ
  pub fd : ℕ
  pub events : ℕ

pub record Poller : Type 0 where
  pub pollfd_list : List Pollfd
  pub channel_map : List (ℕ × ℕ)
  -- `index_` of each channel, which the poller sets
  pub index : ℕ → ℤ

-- `-fd - 1`
unfoldable pub negated : ℤ → ℤ
negated (pos n) = negsuc n
negated (negsuc n) = pos n

unfoldable pub set_index : ℕ → ℤ → (ℕ → ℤ) → ℕ → ℤ
set_index channel idx index c = if c == channel then idx else index c

unfoldable pub add_channel : Watched → Poller → Option Poller
add_channel ch p = do
  require (is_absent (find ch.fd p.channel_map))
  some (record {
    pollfd_list = p.pollfd_list ++ record { fd = pos ch.fd; events = ch.events; revents = 0 } ∷ [];
    channel_map = assign ch.fd ch.channel p.channel_map;
    index = set_index ch.channel (pos (length p.pollfd_list)) p.index;
  })

-- The slot of a channel, with the events that it has now.
unfoldable pub refresh : Watched → Pollfd → Pollfd
refresh ch pfd = record {
  fd = if ch.events == 0 then negated (pos ch.fd) else pfd.fd;
  events = ch.events;
  revents = 0;
}

unfoldable pub modify_channel : ℕ → Watched → Poller → Option Poller
modify_channel idx ch p = do
  require (not (is_absent (find ch.fd p.channel_map)))
  require (is_at ch.channel (find ch.fd p.channel_map))
  require (ltb idx (length p.channel_map))
  pfd ← get_elem? p.pollfd_list idx
  require (eq_int pfd.fd (pos ch.fd) || eq_int pfd.fd (negated (pos ch.fd)))
  some (record p { pollfd_list = set p.pollfd_list idx (refresh ch pfd) })

-- `UpdateChannel`
unfoldable pub update_channel : Watched → Poller → Option Poller
update_channel ch p = elim (p.index ch.channel) [
  | pos idx ↦ modify_channel idx ch p
  | negsuc n ↦ add_channel ch p
]

unfoldable pub has_channel : Watched → Poller → Bool
has_channel ch p = is_at ch.channel (find ch.fd p.channel_map)

-- `if (fdAtEnd < 0) fdAtEnd = -fdAtEnd - 1;`
unfoldable pub fd_at_end : ℤ → ℕ
fd_at_end (pos n) = n
fd_at_end (negsuc n) = n

-- `iter_swap` of the slot and the last one, and `pop_back`.
unfoldable pub swap_pop : ℕ → Pollfd → Pollfd → List Pollfd → List Pollfd
swap_pop idx pfd at_end list =
    take (length list - 1) (set (set list idx at_end) (length list - 1) pfd)

-- The slot of `RemoveChannel` is given up, when the channel has left the map.
unfoldable pub remove_slot : ℕ → Poller → Option Poller
remove_slot idx p =
    if idx == length p.pollfd_list - 1
    then some (record p { pollfd_list = take (length p.pollfd_list - 1) p.pollfd_list })
    else (do
      pfd ← get_elem? p.pollfd_list idx
      at_end ← get_elem? p.pollfd_list (length p.pollfd_list - 1)
      channel ← find (fd_at_end at_end.fd) p.channel_map
      some (record p {
        pollfd_list = swap_pop idx pfd at_end p.pollfd_list;
        index = set_index channel (pos idx) p.index;
      }))

-- `RemoveChannel`
unfoldable pub remove_channel : Watched → Poller → Option Poller
remove_channel ch p = do
  require (not (is_absent (find ch.fd p.channel_map)))
  require (is_at ch.channel (find ch.fd p.channel_map))
  require (ch.events == 0)
  elim (p.index ch.channel) [
    | pos idx ↦ (do
      require (ltb idx (length p.pollfd_list))
      remove_slot idx (record p { channel_map = erase ch.fd p.channel_map }))
    | negsuc n ↦ none
  ]

-- `FillActiveChannels`: the active channels, with what happened to each.
unfoldable pub fill_active_channels : List (ℕ × ℕ) → ℕ → List Pollfd → Option (List (ℕ × ℕ))
fill_active_channels m num_events [] = some []
fill_active_channels m num_events (pfd ∷ list) =
    let skipped = fill_active_channels m num_events list in
    let later = fill_active_channels m (num_events - 1) list in
    if ltb 0 pfd.revents
    then (do
      channel ← find (fd_at_end pfd.fd) m
      require (eq_int pfd.fd (pos (fd_at_end pfd.fd)))
      rest ← if ltb 1 num_events then later else some []
      some ((channel, pfd.revents) ∷ rest))
    else skipped
