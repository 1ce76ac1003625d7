-- ===== src/Registry.antt =====
-- Channel::Update and Channel::Remove of evk/channel.cc, with EventLoop::UpdateChannel and
-- RemoveChannel of evk/event_loop.cc, EPoller and epoll_ctl behind them: all channels of one loop. A
-- channel is a number; the caller is on the loop's thread, and `none` is a failed assert or a fatal
-- error.
pub mod InStep
pub mod Commands
pub mod Sequence
pub mod Teardown
pub mod Lifetime
pub mod Tests
use evk.Prelude.{
  ℕ, List, [], ◌∷◌, Option, some, none, ◌>>=◌, ◌>>◌, ◌≡◌, require, Bool, true, false, not, ◌==◌,
  if◌then◌else◌,
}
use evk.Channel.{enable_read, enable_write, disable_read, disable_write, disable_all, is_none_event}
use evk.EPoller.{
  Index, new, added, deleted, Polled, Operation, add, modify, delete, update_channel,
  remove_channel,
}

-- What the code relies on in an epoll instance: epoll_ctl succeeds where the manual says that it does,
-- and `interest` is what is registered at a descriptor, the pointer to a channel and the events.
pub record Epoll (K : Type 0) : Type 0 where
  pub epoll_ctl : Operation → ℕ → ℕ → ℕ → K → Option K
  pub interest : K → ℕ → Option (ℕ × ℕ)
  pub add_absent :
      (fd c events : ℕ) (k : K)
      → interest k fd ≡ none
      → (k' : K) × (epoll_ctl add fd c events k ≡ some k')
        × ((f : ℕ) → interest k' f ≡ (if f == fd then some (c, events) else interest k f))
  pub modify_present :
      (fd c events : ℕ) (k : K) (x : ℕ × ℕ)
      → interest k fd ≡ some x
      → (k' : K) × (epoll_ctl modify fd c events k ≡ some k')
        × ((f : ℕ) → interest k' f ≡ (if f == fd then some (c, events) else interest k f))
  pub delete_present :
      (fd c events : ℕ) (k : K) (x : ℕ × ℕ)
      → interest k fd ≡ some x
      → (k' : K) × (epoll_ctl delete fd c events k ≡ some k')
        × ((f : ℕ) → interest k' f ≡ (if f == fd then none else interest k f))

-- `events_`, `index_` and `added_to_loop_` of each channel, `channel_map_` of the poller, and the epoll
-- instance.
pub record Registry (K : Type 0) : Type 0 where
  pub events : ℕ → ℕ
  pub index : ℕ → Index
  pub added_to_loop : ℕ → Bool
  pub channel_map : List (ℕ × ℕ)
  pub kernel : K

abbrev pub set_at {ℓ} : {A : Type ℓ} → ℕ → A → (ℕ → A) → ℕ → A
set_at c v f x = if x == c then v else f x

-- The five operations on the mask.
pub data Act : Type 0 where
  enables_read enables_write disables_read disables_write disables_all : Act

unfoldable pub mask_behind : Act → ℕ → ℕ
mask_behind enables_read events = enable_read events
mask_behind enables_write events = enable_write events
mask_behind disables_read events = disable_read events
mask_behind disables_write events = disable_write events
mask_behind disables_all events = disable_all events

abbrev pub or_keep : {K : Type 0} → K → Option K → K
or_keep k none = k
or_keep k (some k') = k'

-- `fd` is the descriptor of each channel.
module _ {K : Type 0} (e : Epoll K) (fd : ℕ → ℕ) where
  -- The channel, as the poller sees it.
  abbrev pub polled : ℕ → Registry K → Polled
  polled c r = record { channel = c; fd = fd c; events = r.events c; index = r.index c }

  -- `Channel::Update`; an error of epoll_ctl is fatal.
  unfoldable pub update : ℕ → Registry K → Option (Registry K)
  update c r = do
    (index, map, op) ← update_channel true (polled c r) r.channel_map
    kernel ← e.epoll_ctl op (fd c) c (r.events c) r.kernel
    some (record {
      events = r.events;
      index = set_at c index r.index;
      added_to_loop = set_at c true r.added_to_loop;
      channel_map = map;
      kernel = kernel;
    })

  -- `EnableReadEvent` to `DisableAllEvent`
  unfoldable pub act : Act → ℕ → Registry K → Option (Registry K)
  act a c r = update c (record r { events = set_at c (mask_behind a (r.events c)) r.events })

  -- The deletions of RemoveChannel; an error is only logged.
  unfoldable pub delete_all : ℕ → ℕ → List Operation → K → K
  delete_all c events [] k = k
  delete_all c events (op ∷ ops) k =
      delete_all c events ops (or_keep k (e.epoll_ctl op (fd c) c events k))

  -- `Channel::Remove`
  unfoldable pub remove : ℕ → Registry K → Option (Registry K)
  remove c r = do
    require (is_none_event (r.events c))
    (index, map, ops) ← remove_channel (polled c r) r.channel_map
    some (record {
      events = r.events;
      index = set_at c index r.index;
      added_to_loop = set_at c false r.added_to_loop;
      channel_map = map;
      kernel = delete_all c (r.events c) ops r.kernel;
    })

  -- `~Channel`, outside HandleEvent.
  unfoldable pub destroy_channel : ℕ → Registry K → Option (Registry K)
  destroy_channel c r = do require (not (r.added_to_loop c)); some r

  -- What the constructor of EventLoop does to the channels of its timerfd, in the constructor of
  -- TimerQueue, and of its eventfd.
  unfoldable pub open_loop : ℕ → ℕ → Registry K → Option (Registry K)
  open_loop wakeup timer r = do r1 ← act enables_read timer r; act enables_read wakeup r1
