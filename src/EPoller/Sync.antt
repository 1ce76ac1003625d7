-- ===== src/EPoller/Sync.antt =====
-- The channel map against the indexes that the channels keep: what UpdateChannel and RemoveChannel
-- make of every descriptor.
use evk.Prelude.{ℕ, ◌≡◌, refl, List, ◌∷◌, some, none, true, false, ◌==◌, if◌then◌else◌, eq→==}
use evk.Assoc.{find, erase, is_at, is_absent}
use evk.Assoc.Laws.{find-here, find-erase}
use evk.EPoller.{
  Index, new, added, deleted, Polled, Operation, add, modify, has_channel, update, update_channel,
  is_new, deletes, remove_channel,
}

-- The map knows a channel exactly if its index is not new, and no other channel has its descriptor.
abbrev pub Fits : Index → ℕ → ℕ → List (ℕ × ℕ) → Type 0
Fits new c fd m = find fd m ≡ none
Fits added c fd m = find fd m ≡ some c
Fits deleted c fd m = find fd m ≡ some c

-- The operation for each index.
abbrev pub operation : Index → Operation
operation new = add
operation added = modify
operation deleted = add

-- UpdateChannel on a channel that fits, when epoll_ctl succeeds: it returns; the index is added; the
-- operation is the one for the old index; and the map names the channel at its descriptor, and what
-- it named before at every other.
pub update_channel_lem :
    (ch : Polled) (m : List (ℕ × ℕ))
    → Fits ch.index ch.channel ch.fd m
    → (m' : List (ℕ × ℕ)) × (update_channel true ch m ≡ some (added, m', operation ch.index))
      × ((k : ℕ) → find k m' ≡ (if k == ch.fd then some ch.channel else find k m))
unfolding update_channel update has_channel is_at is_absent find
update_channel_lem ch m fit = go ch.index fit
  where
    go :
        (i : Index)
        → Fits i ch.channel ch.fd m
        → (m' : List (ℕ × ℕ)) × (update_channel true (record ch { index = i }) m
            ≡ some (added, m', operation i))
          × ((k : ℕ) → find k m' ≡ (if k == ch.fd then some ch.channel else find k m))
    go new e = ((ch.fd, ch.channel) ∷ m, rw e refl, λ k. refl)
    go added e = (m, refl, λ k. find-here ch.channel ch.fd k m e)
    go deleted e =
        (m, rw (e, eq→== ch.channel ch.channel refl) refl, λ k. find-here ch.channel ch.fd k m e)

-- RemoveChannel on a channel that fits, is not new and waits for no event: it returns; the index is
-- new again; epoll_ctl deletes what was added; the map names nothing at the channel's descriptor, and
-- what it named before at every other.
pub remove_channel_lem :
    (ch : Polled) (m : List (ℕ × ℕ))
    → find ch.fd m ≡ some ch.channel
    → is_new ch.index ≡ false
    → ch.events ≡ 0
    → (m' : List (ℕ × ℕ)) × (remove_channel ch m ≡ some (new, m', deletes ch.index))
      × ((k : ℕ) → find k m' ≡ (if k == ch.fd then none else find k m))
unfolding remove_channel is_absent
remove_channel_lem ch m here old quiet =
    (erase ch.fd m, rw (here, old, quiet) refl, λ k. find-erase ch.fd k m)
