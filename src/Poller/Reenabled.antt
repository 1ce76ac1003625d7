-- ===== src/Poller/Reenabled.antt =====
-- A channel that has lost all its events, and gets some again.
use evk.Prelude.{
  ℕ, ◌≡◌, refl, ap, ◌∙◌, some, length, get_elem?, set, Bool, true, false, ltb, ◌==◌, eq→==,
  if◌then◌else◌,
}
use evk.Prelude.Int.{ℤ, pos, negsuc}
use evk.Assoc.{find, is_absent, is_at}
use evk.Poller.{
  Pollfd, Poller, Watched, negated, refresh, modify_channel, add_channel, update_channel,
}
use evk.Poller.Slots.{get-set, get-within}

either : (b : Bool) (z : ℤ) → (if b then z else z) ≡ z
either true z = refl
either false z = refl

-- UpdateChannel of a channel whose slot has the negated descriptor, as an update without events leaves
-- it: no assert fails, whatever the events are now; and the slot keeps the negated descriptor, so that
-- poll(2) goes on passing over the channel.
pub update_channel-negated :
    (ch : Watched) (p : Poller) (idx : ℕ) (pfd : Pollfd)
    → p.index ch.channel ≡ pos idx
    → find ch.fd p.channel_map ≡ some ch.channel
    → ltb idx (length p.channel_map) ≡ true
    → get_elem? p.pollfd_list idx ≡ some pfd
    → pfd.fd ≡ negsuc ch.fd
    → (p' : Poller) × (update_channel ch p ≡ some p')
      × (get_elem? p'.pollfd_list idx
          ≡ some (record { fd = negsuc ch.fd; events = ch.events; revents = 0 }))
unfolding update_channel modify_channel is_absent is_at negated refresh
update_channel-negated ch p idx pfd index_i found inside slot is_negated = (
  record p { pollfd_list = set p.pollfd_list idx (refresh ch pfd) },
  ap (λ (z : ℤ). elim z [ pos i ↦ modify_channel i ch p | negsuc n ↦ add_channel ch p ]) index_i
      ∙ rw
          (
            found,
            eq→== ch.channel ch.channel refl,
            inside,
            slot,
            is_negated,
            eq→== ch.fd ch.fd refl,
          )
          refl,
  get-set idx idx (refresh ch pfd) p.pollfd_list
      ∙ rw (eq→== idx idx refl, get-within idx pfd p.pollfd_list slot, is_negated)
          (ap (λ z. some (record { fd = z; events = ch.events; revents = 0 }))
            (either (ch.events == 0) (negsuc ch.fd))),
)
