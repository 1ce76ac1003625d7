-- ===== src/Poller/Tests.antt =====
-- The theorems on the poller, at three channels of which one has lost its events.
use evk.Prelude.{
  ℕ, zero, suc, ◌≡◌, refl, [], ◌∷◌, some, get_elem?, true, ◌==◌, if◌then◌else◌, arith,
}
use evk.Prelude.Int.{pos, negsuc}
use evk.Assoc.{find}
use evk.Poller.{Poller, Watched, update_channel, fd_at_end}
use evk.Poller.InStep.{Inv, is_filled}
use evk.Poller.Remove.{Removes, remove_channel-Inv}
use evk.Poller.Reenabled.{update_channel-negated}

-- The channel 10 n stands for the descriptor n, in the order 5, 6, 7; that of 6 is passed over.
abbrev three : Poller
three = record {
  pollfd_list =
      record { fd = pos 5; events = 3; revents = 0 }
      ∷ record { fd = negsuc 6; events = 0; revents = 0 }
      ∷ record { fd = pos 7; events = 3; revents = 0 }
      ∷ [];
  channel_map = (5, 50) ∷ (6, 60) ∷ (7, 70) ∷ [];
  index = λ c.
      if c == 50 then pos 0 else if c == 60 then pos 1 else if c == 70 then pos 2 else negsuc 0;
}

abbrev silent : Watched
silent = record { channel = 60; fd = 6; events = 0 }

three-Inv : Inv three
unfolding find fd_at_end
three-Inv = record { placed = λ fd. ground arith; filled = all_filled }
  where
    all_filled :
        (k : ℕ) → is_filled three.channel_map three.index k (get_elem? three.pollfd_list k) ≡ true
    all_filled zero = refl
    all_filled (suc zero) = refl
    all_filled (suc (suc zero)) = refl
    all_filled (suc (suc (suc k))) = refl

remove_channel-Inv_example : (p' : Poller) × Removes silent three p'
unfolding find
remove_channel-Inv_example = remove_channel-Inv silent three three-Inv refl refl

update_channel-negated_example :
    (p' : Poller) × (update_channel (record silent { events = 3 }) three ≡ some p')
    × (get_elem? p'.pollfd_list 1 ≡ some (record { fd = negsuc 6; events = 3; revents = 0 }))
unfolding find
update_channel-negated_example =
    update_channel-negated (record silent { events = 3 }) three 1
      (record { fd = negsuc 6; events = 0; revents = 0 }) refl refl refl refl refl
