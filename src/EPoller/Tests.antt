-- ===== src/EPoller/Tests.antt =====
-- The theorems on the poller, at a map of two channels.
use evk.Prelude.{ℕ, ◌≡◌, refl, List, [], ◌∷◌, some, length, map, ◌<◌, ◌≤◌, arith}
use evk.Assoc.{find, is_at}
use evk.EPoller.Waiting.{Ready, ready, poll, reported, poll_lem}

-- Channels 1 and 2 at descriptors 5 and 6.
abbrev two : List (ℕ × ℕ)
two = (5, 1) ∷ (6, 2) ∷ []

-- Both channels are ready, in a list of two.
abbrev both : List Ready
both = record { channel = 2; fd = 6; events = 1 } ∷ record { channel = 1; fd = 5; events = 4 } ∷ []

poll_lem_example :
    (size' : ℕ) × (poll two 2 (ready both) ≡ some (size', map reported both))
    × (length both < size')
    × (2 ≤ size')
unfolding find is_at
poll_lem_example = poll_lem two 2 both refl (omega arith) (omega arith)
