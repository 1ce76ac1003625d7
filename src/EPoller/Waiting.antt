-- ===== src/EPoller/Waiting.antt =====
-- EPoller::poll and FillActiveChannels: what becomes of the events that epoll_wait reports.
use evk.Prelude.{
  ℕ, ◌*◌, ◌<◌, ◌≤◌, ◌≡◌, refl, List, [], ◌∷◌, map, Option, some, ◌>>=◌, ◌>>◌, require, length, Bool,
  true, ◌&&◌, leb, le→leb, ◌==◌, if◌then◌else◌, arith, Bool-cases, inl, inr,
}
use evk.Assoc.{find, is_at}

-- struct epoll_event: the channel that its pointer leads to, with its descriptor, and the events.
pub record Ready : Type 0 where
  pub channel : ℕ
  pub fd : ℕ
  pub events : ℕ

-- What epoll_wait returned: the events that it wrote, or -1 with an error number.
pub data Waited : Type 0 where
  ready : List Ready → Waited
  failed : ℕ → Waited

-- The channels put behind the active ones, each with its `revents_`.
unfoldable pub fill : List (ℕ × ℕ) → List Ready → Option (List (ℕ × ℕ))
fill m [] = some []
fill m (e ∷ events) = do
  require (is_at e.channel (find e.fd m))
  active ← fill m events
  some ((e.channel, e.events) ∷ active)

unfoldable pub fill_active_channels : List (ℕ × ℕ) → ℕ → List Ready → Option (List (ℕ × ℕ))
fill_active_channels m size events = do require (leb (length events) size); fill m events

-- `poll`, of the size of `event_list_`: its new size, and the active channels.
unfoldable pub poll : List (ℕ × ℕ) → ℕ → Waited → Option (ℕ × List (ℕ × ℕ))
poll m size (failed errno) = some (size, [])
poll m size (ready []) = some (size, [])
poll m size (ready (e ∷ events)) = do
  active ← fill_active_channels m size (e ∷ events)
  some (if length (e ∷ events) == size then size * 2 else size, active)

abbrev pub are_known : List (ℕ × ℕ) → List Ready → Bool
are_known m [] = true
are_known m (e ∷ events) = is_at e.channel (find e.fd m) && are_known m events

abbrev pub reported : Ready → ℕ × ℕ
reported e = (e.channel, e.events)

fill_lem :
    (m : List (ℕ × ℕ)) (events : List Ready)
    → are_known m events ≡ true
    → fill m events ≡ some (map reported events)
unfolding fill
fill_lem m [] h = refl
fill_lem m (e ∷ events) h =
    let known : is_at e.channel (find e.fd m) ≡ true = ground (arith, h) in
    let rest : are_known m events ≡ true = ground (arith, h) in
    rw (known, fill_lem m events rest) refl

-- If the map names the channel of each event, and epoll_wait wrote no more than the list holds, poll
-- returns: the active channels are those of the events, each once, in order; and the list has grown if
-- it was full, so that the next call has room for more events than this one reported.
pub poll_lem :
    (m : List (ℕ × ℕ)) (size : ℕ) (events : List Ready)
    → are_known m events ≡ true
    → 0 < size
    → length events ≤ size
    → (size' : ℕ) × (poll m size (ready events) ≡ some (size', map reported events))
      × (length events < size')
      × (size ≤ size')
unfolding poll fill_active_channels
poll_lem m size [] h some_room fits = (size, refl, some_room, omega arith)
poll_lem m size (e ∷ events) h some_room fits = elim (Bool-cases (length (e ∷ events) == size)) [
  | inl full ↦ (
    size * 2,
    rw (le→leb _ _ fits, fill_lem m (e ∷ events) h, full) refl,
    ground arith,
    omega arith,
  )
  | inr room ↦
      (size, rw (le→leb _ _ fits, fill_lem m (e ∷ events) h, room) refl, ground arith, omega arith)
]
