-- ===== src/Poller/Remove.antt =====
-- RemoveChannel: the last slot takes the place of the one that is given up.
use evk.Prelude.{
  ℕ, ◌-◌, ◌≤◌, ◌≡◌, refl, sym, ap, ◌∙◌, List, some, none, length, get_elem?, set, take, require,
  ◌>>◌, true, false, ltb, ◌==◌, eq→==, if◌then◌else◌, arith, Bool-cases, inl, inr, ltb→lt,
}
use evk.Prelude.Int.{ℤ, pos, negsuc}
use evk.Assoc.{find, erase, is_absent, is_at}
use evk.Assoc.Laws.{find-erase}
use evk.Poller.{
  Pollfd, Poller, Watched, set_index, fd_at_end, swap_pop, remove_slot, remove_channel,
}
use evk.Poller.Slots.{get-take, get-set, get-some, get-within}
use evk.Poller.InStep.{Inv, is_placed, is_filled, slot_of, channel_of, given_up-Inv, last_differs}

last_at :
    (i n k : ℕ) (e : Pollfd) (list : List Pollfd)
    → (i == n) ≡ true
    → get_elem? (take n list) k
      ≡ (if ltb k n then (if k == i then some e else get_elem? list k) else none)
last_at i n k e list h = get-take n k list ∙ ground (arith, h)

swap_at :
    (i k : ℕ) (s e : Pollfd) (list : List Pollfd)
    → ltb i (length list) ≡ true
    → get_elem? (swap_pop i s e list) k
      ≡ (if ltb k (length list - 1) then (if k == i then some e else get_elem? list k) else none)
unfolding swap_pop
swap_at i k s e list h =
    get-take (length list - 1) k _
    ∙ ap (λ o. if ltb k (length list - 1) then o else none)
        (get-set (length list - 1) k s (set list i e))
    ∙ ground (arith, get-set i k e list, h)

-- The index of the last channel is set, if it has another slot.
index_kept :
    (index : ℕ → ℤ) (i cE : ℕ)
    → index cE ≡ pos i
    → (c : ℕ) → index c ≡ (if c == cE then pos i else index c)
index_kept index i cE h c = elim (Bool-cases (c == cE)) [
  | inl same ↦ rw same (ap index (ground (arith, same)) ∙ h)
  | inr d ↦ rw d refl
]

-- Behind its asserts.
removes :
    (ch : Watched) (i : ℕ) (p : Poller)
    → find ch.fd p.channel_map ≡ some ch.channel
    → ch.events ≡ 0
    → p.index ch.channel ≡ pos i
    → ltb i (length p.pollfd_list) ≡ true
    → remove_channel ch p ≡ remove_slot i (record p { channel_map = erase ch.fd p.channel_map })
unfolding remove_channel is_absent is_at
removes ch i p found quiet index_i h =
    rw (found, quiet, eq→== ch.channel ch.channel refl)
      (ap
          (λ (z : ℤ). elim z [
            | pos idx ↦ (do
              require (ltb idx (length p.pollfd_list))
              remove_slot idx (record p { channel_map = erase ch.fd p.channel_map }))
            | negsuc n ↦ none
          ])
          index_i
        ∙ rw h refl)

slot_is_last :
    (i : ℕ) (q : Poller)
    → (i == length q.pollfd_list - 1) ≡ true
    → remove_slot i q
      ≡ some (record q { pollfd_list = take (length q.pollfd_list - 1) q.pollfd_list })
unfolding remove_slot
slot_is_last i q h = rw h refl

slot_is_swapped :
    (i cE : ℕ) (s e : Pollfd) (q : Poller)
    → (i == length q.pollfd_list - 1) ≡ false
    → get_elem? q.pollfd_list i ≡ some s
    → get_elem? q.pollfd_list (length q.pollfd_list - 1) ≡ some e
    → find (fd_at_end e.fd) q.channel_map ≡ some cE
    → remove_slot i q
      ≡ some (record q {
        pollfd_list = swap_pop i s e q.pollfd_list;
        index = set_index cE (pos i) q.index;
      })
unfolding remove_slot
slot_is_swapped i cE s e q h a b f = rw (h, a, b, f) refl

-- What RemoveChannel does.
pub record Removes (ch : Watched) (p p' : Poller) : Type 0 where
  pub run : remove_channel ch p ≡ some p'
  pub inv : Inv p'
  pub members :
      (fd : ℕ) → find fd p'.channel_map ≡ (if fd == ch.fd then none else find fd p.channel_map)

-- RemoveChannel of a channel that the map names and that waits for no event, on a poller whose
-- channels and slots name each other: it returns, no assert fails, and they still do, so that the
-- channel whose slot was moved has its new index; the map names nothing at its descriptor, and what it
-- named before at every other.
pub remove_channel-Inv :
    (ch : Watched) (p : Poller)
    → Inv p
    → find ch.fd p.channel_map ≡ some ch.channel
    → ch.events ≡ 0
    → (p' : Poller) × Removes ch p p'
unfolding set_index
remove_channel-Inv ch p inv found quiet =
    let (i, s, index_i, slot_i, fd_i) =
      slot_of p.pollfd_list ch.fd (p.index ch.channel)
        (sym (ap (is_placed p.pollfd_list p.index ch.fd) found) ∙ inv.placed ch.fd) in
    let inside : ltb i (length p.pollfd_list) ≡ true = get-within i s p.pollfd_list slot_i in
    let n : ℕ = length p.pollfd_list - 1 in
    let (e, slot_n) = get-some n p.pollfd_list (ground (arith, inside)) in
    let (cE, found_n, index_n) =
      channel_of p.channel_map p.index n e
        (sym (ap (is_filled p.channel_map p.index n) slot_n) ∙ inv.filled n) in
    let bound : i ≤ n = omega (arith, ltb→lt i _ inside) in
    let within : (k : ℕ) (x : Pollfd) → get_elem? p.pollfd_list k ≡ some x → k ≤ n =
      λ k x h. omega (arith, ltb→lt k _ (get-within k x p.pollfd_list h)) in
    let q : Poller = record p { channel_map = erase ch.fd p.channel_map } in
    elim (Bool-cases (i == n)) [
      | inl last ↦
          let at = λ (k : ℕ). last_at i n k e p.pollfd_list last in
          let kept = index_kept p.index i cE (index_n ∙ ap pos (ground (arith, last))) in
          (
            record q { pollfd_list = take n p.pollfd_list },
            record {
              run = removes ch i p found quiet index_i inside ∙ slot_is_last i q last;
              inv =
                  given_up-Inv p inv ch i n cE s e found index_i slot_i fd_i bound within slot_n
                    found_n index_n (take n p.pollfd_list) at p.index kept;
              members = λ fd. find-erase ch.fd fd p.channel_map;
            },
          )
      | inr d ↦
          let at = λ (k : ℕ). swap_at i k s e p.pollfd_list inside in
          let list' = swap_pop i s e p.pollfd_list in
          let index' = set_index cE (pos i) p.index in
          let still : find (fd_at_end e.fd) q.channel_map ≡ some cE =
            find-erase ch.fd (fd_at_end e.fd) p.channel_map
            ∙ rw
                (last_differs p inv ch i n cE s e found index_i slot_i fd_i bound within slot_n
                  found_n index_n list' at index' (λ c. refl) d)
                found_n in
          (
            record q { pollfd_list = list'; index = index' },
            record {
              run =
                  removes ch i p found quiet index_i inside
                  ∙ slot_is_swapped i cE s e q d slot_i slot_n still;
              inv =
                  given_up-Inv p inv ch i n cE s e found index_i slot_i fd_i bound within slot_n
                    found_n index_n list' at index' (λ c. refl);
              members = λ fd. find-erase ch.fd fd p.channel_map;
            },
          )
    ]
