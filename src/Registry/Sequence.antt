-- ===== src/Registry/Sequence.antt =====
-- Any sequence of operations on the channels of a loop.
use evk.Prelude.{
  ℕ, List, [], ◌∷◌, Option, some, none, ◌>>=◌, ◌≡◌, refl, sym, ap, ◌∙◌, Bool, true, false, not,
  ◌&&◌, ◌==◌, arith,
}
use evk.Assoc.{find}
use evk.EPoller.{added}
use evk.Registry.{Epoll, Registry, Act, act, remove}
use evk.Registry.InStep.{InStep, is_added, is_free, the_same}
use evk.Registry.Commands.{act-Acts, remove-Removes}

-- What a user of the loop asks for.
pub data Command : Type 0 where
  acts : Act → ℕ → Command
  removes : ℕ → Command

abbrev target : Command → ℕ
target (acts a c) = c
target (removes c) = c

-- None is about the channel.
abbrev pub spares : ℕ → List Command → Bool
spares x [] = true
spares x (y ∷ ys) = not (x == target y) && spares x ys

apart : (x c : ℕ) → (not (x == c) && true) ≡ true → (x == c) ≡ false
apart x c h = ground (arith, h)

first_spares :
    (x : ℕ) (y : Command) (ys : List Command) → spares x (y ∷ ys) ≡ true → spares x (y ∷ []) ≡ true
first_spares x y ys h = ground (arith, h)

later_spares :
    (x : ℕ) (y : Command) (ys : List Command) → spares x (y ∷ ys) ≡ true → spares x ys ≡ true
later_spares x y ys h = ground (arith, h)

module _ {K : Type 0} (e : Epoll K) (fd : ℕ → ℕ) where
  unfoldable pub run_command : Command → Registry K → Option (Registry K)
  run_command (acts a c) r = act e fd a c r
  run_command (removes c) r = remove e fd c r

  unfoldable pub run_commands : List Command → Registry K → Option (Registry K)
  run_commands [] r = some r
  run_commands (x ∷ xs) r = do r' ← run_command x r; run_commands xs r'

  -- A channel is used only while no other stands at its descriptor, and removed only when it stands
  -- there with an empty mask.
  unfoldable pub is_legal : Command → Registry K → Bool
  is_legal (acts a c) r = is_free c (find (fd c) r.channel_map)
  is_legal (removes c) r = is_added (r.index c) && (r.events c == 0)

  abbrev pub legal_behind : (Registry K → Bool) → Option (Registry K) → Bool
  legal_behind f none = true
  legal_behind f (some r) = f r

  unfoldable pub are_legal : List Command → Registry K → Bool
  are_legal [] r = true
  are_legal (x ∷ xs) r = is_legal x r && legal_behind (are_legal xs) (run_command x r)

  -- What operations leave, whose indexes stay but for the channels that they are about.
  record Keeps (xs : List Command) (r r' : Registry K) : Type 0 where
    inv : InStep e fd r'
    index : (x : ℕ) → spares x xs ≡ true → r'.index x ≡ r.index x

  one-Keeps :
      (x : Command) (r : Registry K)
      → InStep e fd r
      → is_legal x r ≡ true
      → (r' : Registry K) × (run_command x r ≡ some r') × Keeps (x ∷ []) r r'
  unfolding run_command is_legal
  one-Keeps (acts a c) r i h =
      let (r', x) = act-Acts e fd a c r i h in
      (
        r',
        x.run,
        record { inv = x.inv; index = λ y s. ap (λ f. f y) x.index ∙ rw (apart y c s) refl },
      )
  one-Keeps (removes c) r i h =
      let stands : is_added (r.index c) ≡ true = ground (arith, h) in
      let known : r.index c ≡ added = i.known c ∙ rw stands refl in
      let (r', x) = remove-Removes e fd c r i known (the_same (r.events c) 0 (ground (arith, h))) in
      (
        r',
        x.run,
        record { inv = x.inv; index = λ y s. ap (λ f. f y) x.gone ∙ rw (apart y c s) refl },
      )

  many-Keeps :
      (xs : List Command) (r : Registry K)
      → InStep e fd r
      → are_legal xs r ≡ true
      → (r' : Registry K) × (run_commands xs r ≡ some r') × Keeps xs r r'
  unfolding run_commands are_legal
  many-Keeps [] r i h = (r, refl, record { inv = i; index = λ x s. refl })
  many-Keeps (x ∷ xs) r i h =
      let (r1, run, k1) = one-Keeps x r i (ground (arith, h)) in
      let rest : are_legal xs r1 ≡ true =
        sym (ap (legal_behind (are_legal xs)) run) ∙ ground (arith, h) in
      let (r2, runs, k2) = many-Keeps xs r1 k1.inv rest in
      (
        r2,
        rw run runs,
        record {
          inv = k2.inv;
          index = λ y s. k2.index y (later_spares y x xs s) ∙ k1.index y (first_spares y x xs s);
        },
      )

  -- Any sequence of legal operations on the channels of a loop runs to its end: no assert fails and
  -- epoll_ctl never fails; and behind it the epoll instance watches exactly the channels of the map,
  -- each for the events of its mask.
  pub run-InStep :
      (xs : List Command) (r : Registry K)
      → InStep e fd r
      → are_legal xs r ≡ true
      → (r' : Registry K) × (run_commands xs r ≡ some r') × InStep e fd r'
  run-InStep xs r i h = let (r', run, k) = many-Keeps xs r i h in (r', run, k.inv)

  -- They leave the index of a channel that none of them is about.
  pub run_spares :
      (xs : List Command) (r : Registry K)
      → InStep e fd r
      → are_legal xs r ≡ true
      → (r' : Registry K) × (run_commands xs r ≡ some r')
        × InStep e fd r'
        × ((x : ℕ) → spares x xs ≡ true → r'.index x ≡ r.index x)
  run_spares xs r i h = let (r', run, k) = many-Keeps xs r i h in (r', run, k.inv, k.index)
