-- ===== src/Registry/InStep.antt =====
-- How what epoll watches and what the channels ask for are tied together.
use evk.Prelude.{
  ℕ, List, Option, some, none, ◌≡◌, refl, sym, ap, ◌∙◌, Bool, true, false, ◌==◌, eq→==,
  if◌then◌else◌, arith, Bool-cases, inl, inr,
}
use mathlib.Core.Bool.{true≢false}
use evk.Assoc.{find, is_at}
use evk.EPoller.{Index, new, added}
use evk.Registry.{Epoll, Registry, set_at}

abbrev pub is_added : Index → Bool
is_added added = true
is_added _ = false

-- What is to be registered for the channel found at a descriptor.
abbrev pub watched : (ℕ → ℕ) → Option ℕ → Option (ℕ × ℕ)
watched events none = none
watched events (some c) = some (c, events c)

abbrev pub is_of : (ℕ → ℕ) → ℕ → Option ℕ → Bool
is_of fd f none = true
is_of fd f (some c) = fd c == f

-- No other channel stands there.
abbrev pub is_free : ℕ → Option ℕ → Bool
is_free c none = true
is_free c (some d) = d == c

pub record InStep {K : Type 0} (e : Epoll K) (fd : ℕ → ℕ) (r : Registry K) : Type 0 where
  -- The epoll instance watches each channel of the map for the events of its mask, and no more.
  pub interest : (f : ℕ) → e.interest r.kernel f ≡ watched r.events (find f r.channel_map)
  pub owner : (f : ℕ) → is_of fd f (find f r.channel_map) ≡ true
  -- The map names the channels whose index says so, at their descriptors.
  pub named : (c : ℕ) → is_at c (find (fd c) r.channel_map) ≡ is_added (r.index c)
  pub known : (c : ℕ) → r.index c ≡ (if is_added (r.index c) then added else new)
  pub flag : (c : ℕ) → r.added_to_loop c ≡ is_added (r.index c)

pub the_same : (a b : ℕ) → (a == b) ≡ true → a ≡ b
the_same a b h = ground arith

-- Another mask of `c` is of no account at another descriptor.
watched_elsewhere :
    (fd events : ℕ → ℕ) (c mask f : ℕ) (o : Option ℕ)
    → (f == fd c) ≡ false
    → is_of fd f o ≡ true
    → watched events o ≡ watched (set_at c mask events) o
watched_elsewhere fd events c mask f none d h = refl
watched_elsewhere fd events c mask f (some x) d h = elim (Bool-cases (x == c)) [
  | inl same ↦
      absurd (true≢false (sym h ∙ ap (λ y. fd y == f) (the_same x c same) ∙ ground (arith, d)))
  | inr differs ↦ rw differs refl
]

not_at : (c x : ℕ) (o : Option ℕ) → (x == c) ≡ false → is_free c o ≡ true → is_at x o ≡ false
unfolding is_at
not_at c x none d h = refl
not_at c x (some y) d h = ground (arith, d, h)

pub free_at : (c : ℕ) (o : Option ℕ) → is_at c o ≡ true → is_free c o ≡ true
unfolding is_at
free_at c none h = refl
free_at c (some x) h = h

module _ {K : Type 0} (e : Epoll K) (fd : ℕ → ℕ) (r : Registry K) (i : InStep e fd r) (c : ℕ)
    (map : List (ℕ × ℕ)) (kernel : K) where
  -- No other channel of its descriptor is in the map.
  displaced :
      (x : ℕ)
      → (x == c) ≡ false
      → (fd x == fd c) ≡ true
      → is_free c (find (fd c) r.channel_map) ≡ true
      → false ≡ is_added (r.index x)
  displaced x d together free =
      sym (not_at c x (find (fd c) r.channel_map) d free)
      ∙ ap (λ g. is_at x (find g r.channel_map)) (sym (the_same (fd x) (fd c) together))
      ∙ i.named x

  -- The channel stands at its descriptor, with the mask `mask`.
  pub added-InStep :
      (mask : ℕ)
      → is_free c (find (fd c) r.channel_map) ≡ true
      → ((f : ℕ) → find f map ≡ (if f == fd c then some c else find f r.channel_map))
      → ((f : ℕ)
          → e.interest kernel f ≡ (if f == fd c then some (c, mask) else e.interest r.kernel f))
      → InStep e fd (record {
        events = set_at c mask r.events;
        index = set_at c added r.index;
        added_to_loop = set_at c true r.added_to_loop;
        channel_map = map;
        kernel = kernel;
      })
  added-InStep mask free found watches = record {
    interest = λ f.
        rw (watches f, found f)
          (elim (Bool-cases (f == fd c)) [
            | inl same ↦ rw same (rw (eq→== c c refl) refl)
            | inr d ↦ rw d (
                i.interest f
                ∙ watched_elsewhere fd r.events c mask f (find f r.channel_map) d (i.owner f))
          ]);
    owner = λ f. rw (found f) (elim (Bool-cases (f == fd c)) [
      | inl same ↦ rw same (eq→== (fd c) f (sym (the_same f (fd c) same)))
      | inr d ↦ rw d (i.owner f)
    ]);
    named = λ x. rw (found (fd x)) (elim (Bool-cases (x == c)) [
      | inl same ↦
          rw (the_same x c same)
            (unfold is_at in rw (eq→== (fd c) (fd c) refl, eq→== c c refl) refl)
      | inr d ↦ rw d (elim (Bool-cases (fd x == fd c)) [
        | inl together ↦
            rw together (not_at c x (some c) d (eq→== c c refl) ∙ displaced x d together free)
        | inr apart ↦ rw apart (i.named x)
      ])
    ]);
    known = λ x. elim (Bool-cases (x == c)) [ inl same ↦ rw same refl | inr d ↦ rw d (i.known x) ];
    flag = λ x. elim (Bool-cases (x == c)) [ inl same ↦ rw same refl | inr d ↦ rw d (i.flag x) ];
  }

  -- The channel is gone.
  pub removed-InStep :
      is_at c (find (fd c) r.channel_map) ≡ true
      → ((f : ℕ) → find f map ≡ (if f == fd c then none else find f r.channel_map))
      → ((f : ℕ) → e.interest kernel f ≡ (if f == fd c then none else e.interest r.kernel f))
      → InStep e fd (record {
        events = r.events;
        index = set_at c new r.index;
        added_to_loop = set_at c false r.added_to_loop;
        channel_map = map;
        kernel = kernel;
      })
  removed-InStep here found watches = record {
    interest = λ f.
        rw (watches f, found f)
          (elim (Bool-cases (f == fd c)) [ inl same ↦ rw same refl | inr d ↦ rw d (i.interest f) ]);
    owner = λ f.
        rw (found f)
          (elim (Bool-cases (f == fd c)) [ inl same ↦ rw same refl | inr d ↦ rw d (i.owner f) ]);
    named = λ x. rw (found (fd x)) (elim (Bool-cases (x == c)) [
      | inl same ↦
          rw (the_same x c same)
            (unfold is_at in rw (eq→== (fd c) (fd c) refl, eq→== c c refl) refl)
      | inr d ↦ rw d (elim (Bool-cases (fd x == fd c)) [
        | inl together ↦
            rw together
              (unfold is_at in displaced x d together (free_at c (find (fd c) r.channel_map) here))
        | inr apart ↦ rw apart (i.named x)
      ])
    ]);
    known = λ x. elim (Bool-cases (x == c)) [ inl same ↦ rw same refl | inr d ↦ rw d (i.known x) ];
    flag = λ x. elim (Bool-cases (x == c)) [ inl same ↦ rw same refl | inr d ↦ rw d (i.flag x) ];
  }
