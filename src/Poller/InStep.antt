-- ===== src/Poller/InStep.antt =====
-- The channels and the slots of the list name each other, and still do when a slot is given up.
use evk.Prelude.{
  ℕ, ◌≤◌, ◌≡◌, refl, sym, ap, ◌∙◌, List, Option, some, none, get_elem?, Bool, true, false, ltb,
  ◌==◌, eq→==, if◌then◌else◌, arith, Bool-cases, inl, inr,
}
use mathlib.Core.Option.{some-injective}
use mathlib.Core.Bool.{false≢true}
use evk.Prelude.Int.{ℤ, pos, negsuc, eq_int}
use evk.Assoc.{find, erase}
use evk.Assoc.Laws.{find-erase}
use evk.Poller.{Pollfd, Poller, Watched, fd_at_end}

-- Whether the slot is that of the descriptor, as it stands or negated.
abbrev pub names : ℕ → Option Pollfd → Bool
names fd none = false
names fd (some s) = fd_at_end s.fd == fd

abbrev pub stands : List Pollfd → ℕ → ℤ → Bool
stands list fd (pos i) = names fd (get_elem? list i)
stands list fd (negsuc n) = false

-- Whether the channel found at a descriptor has its slot at its index.
abbrev pub is_placed : List Pollfd → (ℕ → ℤ) → ℕ → Option ℕ → Bool
is_placed list index fd none = true
is_placed list index fd (some c) = stands list fd (index c)

abbrev pub has_index : (ℕ → ℤ) → ℕ → Option ℕ → Bool
has_index index k none = false
has_index index k (some c) = eq_int (index c) (pos k)

-- Whether the slot at `k` is that of a channel whose index is `k`.
abbrev pub is_filled : List (ℕ × ℕ) → (ℕ → ℤ) → ℕ → Option Pollfd → Bool
is_filled m index k none = true
is_filled m index k (some s) = has_index index k (find (fd_at_end s.fd) m)

pub record Inv (p : Poller) : Type 0 where
  pub placed : (fd : ℕ) → is_placed p.pollfd_list p.index fd (find fd p.channel_map) ≡ true
  pub filled : (k : ℕ) → is_filled p.channel_map p.index k (get_elem? p.pollfd_list k) ≡ true

as_index : (z : ℤ) (k : ℕ) → eq_int z (pos k) ≡ true → z ≡ pos k
as_index (pos n) k h = ap pos (ground (arith, h))
as_index (negsuc n) k h = absurd (false≢true h)

same_index : (i k : ℕ) → pos i ≡ pos k → i ≡ k
same_index i k e = ap index_of e
  where
    index_of : ℤ → ℕ
    index_of (pos n) = n
    index_of (negsuc n) = n

-- A channel that stands for its descriptor has a slot.
pub slot_of :
    (list : List Pollfd) (fd : ℕ) (z : ℤ)
    → stands list fd z ≡ true
    → (i : ℕ) × (s : Pollfd) × (z ≡ pos i) × (get_elem? list i ≡ some s) × (fd_at_end s.fd ≡ fd)
slot_of list fd (negsuc n) h = absurd (false≢true h)
slot_of list fd (pos i) h = go (get_elem? list i) refl h
  where
    go :
        (o : Option Pollfd)
        → get_elem? list i ≡ o
        → names fd o ≡ true
        → (j : ℕ) × (s : Pollfd) × (pos i ≡ pos j)
          × (get_elem? list j ≡ some s)
          × (fd_at_end s.fd ≡ fd)
    go none e g = absurd (false≢true g)
    go (some s) e g = (i, s, refl, e, ground (arith, g))

-- The channel of a slot.
pub channel_of :
    (m : List (ℕ × ℕ)) (index : ℕ → ℤ) (k : ℕ) (s : Pollfd)
    → has_index index k (find (fd_at_end s.fd) m) ≡ true
    → (c : ℕ) × (find (fd_at_end s.fd) m ≡ some c) × (index c ≡ pos k)
channel_of m index k s h = go (find (fd_at_end s.fd) m) refl h
  where
    go :
        (o : Option ℕ)
        → find (fd_at_end s.fd) m ≡ o
        → has_index index k o ≡ true
        → (c : ℕ) × (find (fd_at_end s.fd) m ≡ some c) × (index c ≡ pos k)
    go none e g = absurd (false≢true g)
    go (some c) e g = (c, e, as_index (index c) k g)

same_fd :
    (list : List Pollfd) (j k : ℕ) (x y : Pollfd)
    → get_elem? list j ≡ some x
    → get_elem? list k ≡ some y
    → j ≡ k
    → fd_at_end x.fd ≡ fd_at_end y.fd
same_fd list j k x y a b e =
    ap (λ (s : Pollfd). fd_at_end s.fd) (some-injective x y (sym a ∙ ap (get_elem? list) e ∙ b))

refuted : (a b : ℕ) → ((a ≡ b) → false ≡ true) → (a == b) ≡ false
refuted a b h = elim (Bool-cases (a == b)) [
  | inl e ↦ absurd (false≢true (h (ground (arith, e))))
  | inr n ↦ n
]

clash : (a b : ℕ) → (a == b) ≡ false → a ≡ b → false ≡ true
clash a b n e = sym n ∙ eq→== a b e

module _ (p : Poller) (inv : Inv p) (ch : Watched) (i n cE : ℕ) (s e : Pollfd)
    (found : find ch.fd p.channel_map ≡ some ch.channel) (index_i : p.index ch.channel ≡ pos i)
    (slot_i : get_elem? p.pollfd_list i ≡ some s) (fd_i : fd_at_end s.fd ≡ ch.fd) (bound : i ≤ n)
    (within : (k : ℕ) (x : Pollfd) → get_elem? p.pollfd_list k ≡ some x → k ≤ n)
    (slot_n : get_elem? p.pollfd_list n ≡ some e)
    (found_n : find (fd_at_end e.fd) p.channel_map ≡ some cE) (index_n : p.index cE ≡ pos n)
    (list' : List Pollfd)
    (at : (k : ℕ)
      → get_elem? list' k
        ≡ (if ltb k n then (if k == i then some e else get_elem? p.pollfd_list k) else none))
    (index' : ℕ → ℤ) (index_at : (c : ℕ) → index' c ≡ (if c == cE then pos i else p.index c)) where
  moved :
      (c fd j : ℕ) (x : Pollfd)
      → (fd == ch.fd) ≡ false
      → p.index c ≡ pos j
      → get_elem? p.pollfd_list j ≡ some x
      → fd_at_end x.fd ≡ fd
      → (c == cE) ≡ true
      → stands list' fd (index' c) ≡ true
  moved c fd j x d a b f same =
      let last : j ≡ n = same_index j n (sym a ∙ ap p.index (ground (arith, same)) ∙ index_n) in
      let of_e : fd_at_end e.fd ≡ fd = sym (same_fd p.pollfd_list j n x e b slot_n last) ∙ f in
      let not_n : (i == n) ≡ false = refuted i n (λ h.
        clash fd ch.fd d (sym of_e ∙ sym (same_fd p.pollfd_list i n s e slot_i slot_n h) ∙ fd_i)) in
      let less : ltb i n ≡ true = ground (arith, not_n, bound) in
      rw (index_at c, same) (rw (at i, less, eq→== i i refl) (eq→== _ _ of_e))

  stayed :
      (c fd j : ℕ) (x : Pollfd)
      → (fd == ch.fd) ≡ false
      → find fd p.channel_map ≡ some c
      → p.index c ≡ pos j
      → get_elem? p.pollfd_list j ≡ some x
      → fd_at_end x.fd ≡ fd
      → (c == cE) ≡ false
      → stands list' fd (index' c) ≡ true
  stayed c fd j x d g a b f differs =
      let not_n : (j == n) ≡ false = refuted j n (λ h. clash c cE differs (
        some-injective c cE (
          sym g
          ∙ ap (λ r. find r p.channel_map) (sym f ∙ same_fd p.pollfd_list j n x e b slot_n h)
          ∙ found_n))) in
      let not_i : (j == i) ≡ false =
        refuted j i
          (λ h. clash fd ch.fd d (sym f ∙ same_fd p.pollfd_list j i x s b slot_i h ∙ fd_i)) in
      let less : ltb j n ≡ true = ground (arith, not_n, within j x b) in
      rw (index_at c, differs, a) (rw (at j, less, not_i, b) (eq→== _ _ f))

  placed' : (fd : ℕ) → is_placed list' index' fd (find fd (erase ch.fd p.channel_map)) ≡ true
  placed' fd = elim (Bool-cases (fd == ch.fd)) [
    | inl same ↦ rw (find-erase ch.fd fd p.channel_map, same) refl
    | inr d ↦
        rw (find-erase ch.fd fd p.channel_map, d)
          (go (find fd p.channel_map) refl (inv.placed fd) d)
  ]
    where
      go :
          (o : Option ℕ)
          → find fd p.channel_map ≡ o
          → is_placed p.pollfd_list p.index fd o ≡ true
          → (fd == ch.fd) ≡ false
          → is_placed list' index' fd o ≡ true
      go none g h d = refl
      go (some c) g h d =
          let (j, x, a, b, f) = slot_of p.pollfd_list fd (p.index c) h in
          elim (Bool-cases (c == cE)) [
            | inl same ↦ moved c fd j x d a b f same
            | inr differs ↦ stayed c fd j x d g a b f differs
          ]

  -- The last slot is another channel's, if the removed one's is not the last.
  pub last_differs : (i == n) ≡ false → (fd_at_end e.fd == ch.fd) ≡ false
  last_differs d = refuted (fd_at_end e.fd) ch.fd (λ h. clash i n d (
      same_index i n (
        sym index_i
        ∙ ap p.index (
            some-injective ch.channel cE
              (sym found ∙ ap (λ r. find r p.channel_map) (sym h) ∙ found_n))
        ∙ index_n)))

  filled' : (k : ℕ) → is_filled (erase ch.fd p.channel_map) index' k (get_elem? list' k) ≡ true
  filled' k = rw (at k) (elim (Bool-cases (ltb k n)) [
    | inl l ↦ elim (Bool-cases (k == i)) [
      | inl same ↦
          let d : (i == n) ≡ false = ground (arith, l, same) in
          rw (l, same)
            (rw (find-erase ch.fd (fd_at_end e.fd) p.channel_map, last_differs d, found_n)
              (rw (index_at cE, eq→== cE cE refl) (ground (arith, same))))
      | inr not_i ↦ rw (l, not_i) (go (get_elem? p.pollfd_list k) (inv.filled k) l not_i)
    ]
    | inr not_less ↦ rw not_less refl
  ])
    where
      go :
          (o : Option Pollfd)
          → is_filled p.channel_map p.index k o ≡ true
          → ltb k n ≡ true
          → (k == i) ≡ false
          → is_filled (erase ch.fd p.channel_map) index' k o ≡ true
      go none h l not_i = refl
      go (some x) h l not_i =
          let (c, g, a) = channel_of p.channel_map p.index k x h in
          let d : (fd_at_end x.fd == ch.fd) ≡ false = refuted (fd_at_end x.fd) ch.fd (λ r.
            clash k i not_i (
              same_index k i (
                sym a
                ∙ ap p.index
                    (some-injective c ch.channel (sym g ∙ ap (λ v. find v p.channel_map) r ∙ found))
                ∙ index_i))) in
          let not_n : (k == n) ≡ false = ground (arith, l) in
          let b : (c == cE) ≡ false =
            refuted c cE (λ r. clash k n not_n (same_index k n (sym a ∙ ap p.index r ∙ index_n))) in
          rw (find-erase ch.fd (fd_at_end x.fd) p.channel_map, d, g)
            (rw (index_at c, b, a) (eq→== k k refl))

  pub given_up-Inv :
      Inv (record { pollfd_list = list'; channel_map = erase ch.fd p.channel_map; index = index' })
  given_up-Inv = record { placed = placed'; filled = filled' }
