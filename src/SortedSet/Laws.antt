-- ===== src/SortedSet/Laws.antt =====
-- What the operations on a set make of membership, of the order and of the size.
use evk.Prelude.{
  suc, ◌≡◌, refl, ap, List, [], ◌∷◌, ◌++◌, true, false, not, ◌&&◌, ◌||◌, arith, length, Bool-cases,
  inl, inr, ◌∙◌, sym, subst,
}
use mathlib.Core.Bool.{false≢true}
use evk.SortedSet.{Order, same, member, insert, erase, before, from, comes_first, is_sorted}

module _ {ℓ} {A : Type ℓ} ⦃o : Order A⦄ where
  pub same_refl : (a : A) → same a a ≡ true
  same_refl a = rw (o.irrefl a) refl

  pub same-eq : (a b : A) → same a b ≡ true → a ≡ b
  same-eq a b h = o.total a b (ground (arith, h)) (ground (arith, h))

  pub member-insert : (b a : A) (xs : List A) → member b (insert a xs) ≡ (same b a || member b xs)
  unfolding member insert
  member-insert b a [] = refl
  member-insert b a (x ∷ xs) = elim (Bool-cases (o.lt a x)) [
    | inl l ↦ rw l refl
    | inr nl ↦ elim (Bool-cases (o.lt x a)) [
      | inl g ↦ rw (nl, g) (ground (arith, member-insert b a xs))
      | inr ng ↦ rw (nl, ng, o.total a x nl ng) (ground arith)
    ]
  ]

  pub length-insert :
      (a : A) (xs : List A) → member a xs ≡ false → length (insert a xs) ≡ suc (length xs)
  unfolding member insert
  length-insert a [] h = refl
  length-insert a (x ∷ xs) h = ground (arith, length-insert a xs)

  pub length-erase :
      (a : A) (xs : List A) → member a xs ≡ true → suc (length (erase a xs)) ≡ length xs
  unfolding member erase
  length-erase a [] h = cc
  length-erase a (x ∷ xs) h = ground (arith, length-erase a xs)

  pub before-append-from : (a : A) (xs : List A) → before a xs ++ from a xs ≡ xs
  unfolding before from
  before-append-from a [] = refl
  before-append-from a (x ∷ xs) = elim (Bool-cases (o.lt x a)) [
    | inl l ↦ rw l (ap (◌∷◌ x) (before-append-from a xs))
    | inr nl ↦ rw nl refl
  ]

  comes_first-insert :
      (x a : A) (xs : List A)
      → o.lt x a ≡ true
      → comes_first x xs ≡ true
      → comes_first x (insert a xs) ≡ true
  unfolding insert
  comes_first-insert x a [] l h = l
  comes_first-insert x a (y ∷ ys) l h = ground (arith, l, h)

  pub insert-sorted : (a : A) (xs : List A) → is_sorted xs ≡ true → is_sorted (insert a xs) ≡ true
  unfolding insert is_sorted
  insert-sorted a [] h = refl
  insert-sorted a (x ∷ xs) h = elim (Bool-cases (o.lt a x)) [
    | inl l ↦ rw l (rw l h)
    | inr nl ↦ elim (Bool-cases (o.lt x a)) [
      | inl g ↦ rw (nl, g) (ground (arith, comes_first-insert x a xs g, insert-sorted a xs, h))
      | inr ng ↦ rw (nl, ng) h
    ]
  ]

  -- Everything behind the head of a sorted list comes after it.
  pub member-lt :
      (x b : A) (xs : List A)
      → comes_first x xs ≡ true
      → is_sorted xs ≡ true
      → member b xs ≡ true
      → o.lt x b ≡ true
  unfolding member is_sorted
  member-lt x b [] f s h = cc
  member-lt x b (y ∷ ys) f s h = elim (Bool-cases (same b y)) [
    | inl e ↦ rw (same-eq b y e) f
    | inr ne ↦
        o.trans x y b f
          (member-lt y b ys (ground (arith, s)) (ground (arith, s)) (ground (arith, h, ne)))
  ]

  -- An element that does not come after the head is not behind it.
  not-member :
      (x b : A) (xs : List A)
      → comes_first x xs ≡ true
      → is_sorted xs ≡ true
      → o.lt x b ≡ false
      → member b xs ≡ false
  not-member x b xs f s h = elim (Bool-cases (member b xs)) [
    | inl m ↦ absurd (false≢true (sym h ∙ member-lt x b xs f s m))
    | inr m ↦ m
  ]

  pub not-member_head :
      (b x : A) (xs : List A)
      → is_sorted (x ∷ xs) ≡ true
      → member b xs ≡ (not (same b x) && member b (x ∷ xs))
  unfolding member is_sorted
  not-member_head b x xs s = elim (Bool-cases (same b x)) [
    | inl h ↦ rw h (
        not-member x b xs (ground (arith, s)) (ground (arith, s))
          (ap (o.lt x) (same-eq b x h) ∙ o.irrefl x))
    | inr h ↦ rw h refl
  ]

  same_apart : (b a x : A) → same a x ≡ false → same b x ≡ true → same b a ≡ false
  same_apart b a x n h = elim (Bool-cases (same b a)) [
    | inl e ↦ absurd (false≢true (sym n ∙ ap (λ y. same y x) (sym (same-eq b a e)) ∙ h))
    | inr e ↦ e
  ]

  tail-sorted : (x : A) (xs : List A) → is_sorted (x ∷ xs) ≡ true → is_sorted xs ≡ true
  unfolding is_sorted
  tail-sorted x xs s = ground (arith, s)

  member-erase_tail :
      (b a x : A) (xs : List A)
      → same a x ≡ false
      → member b (erase a xs) ≡ (not (same b a) && member b xs)
      → member b (x ∷ erase a xs) ≡ (not (same b a) && member b (x ∷ xs))
  unfolding member
  member-erase_tail b a x xs n ih = elim (Bool-cases (same b x)) [
    | inl h ↦ rw (h, same_apart b a x n h) refl
    | inr h ↦ rw h ih
  ]

  pub member-erase :
      (b a : A) (xs : List A)
      → is_sorted xs ≡ true
      → member b (erase a xs) ≡ (not (same b a) && member b xs)
  unfolding erase
  member-erase b a [] s = unfold member in ground arith
  member-erase b a (x ∷ xs) s = elim (Bool-cases (same a x)) [
    | inl e ↦ rw e (
        subst (λ (y : A). member b xs ≡ (not (same b y) && member b (x ∷ xs))) (sym (same-eq a x e))
          (not-member_head b x xs s))
    | inr n ↦ rw n (member-erase_tail b a x xs n (member-erase b a xs (tail-sorted x xs s)))
  ]

  comes_first-erase :
      (x a : A) (xs : List A)
      → comes_first x xs ≡ true
      → is_sorted xs ≡ true
      → comes_first x (erase a xs) ≡ true
  unfolding erase is_sorted
  comes_first-erase x a [] f s = refl
  comes_first-erase x a (y ∷ []) f s = ground (arith, f)
  comes_first-erase x a (y ∷ (z ∷ zs)) f s = ground (arith, f, o.trans x y z f, s)

  pub erase-sorted : (a : A) (xs : List A) → is_sorted xs ≡ true → is_sorted (erase a xs) ≡ true
  unfolding erase is_sorted
  erase-sorted a [] s = refl
  erase-sorted a (x ∷ xs) s = ground (arith, s, comes_first-erase x a xs, erase-sorted a xs)

  pub from-sorted : (a : A) (xs : List A) → is_sorted xs ≡ true → is_sorted (from a xs) ≡ true
  unfolding from is_sorted
  from-sorted a [] s = refl
  from-sorted a (x ∷ xs) s = ground (arith, s, from-sorted a xs)

  -- Nothing that comes before `a` stands from `lower_bound(a)` on.
  not-member_from :
      (b a x : A) (xs : List A)
      → is_sorted (x ∷ xs) ≡ true
      → o.lt x a ≡ false
      → o.lt b a ≡ true
      → member b (x ∷ xs) ≡ false
  unfolding member is_sorted
  not-member_from b a x xs s n l = elim (Bool-cases (same b x)) [
    | inl h ↦ absurd (false≢true (sym n ∙ ap (λ y. o.lt y a) (sym (same-eq b x h)) ∙ l))
    | inr h ↦ rw h (elim (Bool-cases (member b xs)) [
      | inl m ↦ absurd (
          false≢true
            (sym n ∙ o.trans x b a (member-lt x b xs (ground (arith, s)) (ground (arith, s)) m) l))
      | inr m ↦ m
    ])
  ]

  before_head :
      (b a x : A) (xs : List A)
      → o.lt x a ≡ true
      → member b (before a xs) ≡ (o.lt b a && member b xs)
      → member b (x ∷ before a xs) ≡ (o.lt b a && member b (x ∷ xs))
  unfolding member
  before_head b a x xs l ih = elim (Bool-cases (same b x)) [
    | inl h ↦ rw (h, ap (λ y. o.lt y a) (same-eq b x h) ∙ l) refl
    | inr h ↦ rw h ih
  ]

  pub member-before :
      (b a : A) (xs : List A)
      → is_sorted xs ≡ true
      → member b (before a xs) ≡ (o.lt b a && member b xs)
  unfolding before
  member-before b a [] s = unfold member in ground arith
  member-before b a (x ∷ xs) s = elim (Bool-cases (o.lt x a)) [
    | inl l ↦ rw l (before_head b a x xs l (member-before b a xs (tail-sorted x xs s)))
    | inr n ↦ rw n (elim (Bool-cases (o.lt b a)) [
      | inl l ↦ rw (l, not-member_from b a x xs s n l) (unfold member in refl)
      | inr m ↦ rw m (unfold member in refl)
    ])
  ]

  from_head :
      (b a x : A) (xs : List A)
      → o.lt x a ≡ true
      → member b (from a xs) ≡ (not (o.lt b a) && member b xs)
      → member b (from a xs) ≡ (not (o.lt b a) && member b (x ∷ xs))
  unfolding member
  from_head b a x xs l ih = elim (Bool-cases (same b x)) [
    | inl h ↦ rw (h, ih, ap (λ y. o.lt y a) (same-eq b x h) ∙ l) refl
    | inr h ↦ rw h ih
  ]

  pub member-from :
      (b a : A) (xs : List A)
      → is_sorted xs ≡ true
      → member b (from a xs) ≡ (not (o.lt b a) && member b xs)
  unfolding from
  member-from b a [] s = unfold member in ground arith
  member-from b a (x ∷ xs) s = elim (Bool-cases (o.lt x a)) [
    | inl l ↦ rw l (from_head b a x xs l (member-from b a xs (tail-sorted x xs s)))
    | inr n ↦ rw n (elim (Bool-cases (o.lt b a)) [
      | inl l ↦ rw (l, not-member_from b a x xs s n l) refl
      | inr m ↦ rw m refl
    ])
  ]
