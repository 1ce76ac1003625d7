-- ===== src/SortedSet.antt =====
-- A std::set as the list of its elements in ascending order, over any strict order.
pub mod Laws
use evk.Prelude.{◌≡◌, List, [], ◌∷◌, Bool, true, false, not, ◌&&◌, ◌||◌, if◌then◌else◌}

pub record Order {ℓ} (A : Type ℓ) : Type ℓ where
  pub lt : A → A → Bool
  pub irrefl : (a : A) → lt a a ≡ false
  pub trans : (a b c : A) → lt a b ≡ true → lt b c ≡ true → lt a c ≡ true
  pub total : (a b : A) → lt a b ≡ false → lt b a ≡ false → a ≡ b

module _ {ℓ} {A : Type ℓ} ⦃o : Order A⦄ where
  -- Neither comes before the other.
  abbrev pub same : A → A → Bool
  same a b = not (o.lt a b) && not (o.lt b a)

  -- `find(a) != end()`
  unfoldable pub member : A → List A → Bool
  member a [] = false
  member a (x ∷ xs) = same a x || member a xs

  unfoldable pub insert : A → List A → List A
  insert a [] = a ∷ []
  insert a (x ∷ xs) =
      let rest = insert a xs in
      if o.lt a x then a ∷ (x ∷ xs) else if o.lt x a then x ∷ rest else x ∷ xs

  unfoldable pub erase : A → List A → List A
  erase a [] = []
  erase a (x ∷ xs) = let rest = erase a xs in if same a x then xs else x ∷ rest

  -- The elements in front of `lower_bound(a)`, and those from it on.
  unfoldable pub before : A → List A → List A
  before a [] = []
  before a (x ∷ xs) = let rest = before a xs in if o.lt x a then x ∷ rest else []

  unfoldable pub from : A → List A → List A
  from a [] = []
  from a (x ∷ xs) = let rest = from a xs in if o.lt x a then rest else x ∷ xs

  abbrev pub comes_first : A → List A → Bool
  comes_first a [] = true
  comes_first a (x ∷ xs) = o.lt a x

  unfoldable pub is_sorted : List A → Bool
  is_sorted [] = true
  is_sorted (x ∷ xs) = comes_first x xs && is_sorted xs
