-- ===== src/BTreeSet.antt =====
-- `BTreeSet<T>` of Rust's `alloc`: the members in the order that `Ord` gives to `T`. Members that
-- compare equal need not be equal.
pub mod Laws
use rust_proof.Base.{Bool, true, false, List, [], ◌∷◌, ◌≡◌, Ordering, swap, if◌then◌else◌}

-- The contract of the trait `Ord`: a total preorder.
pub record Ord (A : Type 0) : Type 0 where
  pub cmp : A → A → Ordering
  pub reflexive : (a : A) → cmp a a ≡ Ordering.eq
  pub swapped : (a b : A) → cmp b a ≡ swap (cmp a b)
  pub transitive :
      (a b c : A) → cmp a b ≡ Ordering.lt → cmp b c ≡ Ordering.lt → cmp a c ≡ Ordering.lt
  pub congruent : (a b c : A) → cmp a b ≡ Ordering.eq → cmp a c ≡ cmp b c

module _ {A : Type 0} ⦃o : Ord A⦄ where
  unfoldable pub contains : A → List A → Bool
  contains a [] = false
  contains a (x ∷ xs) = elim (o.cmp a x) [
    | Ordering.lt ↦ false
    | Ordering.eq ↦ true
    | Ordering.gt ↦ contains a xs
  ]

  -- An equal member is kept.
  unfoldable pub insert : A → List A → List A
  insert a [] = a ∷ []
  insert a (x ∷ xs) = elim (o.cmp a x) [
    | Ordering.lt ↦ a ∷ x ∷ xs
    | Ordering.eq ↦ x ∷ xs
    | Ordering.gt ↦ x ∷ insert a xs
  ]

  unfoldable pub remove : A → List A → List A
  remove a [] = []
  remove a (x ∷ xs) = elim (o.cmp a x) [
    | Ordering.lt ↦ x ∷ xs
    | Ordering.eq ↦ xs
    | Ordering.gt ↦ x ∷ remove a xs
  ]

  -- Every member comes after `a`.
  abbrev pub After : A → List A → Type 0
  After a [] = Unit
  After a (x ∷ xs) = o.cmp a x ≡ Ordering.lt

  -- The members rise strictly, so that no two compare equal.
  abbrev pub IsOrderedSet : List A → Type 0
  IsOrderedSet [] = Unit
  IsOrderedSet (x ∷ xs) = After x xs × IsOrderedSet xs

module _ {A : Type 0} where
  unfoldable pub retain : (A → Bool) → List A → List A
  retain keep [] = []
  retain keep (x ∷ xs) = let rest = retain keep xs in if keep x then x ∷ rest else rest
