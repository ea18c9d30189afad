-- ===== src/BTreeSet/Laws.antt =====
-- The laws of the set operations.
use rust_proof.Base.{
  suc, ◌≤◌, ◌≡◌, refl, Bool, true, false, some, List, [], ◌∷◌, arith, length, Ordering, last, All,
  Ordering-cases, inl, inr,
}
use rust_proof.BTreeSet.{Ord, contains, insert, remove, After, IsOrderedSet, retain}

module _ {A : Type 0} ⦃o : Ord A⦄ where
  After-insert :
      (y a : A) (xs : List A) → o.cmp y a ≡ Ordering.lt → After y xs → After y (insert a xs)
  unfolding insert
  After-insert y a [] h k = h
  After-insert y a (x ∷ xs) h k = ground arith

  pub insert-IsOrderedSet : (a : A) (xs : List A) → IsOrderedSet xs → IsOrderedSet (insert a xs)
  unfolding insert
  insert-IsOrderedSet a [] s = (tt, tt)
  insert-IsOrderedSet a (x ∷ xs) s = elim (Ordering-cases (o.cmp a x)) [
    | inl e ↦ rw (e, insert) (e, s)
    | inr (inl e) ↦ rw (e, insert) s
    | inr (inr e) ↦
        rw (e, insert)
          (After-insert x a xs (rw e at (o.swapped a x)) s.0, insert-IsOrderedSet a xs s.1)
  ]

  After-trans : (a b : A) (xs : List A) → o.cmp a b ≡ Ordering.lt → After b xs → After a xs
  After-trans a b [] h k = tt
  After-trans a b (x ∷ xs) h k = o.transitive a b x h k

  After-remove : (y a : A) (xs : List A) → IsOrderedSet xs → After y xs → After y (remove a xs)
  unfolding remove
  After-remove y a [] s k = tt
  After-remove y a (x ∷ xs) s k = ground (arith, After-trans y x xs)

  pub remove-IsOrderedSet : (a : A) (xs : List A) → IsOrderedSet xs → IsOrderedSet (remove a xs)
  unfolding remove
  remove-IsOrderedSet a [] s = tt
  remove-IsOrderedSet a (x ∷ xs) s = elim (Ordering-cases (o.cmp a x)) [
    | inl e ↦ rw (e, remove) s
    | inr (inl e) ↦ rw (e, remove) s.1
    | inr (inr e) ↦ rw (e, remove) (After-remove x a xs s.1 s.0, remove-IsOrderedSet a xs s.1)
  ]

  After-retain :
      (keep : A → Bool) (y : A) (xs : List A)
      → IsOrderedSet xs
      → After y xs
      → After y (retain keep xs)
  unfolding retain
  After-retain keep y [] s k = tt
  After-retain keep y (x ∷ xs) s k = ground (arith, After-retain keep y xs s.1, After-trans y x xs)

  pub retain-IsOrderedSet :
      (keep : A → Bool) (xs : List A) → IsOrderedSet xs → IsOrderedSet (retain keep xs)
  unfolding retain
  retain-IsOrderedSet keep [] s = tt
  retain-IsOrderedSet keep (x ∷ xs) s =
      ground (arith, After-retain keep x xs, retain-IsOrderedSet keep xs s.1)

  pub length-insert : (a : A) (xs : List A) → length (insert a xs) ≤ suc (length xs)
  unfolding insert
  length-insert a [] = omega arith
  length-insert a (x ∷ xs) = ground (arith, length-insert a xs)

  -- A new member adds one to the number.
  pub length-insert_new :
      (a : A) (xs : List A) → contains a xs ≡ false → length (insert a xs) ≡ suc (length xs)
  unfolding contains insert
  length-insert_new a [] h = omega arith
  length-insert_new a (x ∷ xs) h = ground (arith, length-insert_new a xs)

  pub contains-insert_self : (a : A) (xs : List A) → contains a (insert a xs) ≡ true
  unfolding contains insert
  contains-insert_self a [] = ground (arith, o.reflexive a)
  contains-insert_self a (x ∷ xs) = ground (arith, o.reflexive a, contains-insert_self a xs)

  pub last_after :
      (x y l : A) (xs : List A)
      → IsOrderedSet (x ∷ y ∷ xs)
      → last (y ∷ xs) ≡ some l
      → o.cmp x l ≡ Ordering.lt
  last_after x y l [] s e = ground arith
  last_after x y l (z ∷ xs) s e = o.transitive x y l s.0 (last_after y z l xs s.1 e)

  -- Removing the last member takes one away.
  pub length-remove-last :
      (l : A) (xs : List A)
      → IsOrderedSet xs
      → last xs ≡ some l
      → suc (length (remove l xs)) ≡ length xs
  unfolding remove
  length-remove-last l [] s e = cc
  length-remove-last l (x ∷ []) s e = ground (arith, o.reflexive l)
  length-remove-last l (x ∷ y ∷ xs) s e =
      ground (arith, o.swapped x l, last_after x y l xs s e, length-remove-last l (y ∷ xs) s.1 e)

  contains_before : (a : A) (xs : List A) → After a xs → contains a xs ≡ false
  unfolding contains
  contains_before a [] h = refl
  contains_before a (x ∷ xs) h = rw (h, contains)

  -- Removing members brings none in.
  pub contains-remove :
      (a l : A) (xs : List A)
      → IsOrderedSet xs
      → contains a xs ≡ false
      → contains a (remove l xs) ≡ false
  unfolding contains remove
  contains-remove a l [] s h = refl
  contains-remove a l (x ∷ xs) s h =
      ground (arith, contains-remove a l xs s.1, contains_before a xs, After-trans a x xs)

module _ {A : Type 0} where
  pub length-retain : (keep : A → Bool) (xs : List A) → length (retain keep xs) ≤ length xs
  unfolding retain
  length-retain keep [] = omega arith
  length-retain keep (x ∷ xs) = ground (arith, length-retain keep xs)

  pub retain-All : (keep : A → Bool) (xs : List A) → All (λ x. keep x ≡ true) (retain keep xs)
  unfolding retain
  retain-All keep [] = tt
  retain-All keep (x ∷ xs) = ground (arith, retain-All keep xs)
