-- ===== src/BTreeMap/Laws.antt =====
-- The laws of the map operations.
use rust_proof.Base.{
  Bytes, cmp_bytes, cmp_bytes_refl, cmp_bytes-eq, cmp_bytes-swap, cmp_bytes_trans, Ordering, none,
  some, [], ◌∷◌, ◌++◌, ◌≡◌, refl, arith, eq_bytes, length, suc, if◌then◌else◌,
}
use rust_proof.BTreeMap.{BTreeMap, get, insert, remove, get_or, update, Above, IsSorted}

module _ {ℓ} {V : Type ℓ} where
  pub get_below : (k : Bytes) (m : BTreeMap V) → Above k m → get k m ≡ none
  unfolding get
  get_below k [] h = refl
  get_below k ((j, w) ∷ m) h = ground arith

  pub get-insert :
      (k i : Bytes) (v : V) (m : BTreeMap V)
      → get i (insert k v m) ≡ (if eq_bytes i k then some v else get i m)
  unfolding get insert
  get-insert k i v [] = ground arith
  get-insert k i v ((j, w) ∷ m) = ground (
    arith,
    get-insert k i v m,
    cmp_bytes-eq k j,
    cmp_bytes-eq i k,
    cmp_bytes-eq i j,
    cmp_bytes-swap k j,
    cmp_bytes-swap i k,
    cmp_bytes-swap i j,
    cmp_bytes_trans i k j,
    cmp_bytes_trans i j k,
  )

  pub get-insert_self : (k : Bytes) (v : V) (m : BTreeMap V) → get k (insert k v m) ≡ some v
  get-insert_self k v m = ground (arith, get-insert k k v m, cmp_bytes_refl k)

  pub Above-trans :
      (i j : Bytes) (m : BTreeMap V) → cmp_bytes i j ≡ Ordering.lt → Above j m → Above i m
  Above-trans i j [] h a = tt
  Above-trans i j ((k, w) ∷ m) h a = cmp_bytes_trans i j k h a

  pub get-remove :
      (k i : Bytes) (m : BTreeMap V)
      → IsSorted m
      → get i (remove k m) ≡ (if eq_bytes i k then none else get i m)
  unfolding get remove
  get-remove k i [] s = ground arith
  get-remove k i ((j, w) ∷ m) s = ground (
    arith,
    get-remove k i m,
    get_below j m,
    get_below i m,
    Above-trans i j m,
    cmp_bytes-eq k j,
    cmp_bytes-eq i k,
    cmp_bytes-eq i j,
    cmp_bytes-swap k j,
    cmp_bytes-swap i k,
    cmp_bytes-swap i j,
    cmp_bytes_trans i k j,
    cmp_bytes_trans i j k,
  )

  Above-insert :
      (i k : Bytes) (v : V) (m : BTreeMap V)
      → cmp_bytes i k ≡ Ordering.lt
      → Above i m
      → Above i (insert k v m)
  unfolding insert
  Above-insert i k v [] h a = h
  Above-insert i k v ((j, w) ∷ m) h a = ground arith

  pub insert-IsSorted : (k : Bytes) (v : V) (m : BTreeMap V) → IsSorted m → IsSorted (insert k v m)
  unfolding insert
  insert-IsSorted k v [] s = (tt, tt)
  insert-IsSorted k v ((j, w) ∷ m) s =
      ground
        (arith, insert-IsSorted k v m, Above-insert j k v m, cmp_bytes-swap k j, cmp_bytes-eq k j)

  pub update-IsSorted :
      (k : Bytes) (d : V) (f : V → V) (m : BTreeMap V) → IsSorted m → IsSorted (update k d f m)
  unfolding update
  update-IsSorted k d f m s = insert-IsSorted k _ m s

  Above-remove : (i k : Bytes) (m : BTreeMap V) → IsSorted m → Above i m → Above i (remove k m)
  unfolding remove
  Above-remove i k [] s a = tt
  Above-remove i k ((j, w) ∷ m) s a = ground (arith, Above-trans i j m)

  pub remove-IsSorted : (k : Bytes) (m : BTreeMap V) → IsSorted m → IsSorted (remove k m)
  unfolding remove
  remove-IsSorted k [] s = tt
  remove-IsSorted k ((j, w) ∷ m) s =
      ground (arith, remove-IsSorted k m, Above-remove j k m, Above-trans j k m)

  pub get_or-insert :
      (k i : Bytes) (v d : V) (m : BTreeMap V)
      → get_or i d (insert k v m) ≡ (if eq_bytes i k then v else get_or i d m)
  unfolding get_or
  get_or-insert k i v d m = ground (arith, get-insert k i v m)

  -- An entry with a new key is added at the end of the map.
  pub insert_last :
      (k : Bytes) (v : V) (j : Bytes) (w : V) (m : BTreeMap V)
      → cmp_bytes k j ≡ Ordering.gt
      → insert k v ((j, w) ∷ m) ≡ (j, w) ∷ insert k v m
  unfolding insert
  insert_last k v j w m h = ground arith

  pub length-remove :
      (k : Bytes) (m : BTreeMap V) (v : V) → get k m ≡ some v → suc (length (remove k m)) ≡ length m
  unfolding get remove
  length-remove k [] v h = cc
  length-remove k ((j, w) ∷ m) v h = ground (arith, length-remove k m v)

module _ {ℓ} {V : Type ℓ} where
  below_later :
      (j : Bytes) (acc : BTreeMap V) (k : Bytes) (v : V) (m : BTreeMap V)
      → Above j (acc ++ (k, v) ∷ m)
      → IsSorted (acc ++ (k, v) ∷ m)
      → cmp_bytes j k ≡ Ordering.lt
  below_later j [] k v m a s = a
  below_later j ((i, w) ∷ acc) k v m a s = cmp_bytes_trans j i k a (below_later i acc k v m s.0 s.1)

  -- Entries that come in order are appended.
  pub insert-append :
      (acc : BTreeMap V) (k : Bytes) (v : V) (m : BTreeMap V)
      → IsSorted (acc ++ (k, v) ∷ m)
      → insert k v acc ++ m ≡ acc ++ (k, v) ∷ m
  unfolding insert
  insert-append [] k v m s = refl
  insert-append ((j, w) ∷ acc) k v m s =
      ground
        (arith, below_later j acc k v m s.0 s.1, cmp_bytes-swap j k, insert-append acc k v m s.1)
