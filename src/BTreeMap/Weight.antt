-- ===== src/BTreeMap/Weight.antt =====
-- The sum of a weight over the values of a map, and how the operations change it.
use rust_proof.Base.{ℕ, ◌+◌, ◌≤◌, ◌≡◌, Bytes, [], ◌∷◌, arith}
use rust_proof.BTreeMap.{BTreeMap, get, insert, remove, get_or, update}

module _ {ℓ} {V : Type ℓ} (w : V → ℕ) where
  abbrev pub weight : BTreeMap V → ℕ
  weight [] = 0
  weight ((k, v) ∷ m) = w v + weight m

  pub weight-insert :
      (k : Bytes) (v d : V) (m : BTreeMap V)
      → w d ≡ 0
      → weight (insert k v m) + w (get_or k d m) ≡ weight m + w v
  unfolding get insert get_or
  weight-insert k v d [] h = omega arith
  weight-insert k v d ((j, x) ∷ m) h = ground (arith, weight-insert k v d m h)

  pub weight-remove :
      (k : Bytes) (d : V) (m : BTreeMap V)
      → w d ≡ 0
      → weight (remove k m) + w (get_or k d m) ≡ weight m
  unfolding get remove get_or
  weight-remove k d [] h = omega arith
  weight-remove k d ((j, x) ∷ m) h = ground (arith, weight-remove k d m h)

  pub weight-get_or : (k : Bytes) (d : V) (m : BTreeMap V) → w d ≡ 0 → w (get_or k d m) ≤ weight m
  weight-get_or k d m h = omega (arith, weight-remove k d m h)

  pub weight-update :
      (k : Bytes) (d : V) (f : V → V) (m : BTreeMap V)
      → w d ≡ 0
      → weight (update k d f m) + w (get_or k d m) ≡ weight m + w (f (get_or k d m))
  unfolding update
  weight-update k d f m h = weight-insert k (f (get_or k d m)) d m h
