-- ===== src/BTreeMap.antt =====
-- `BTreeMap<K, V>` of Rust's `alloc`, over keys that are byte arrays: the entries in the order of
-- their keys, which is the order of iteration.
pub mod Laws
pub mod Weight
use rust_proof.Base.{
  Bytes, cmp_bytes, Ordering, Bool, true, false, Option, none, some, List, [], ◌∷◌, ◌≡◌, ℕ, ◌+◌,
}

abbrev pub BTreeMap {ℓ} : Type ℓ → Type ℓ
BTreeMap V = List (Bytes × V)

module _ {ℓ} {V : Type ℓ} where
  unfoldable pub get : Bytes → BTreeMap V → Option V
  get k [] = none
  get k ((j, w) ∷ m) = elim (cmp_bytes k j) [
    | Ordering.lt ↦ none
    | Ordering.eq ↦ some w
    | Ordering.gt ↦ get k m
  ]

  -- `m.insert(k, v)`
  unfoldable pub insert : Bytes → V → BTreeMap V → BTreeMap V
  insert k v [] = (k, v) ∷ []
  insert k v ((j, w) ∷ m) = elim (cmp_bytes k j) [
    | Ordering.lt ↦ (k, v) ∷ (j, w) ∷ m
    | Ordering.eq ↦ (k, v) ∷ m
    | Ordering.gt ↦ (j, w) ∷ insert k v m
  ]

  -- `m.remove(&k)`, without its result.
  unfoldable pub remove : Bytes → BTreeMap V → BTreeMap V
  remove k [] = []
  remove k ((j, w) ∷ m) = elim (cmp_bytes k j) [
    | Ordering.lt ↦ (j, w) ∷ m
    | Ordering.eq ↦ m
    | Ordering.gt ↦ (j, w) ∷ remove k m
  ]

  -- `*m.get(&k).unwrap_or(&d)`
  unfoldable pub get_or : Bytes → V → BTreeMap V → V
  get_or k d m = elim (get k m) [ none ↦ d | some v ↦ v ]

  -- `m.contains_key(&k)`
  unfoldable pub contains_key : Bytes → BTreeMap V → Bool
  contains_key k m = elim (get k m) [ none ↦ false | some v ↦ true ]

  -- `let e = m.entry(k).or_insert(d); *e = f(*e)`
  unfoldable pub update : Bytes → V → (V → V) → BTreeMap V → BTreeMap V
  update k d f m = insert k (f (get_or k d m)) m

  -- Every key of the map lies above `k`.
  abbrev pub Above : Bytes → BTreeMap V → Type 0
  Above k [] = Unit
  Above k ((j, w) ∷ m) = cmp_bytes k j ≡ Ordering.lt

  -- The keys rise: the invariant that the type `BTreeMap` carries in Rust.
  abbrev pub IsSorted : BTreeMap V → Type 0
  IsSorted [] = Unit
  IsSorted ((j, w) ∷ m) = Above j m × IsSorted m
