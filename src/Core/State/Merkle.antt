-- ===== src/Core/State/Merkle.antt =====
-- rp-core/src/state.rs: `compute_state_root`, a Merkle root over the balances.
pub mod Binding
use rust_proof.Base.{
  ℕ, zero, suc, ◌+◌, ◌*◌, ◌≤◌, ◌<◌, ◌≡◌, refl, ap, List, [], ◌∷◌, ◌++◌, Option, none, some, Bytes,
  arith, map, length, last, replicate, cmp_bytes, Ordering,
}
use rust_proof.U64.{to_be_bytes}
use rust_proof.BTreeMap.{BTreeMap, IsSorted, Above}
use rust_proof.Core.Crypto.{Crypto, sha256}
use rust_proof.Core.State.{State}

-- `sort_by_key`, a stable sort by the key.
insert_sorted : Bytes × ℕ → BTreeMap ℕ → BTreeMap ℕ
insert_sorted e [] = e ∷ []
insert_sorted (k, v) ((j, w) ∷ m) = elim (cmp_bytes k j) [
  | Ordering.gt ↦ (j, w) ∷ insert_sorted (k, v) m
  | _ ↦ (k, v) ∷ (j, w) ∷ m
]

unfoldable pub sort_by_key : BTreeMap ℕ → BTreeMap ℕ
unfolding insert_sorted
sort_by_key [] = []
sort_by_key (e ∷ m) = insert_sorted e (sort_by_key m)

-- The entries of a map come in the order of their keys already.
pub sort_by_key-sorted : (m : BTreeMap ℕ) → IsSorted m → sort_by_key m ≡ m
unfolding sort_by_key
sort_by_key-sorted [] s = refl
sort_by_key-sorted ((j, w) ∷ []) s = refl
sort_by_key-sorted ((j, w) ∷ (k, v) ∷ m) s =
    let e = sort_by_key-sorted ((k, v) ∷ m) s.1 in ground (arith, e)

module _ ⦃c : Crypto⦄ where
  unfoldable pub leaf_hash : Bytes × ℕ → Bytes
  leaf_hash (k, v) = sha256 (k ++ to_be_bytes v)

  -- One round of the loop: pairs are hashed, and an odd last hash is paired with itself.
  unfoldable pub next_level : List Bytes → List Bytes
  next_level [] = []
  next_level (left ∷ []) = sha256 (left ++ left) ∷ []
  next_level (left ∷ right ∷ rest) = sha256 (left ++ right) ∷ next_level rest

  -- `while hashes.len() > 1`, on fuel.
  unfoldable pub merkle_loop : ℕ → List Bytes → List Bytes
  merkle_loop zero hashes = hashes
  merkle_loop (suc fuel) [] = []
  merkle_loop (suc fuel) (h ∷ []) = h ∷ []
  merkle_loop (suc fuel) (h ∷ k ∷ rest) = merkle_loop fuel (next_level (h ∷ k ∷ rest))

  -- `.last().cloned().unwrap_or([0u8; 32])`
  abbrev pub root_of : Option Bytes → Bytes
  root_of none = replicate 32 0
  root_of (some root) = root

  -- Each round at least halves the number of hashes, so their number is fuel enough.
  unfoldable pub compute_state_root : State → Bytes
  unfolding leaf_hash merkle_loop next_level sort_by_key
  compute_state_root s =
      let hashes = map leaf_hash (sort_by_key s.balances) in
      root_of (last (merkle_loop (length hashes) hashes))

  length-next_level : (l : List Bytes) → 2 * length (next_level l) ≤ length l + 1
  unfolding next_level
  length-next_level [] = omega arith
  length-next_level (a ∷ []) = omega arith
  length-next_level (a ∷ b ∷ l) = omega (arith, length-next_level l)

  -- The loop ends by its own test: with as much fuel as there are hashes, at most one hash is left.
  pub merkle_loop-done :
      (fuel : ℕ) (l : List Bytes) → length l ≤ fuel → length (merkle_loop fuel l) ≤ 1
  unfolding merkle_loop
  merkle_loop-done zero l h = omega arith
  merkle_loop-done (suc fuel) [] h = omega arith
  merkle_loop-done (suc fuel) (a ∷ []) h = omega arith
  merkle_loop-done (suc fuel) (a ∷ b ∷ l) h =
      merkle_loop-done fuel (next_level (a ∷ b ∷ l)) (omega (arith, length-next_level (a ∷ b ∷ l)))
