-- ===== src/Core/State/Merkle/Binding.antt =====
-- rp-core/src/state.rs: two states with one root.
use rust_proof.Base.{
  ℕ, zero, suc, ◌≤◌, ◌≡◌, ◌≢◌, refl, ap, sym, ◌∙◌, ◌⊎◌, inl, inr, List, [], ◌∷◌, ◌++◌, some, Bytes,
  arith, map, length, last, eq_bytes, eq_bytes_iff, Bool-cases, All,
}
use rust_proof.U64.{to_be_bytes, u64_limit, to_be_bytes-injective}
use rust_proof.BTreeMap.{BTreeMap, IsSorted}
use rust_proof.Core.Crypto.{Crypto, sha256}
use rust_proof.Core.State.{State}
use rust_proof.Core.State.Supply.{InRange}
use rust_proof.Core.State.Merkle.{
  leaf_hash, next_level, merkle_loop, compute_state_root, root_of, sort_by_key-sorted,
}

append-injective : (a b x y : Bytes) → length a ≡ length b → a ++ x ≡ b ++ y → (a ≡ b) × (x ≡ y)
append-injective [] [] x y n e = (refl, e)
append-injective [] (q ∷ b) x y n e = absurd (omega arith)
append-injective (p ∷ a) [] x y n e = absurd (omega arith)
append-injective (p ∷ a) (q ∷ b) x y n e =
    let rest = append-injective a b x y (omega arith) (cc) in (cc (rest.0), rest.1)

module _ ⦃c : Crypto⦄ where
  -- Two messages with one digest.
  pub record Collision : Type 0 where
    pub left : Bytes
    pub right : Bytes
    pub differ : left ≢ right
    pub collide : sha256 left ≡ sha256 right

  equal_or_collision : (x y : Bytes) → sha256 x ≡ sha256 y → (x ≡ y) ⊎ Collision
  equal_or_collision x y e = elim (Bool-cases (eq_bytes x y)) [
    | inl same ↦ inl ((eq_bytes_iff x y).0 same)
    | inr other ↦ inr (record {
      left = x;
      right = y;
      differ = λ p. cc (other, (eq_bytes_iff x y).1 p);
      collide = e;
    })
  ]

  abbrev Digests : List Bytes → Type 0
  Digests = All (λ h. length h ≡ 32)

  next_level-Digests : (l : List Bytes) → Digests (next_level l)
  unfolding next_level
  next_level-Digests [] = tt
  next_level-Digests (a ∷ []) = (c.length_digest _, tt)
  next_level-Digests (a ∷ b ∷ l) = (c.length_digest _, next_level-Digests l)

  next_level-binding :
      (l m : List Bytes)
      → Digests l
      → Digests m
      → length l ≡ length m
      → next_level l ≡ next_level m
      → (l ≡ m) ⊎ Collision
  unfolding next_level
  next_level-binding [] [] dl dm n e = inl refl
  next_level-binding [] (b ∷ m) dl dm n e = absurd (omega arith)
  next_level-binding (a ∷ l) [] dl dm n e = absurd (omega arith)
  next_level-binding (a ∷ []) (b ∷ []) dl dm n e =
      elim (equal_or_collision (a ++ a) (b ++ b) (cc)) [
        | inl p ↦ inl (cc ((append-injective a b a b (omega arith) p).0))
        | inr k ↦ inr k
      ]
  next_level-binding (a ∷ []) (b ∷ b' ∷ m) dl dm n e = absurd (omega arith)
  next_level-binding (a ∷ a' ∷ l) (b ∷ []) dl dm n e = absurd (omega arith)
  next_level-binding (a ∷ a' ∷ l) (b ∷ b' ∷ m) dl dm n e =
      elim (equal_or_collision (a ++ a') (b ++ b') (cc)) [
        | inl p ↦ elim (next_level-binding l m dl.1.1 dm.1.1 (omega arith) (cc)) [
          | inl q ↦ inl (let s = append-injective a b a' b' (omega arith) p in cc (s.0, s.1, q))
          | inr k ↦ inr k
        ]
        | inr k ↦ inr k
      ]

  next_level-same_length :
      (l m : List Bytes) → length l ≡ length m → length (next_level l) ≡ length (next_level m)
  unfolding next_level
  next_level-same_length [] [] n = refl
  next_level-same_length [] (b ∷ m) n = absurd (omega arith)
  next_level-same_length (a ∷ l) [] n = absurd (omega arith)
  next_level-same_length (a ∷ []) (b ∷ []) n = refl
  next_level-same_length (a ∷ []) (b ∷ b' ∷ m) n = absurd (omega arith)
  next_level-same_length (a ∷ a' ∷ l) (b ∷ []) n = absurd (omega arith)
  next_level-same_length (a ∷ a' ∷ l) (b ∷ b' ∷ m) n =
      omega (arith, next_level-same_length l m (omega arith))

  next_level-shrinks :
      (a b : Bytes) (l : List Bytes) → length (next_level (a ∷ b ∷ l)) ≤ suc (length l)
  unfolding next_level
  next_level-shrinks a b [] = omega arith
  next_level-shrinks a b (x ∷ []) = omega arith
  next_level-shrinks a b (x ∷ y ∷ l) = omega (arith, next_level-shrinks x y l)

  merkle_loop-binding :
      (fuel : ℕ) (l m : List Bytes)
      → Digests l
      → Digests m
      → length l ≡ length m
      → length l ≤ fuel
      → last (merkle_loop fuel l) ≡ last (merkle_loop fuel m)
      → (l ≡ m) ⊎ Collision
  unfolding merkle_loop
  merkle_loop-binding fuel [] [] dl dm n f e = inl refl
  merkle_loop-binding fuel [] (b ∷ m) dl dm n f e = absurd (omega arith)
  merkle_loop-binding fuel (a ∷ l) [] dl dm n f e = absurd (omega arith)
  merkle_loop-binding zero (a ∷ l) (b ∷ m) dl dm n f e = absurd (omega arith)
  merkle_loop-binding (suc fuel) (a ∷ []) (b ∷ []) dl dm n f e = inl (cc)
  merkle_loop-binding (suc fuel) (a ∷ []) (b ∷ b' ∷ m) dl dm n f e = absurd (omega arith)
  merkle_loop-binding (suc fuel) (a ∷ a' ∷ l) (b ∷ []) dl dm n f e = absurd (omega arith)
  merkle_loop-binding (suc fuel) (a ∷ a' ∷ l) (b ∷ b' ∷ m) dl dm n f e =
      elim (merkle_loop-binding fuel (next_level (a ∷ a' ∷ l)) (next_level (b ∷ b' ∷ m))
        (next_level-Digests _) (next_level-Digests _)
        (next_level-same_length (a ∷ a' ∷ l) (b ∷ b' ∷ m) n)
        (omega (arith, next_level-shrinks a a' l)) e) [
          | inl p ↦ next_level-binding (a ∷ a' ∷ l) (b ∷ b' ∷ m) dl dm n p
          | inr k ↦ inr k
        ]

  -- The loop leaves a hash if it was given one.
  last-merkle_loop :
      (fuel : ℕ) (a : Bytes) (l : List Bytes)
      → (r : Bytes) × (last (merkle_loop fuel (a ∷ l)) ≡ some r)
  unfolding merkle_loop next_level
  last-merkle_loop zero a [] = (a, refl)
  last-merkle_loop zero a (b ∷ l) = last-merkle_loop zero b l
  last-merkle_loop (suc fuel) a [] = (a, refl)
  last-merkle_loop (suc fuel) a (b ∷ l) = last-merkle_loop fuel (sha256 (a ++ b)) (next_level l)

  leaves-Digests : (m : BTreeMap ℕ) → Digests (map leaf_hash m)
  unfolding leaf_hash
  leaves-Digests [] = tt
  leaves-Digests (e ∷ m) = (c.length_digest _, leaves-Digests m)

  leaf-binding :
      (k j : Bytes) (v w : ℕ)
      → length k ≡ length j
      → suc v ≤ u64_limit
      → suc w ≤ u64_limit
      → leaf_hash (k, v) ≡ leaf_hash (j, w)
      → (◌≡◌ {A = Bytes × ℕ} (k, v) (j, w)) ⊎ Collision
  unfolding leaf_hash
  leaf-binding k j v w n hv hw e =
      elim (equal_or_collision (k ++ to_be_bytes v) (j ++ to_be_bytes w) e) [
        | inl p ↦ inl (
            let s = append-injective k j (to_be_bytes v) (to_be_bytes w) n p in
            cc (s.0, to_be_bytes-injective v w hv hw s.1))
        | inr x ↦ inr x
      ]

  leaves-binding :
      (l m : BTreeMap ℕ)
      → InRange l
      → InRange m
      → map leaf_hash l ≡ map leaf_hash m
      → (l ≡ m) ⊎ Collision
  leaves-binding [] [] rl rm e = inl refl
  leaves-binding [] (b ∷ m) rl rm e = absurd (omega (arith, ap length e))
  leaves-binding (a ∷ l) [] rl rm e = absurd (omega (arith, ap length e))
  leaves-binding ((k, v) ∷ l) ((j, w) ∷ m) rl rm e =
      elim (leaf-binding k j v w (rl.0 ∙ sym rm.0) rl.1 rm.1 (cc)) [
        | inl p ↦ elim (leaves-binding l m rl.2 rm.2 (cc)) [
          | inl q ↦ inl (cc (p, q))
          | inr x ↦ inr x
        ]
        | inr x ↦ inr x
      ]

  length-leaves : (m : BTreeMap ℕ) → length (map leaf_hash m) ≡ length m
  length-leaves [] = refl
  length-leaves (e ∷ m) = ap suc (length-leaves m)

  roots-binding :
      (l m : List Bytes)
      → Digests l
      → Digests m
      → length l ≡ length m
      → root_of (last (merkle_loop (length l) l)) ≡ root_of (last (merkle_loop (length m) m))
      → (l ≡ m) ⊎ Collision
  roots-binding [] [] dl dm n e = inl refl
  roots-binding [] (b ∷ m) dl dm n e = absurd (omega arith)
  roots-binding (a ∷ l) [] dl dm n e = absurd (omega arith)
  roots-binding (a ∷ l) (b ∷ m) dl dm n e =
      let u = last-merkle_loop (length (a ∷ l)) a l in
      let v = last-merkle_loop (length (a ∷ l)) b m in
      merkle_loop-binding (length (a ∷ l)) (a ∷ l) (b ∷ m) dl dm n (omega arith)
        (u.1 ∙ ap some (rw (u.1, ← n, v.1) at e) ∙ sym v.1)

  -- Two states in order, with keys of 33 bytes and amounts of 64 bits, with as many balances and
  -- one root, have the same balances, or two messages with one SHA-256 digest are found on the
  -- way.
  pub compute_state_root-binding :
      (s t : State)
      → IsSorted s.balances
      → IsSorted t.balances
      → InRange s.balances
      → InRange t.balances
      → length s.balances ≡ length t.balances
      → compute_state_root s ≡ compute_state_root t
      → (s.balances ≡ t.balances) ⊎ Collision
  unfolding compute_state_root
  compute_state_root-binding s t os ot rs rt n e =
      elim (roots-binding (map leaf_hash s.balances) (map leaf_hash t.balances)
        (leaves-Digests s.balances) (leaves-Digests t.balances)
        (omega (arith, length-leaves s.balances, length-leaves t.balances))
        (rw (sort_by_key-sorted s.balances os, sort_by_key-sorted t.balances ot) at e)) [
          | inl p ↦ leaves-binding s.balances t.balances rs rt p
          | inr x ↦ inr x
        ]
