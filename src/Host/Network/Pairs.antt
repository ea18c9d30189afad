-- ===== src/Host/Network/Pairs.antt =====
-- rp-runtime/src/network/manager.rs: `peer_by_node` and `node_by_transport`, the two directions of
-- one pairing.
use rust_proof.Base.{
  ◌≡◌, inl, inr, Bool, true, false, not, ◌&&◌, Option, none, some, Bytes, arith, eq_bytes,
  eq_bytes_iff, if◌then◌else◌, Bool-cases, Option-cases,
}
use rust_proof.BTreeMap
use rust_proof.BTreeMap.{BTreeMap, IsSorted}
use rust_proof.BTreeMap.Laws.{get-insert, get-remove, insert-IsSorted, remove-IsSorted}
use rust_proof.Host.Network.Events.{remove_previous}

-- `xs` sends to `ys` what `ys` sends back.
abbrev pub Returns : BTreeMap Bytes → BTreeMap Bytes → Type 0
Returns xs ys = (x y : Bytes) → BTreeMap.get x xs ≡ some y → BTreeMap.get y ys ≡ some x

-- Two maps with keys in order that are inverse to each other.
pub record IsPaired (xs ys : BTreeMap Bytes) : Type 0 where
  pub xs_ordered : IsSorted xs
  pub ys_ordered : IsSorted ys
  pub forth : Returns xs ys
  pub back : Returns ys xs

pub flipped : (xs ys : BTreeMap Bytes) → IsPaired xs ys → IsPaired ys xs
flipped xs ys i = record {
  xs_ordered = i.ys_ordered;
  ys_ordered = i.xs_ordered;
  forth = i.back;
  back = i.forth;
}

remove_previous-IsSorted :
    (previous : Option Bytes) (kept : Bytes) (xs : BTreeMap Bytes)
    → IsSorted xs
    → IsSorted (remove_previous previous kept xs)
unfolding remove_previous
remove_previous-IsSorted none kept xs s = s
remove_previous-IsSorted (some previous) kept xs s = ground (arith, remove-IsSorted previous xs s)

-- `x` is the previous one, and not kept.
abbrev is_removed : Bytes → Option Bytes → Bytes → Bool
is_removed x none kept = false
is_removed x (some previous) kept = eq_bytes x previous && not (eq_bytes previous kept)

get-remove_previous :
    (previous : Option Bytes) (kept x : Bytes) (xs : BTreeMap Bytes)
    → IsSorted xs
    → BTreeMap.get x (remove_previous previous kept xs)
      ≡ (if is_removed x previous kept then none else BTreeMap.get x xs)
unfolding remove_previous
get-remove_previous none kept x xs s = ground arith
get-remove_previous (some previous) kept x xs s = ground (arith, get-remove previous x xs s)

is_removed_kept :
    (x : Bytes) (previous : Option Bytes) (kept : Bytes)
    → is_removed x previous kept ≡ true
    → eq_bytes x kept ≡ false
is_removed_kept x none kept h = cc
is_removed_kept x (some previous) kept h =
    let same : x ≡ previous = (eq_bytes_iff x previous).0 (ground arith) in
    rw same (ground (arith, h))

-- The map `xs` after `x` has been put to `y`, where `ys` is the other direction.
abbrev pub rebound : Bytes → Bytes → BTreeMap Bytes → BTreeMap Bytes → BTreeMap Bytes
rebound x y xs ys = remove_previous (BTreeMap.get y ys) x (BTreeMap.insert x y xs)

rebound-IsSorted :
    (x y : Bytes) (xs ys : BTreeMap Bytes) → IsSorted xs → IsSorted (rebound x y xs ys)
rebound-IsSorted x y xs ys s = remove_previous-IsSorted _ x _ (insert-IsSorted x y xs s)

get-rebound :
    (x y i : Bytes) (xs ys : BTreeMap Bytes)
    → IsSorted xs
    → BTreeMap.get i (rebound x y xs ys) ≡ (
        if eq_bytes i x
        then some y
        else if is_removed i (BTreeMap.get y ys) x
        then none
        else BTreeMap.get i xs)
get-rebound x y i xs ys s = ground (
  arith,
  get-remove_previous (BTreeMap.get y ys) x i _ (insert-IsSorted x y xs s),
  get-insert x i y xs,
  is_removed_kept i (BTreeMap.get y ys) x,
)

rebound_other :
    (x y j k : Bytes) (xs ys : BTreeMap Bytes)
    → BTreeMap.get j (rebound x y xs ys) ≡ (
        if eq_bytes j x
        then some y
        else if is_removed j (BTreeMap.get y ys) x
        then none
        else BTreeMap.get j xs)
    → eq_bytes j x ≡ false
    → BTreeMap.get j (rebound x y xs ys) ≡ some k
    → (BTreeMap.get j xs ≡ some k) × (is_removed j (BTreeMap.get y ys) x ≡ false)
rebound_other x y j k xs ys at_j other h = elim (Bool-cases (is_removed j (BTreeMap.get y ys) x)) [
  | inl gone ↦ absurd (ground (arith, at_j, gone, other, h))
  | inr stays ↦ (ground (arith, at_j, stays, other, h), stays)
]

rebound_back :
    (x y j k : Bytes) (xs ys : BTreeMap Bytes)
    → IsPaired xs ys
    → BTreeMap.get k (rebound y x ys xs) ≡ (
        if eq_bytes k y
        then some x
        else if is_removed k (BTreeMap.get x xs) y
        then none
        else BTreeMap.get k ys)
    → eq_bytes j x ≡ false
    → is_removed j (BTreeMap.get y ys) x ≡ false
    → BTreeMap.get k ys ≡ some j
    → BTreeMap.get k (rebound y x ys xs) ≡ some j
rebound_back x y j k xs ys i at_k other unremoved back =
    let not_y : eq_bytes k y ≡ false =
      ground (arith, back, unremoved, other, eq_bytes_iff k y, eq_bytes_iff j j) in
    elim (Option-cases (BTreeMap.get x xs)) [
      | inl e ↦ ground (arith, at_k, not_y, e, back)
      | inr (old, e) ↦
          ground
            (arith, at_k, not_y, e, back, i.forth x old e, eq_bytes_iff k old, eq_bytes_iff j x)
    ]

rebound-Returns :
    (x y : Bytes) (xs ys : BTreeMap Bytes)
    → IsPaired xs ys
    → Returns (rebound x y xs ys) (rebound y x ys xs)
rebound-Returns x y xs ys i j k h =
    let at_j = get-rebound x y j xs ys i.xs_ordered in
    let at_k = get-rebound y x k ys xs i.ys_ordered in
    elim (Bool-cases (eq_bytes j x)) [
      | inl same ↦ ground (arith, at_j, at_k, eq_bytes_iff j x, eq_bytes_iff k y)
      | inr other ↦
          let (found, unremoved) = rebound_other x y j k xs ys at_j other h in
          let back = i.forth j k found in rebound_back x y j k xs ys i at_k other unremoved back
    ]

removed-Returns :
    (x y : Bytes) (xs ys : BTreeMap Bytes)
    → IsPaired xs ys
    → BTreeMap.get x xs ≡ some y
    → Returns (BTreeMap.remove x xs) (BTreeMap.remove y ys)
removed-Returns x y xs ys i e j k h =
    let found : BTreeMap.get j xs ≡ some k = ground (arith, get-remove x j xs i.xs_ordered) in
    let other : eq_bytes j x ≡ false = ground (arith, get-remove x j xs i.xs_ordered) in
    ground (
      arith,
      i.forth j k found,
      i.forth x y e,
      get-remove y k ys i.ys_ordered,
      eq_bytes_iff k y,
      eq_bytes_iff j x,
    )

pub rebound-IsPaired :
    (x y : Bytes) (xs ys : BTreeMap Bytes)
    → IsPaired xs ys
    → IsPaired (rebound x y xs ys) (rebound y x ys xs)
rebound-IsPaired x y xs ys i = record {
  xs_ordered = rebound-IsSorted x y xs ys i.xs_ordered;
  ys_ordered = rebound-IsSorted y x ys xs i.ys_ordered;
  forth = rebound-Returns x y xs ys i;
  back = rebound-Returns y x ys xs (flipped xs ys i);
}

pub removed-IsPaired :
    (x y : Bytes) (xs ys : BTreeMap Bytes)
    → IsPaired xs ys
    → BTreeMap.get x xs ≡ some y
    → IsPaired (BTreeMap.remove x xs) (BTreeMap.remove y ys)
removed-IsPaired x y xs ys i e = record {
  xs_ordered = remove-IsSorted x xs i.xs_ordered;
  ys_ordered = remove-IsSorted y ys i.ys_ordered;
  forth = removed-Returns x y xs ys i e;
  back = removed-Returns y x ys xs (flipped xs ys i) (i.forth x y e);
}

-- A node peer of the map behind `rebound` is the new one, or was there.
pub get-rebound_before :
    (x y i j : Bytes) (xs ys : BTreeMap Bytes)
    → IsSorted xs
    → BTreeMap.get i (rebound x y xs ys) ≡ some j
    → eq_bytes i x ≡ false
    → BTreeMap.get i xs ≡ some j
get-rebound_before x y i j xs ys s h other =
    (rebound_other x y i j xs ys (get-rebound x y i xs ys s) other h).0

pub get-rebound_same :
    (x y i j : Bytes) (xs ys : BTreeMap Bytes)
    → IsSorted xs
    → BTreeMap.get i (rebound x y xs ys) ≡ some j
    → eq_bytes i x ≡ true
    → y ≡ j
get-rebound_same x y i j xs ys s h same = ground (arith, get-rebound x y i xs ys s, same, h)

pub get-remove_before :
    (x i j : Bytes) (xs : BTreeMap Bytes)
    → IsSorted xs
    → BTreeMap.get i (BTreeMap.remove x xs) ≡ some j
    → BTreeMap.get i xs ≡ some j
get-remove_before x i j xs s h = ground (arith, get-remove x i xs s, h)
