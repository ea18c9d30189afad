-- ===== src/Core/State/Codec/Roundtrip.antt =====
-- rp-core/src/state.rs: `from_bytes` behind `to_bytes`.
use rust_proof.Base.{
  ℕ, ◌-◌, ◌*◌, ◌^◌, ◌≤◌, ◌<◌, ◌≡◌, ◌∙◌, List, [], ◌∷◌, ◌++◌, Bytes, ok, arith, ltb, length, All,
  append_assoc, append-nil, length-append, take-append, drop-append, false,
}
use rust_proof.U64.{to_be_bytes, u64_limit, from_be_bytes-to_be_bytes}
use rust_proof.BTreeMap
use rust_proof.BTreeMap.{BTreeMap, IsSorted}
use rust_proof.BTreeMap.Laws.{insert-append}
use rust_proof.Core.State.{State, UnstakeRequest}
use rust_proof.Core.State.Supply.{IsOrdered, InRange}
use rust_proof.Core.State.Codec.{
  to_bytes, from_bytes, read_u64, read_key, read_entries, read_u64_map, read_requests,
  read_unstaking, write_u64_map, entries_bytes, requests_bytes, unstaking_bytes,
}

pub read_u64-to_be_bytes :
    (n : ℕ) (rest : Bytes) → n < u64_limit → read_u64 (to_be_bytes n ++ rest) ≡ ok (n, rest)
unfolding read_u64 to_be_bytes
read_u64-to_be_bytes n rest h = ground (arith, from_be_bytes-to_be_bytes n h)

pub read_key-append : (k rest : Bytes) → length k ≡ 33 → read_key (k ++ rest) ≡ ok (k, rest)
unfolding read_key
read_key-append k rest h =
    ground (arith, rw h at (take-append k rest), rw h at (drop-append k rest), length-append k rest)

read_entries-entries_bytes :
    (m acc : BTreeMap ℕ) (rest : Bytes)
    → InRange m
    → IsSorted (acc ++ m)
    → read_entries (length m) (entries_bytes m ++ rest) acc ≡ ok (acc ++ m, rest)
unfolding read_entries entries_bytes
read_entries-entries_bytes [] acc rest r s = rw append-nil
read_entries-entries_bytes ((k, v) ∷ m) acc rest r s =
    let grown = insert-append acc k v m s in
    simp append_assoc (
      rw
        (
          read_key-append k (to_be_bytes v ++ (entries_bytes m ++ rest)) r.0,
          read_u64-to_be_bytes v (entries_bytes m ++ rest) r.1,
        )
        (read_entries-entries_bytes m (BTreeMap.insert k v acc) rest r.2 (rw grown s) ∙ rw grown))

read_u64_map-write_u64_map :
    (m : BTreeMap ℕ) (rest : Bytes)
    → InRange m
    → IsSorted m
    → length m < u64_limit
    → read_u64_map (write_u64_map m ++ rest) [] ≡ ok (m, rest)
unfolding read_u64_map write_u64_map
read_u64_map-write_u64_map m rest r s n = rw append_assoc (
    rw (read_u64-to_be_bytes (length m) (entries_bytes m ++ rest) n)
      (read_entries-entries_bytes m [] rest r s))

abbrev RequestInRange : UnstakeRequest → Type 0
RequestInRange r = (r.amount < u64_limit) × (r.unlock_slot < u64_limit)

read_requests-requests_bytes :
    (rs acc : List UnstakeRequest) (rest : Bytes)
    → All RequestInRange rs
    → read_requests (length rs) (requests_bytes rs ++ rest) acc ≡ ok (acc ++ rs, rest)
unfolding read_requests requests_bytes
read_requests-requests_bytes [] acc rest r = rw append-nil
read_requests-requests_bytes (q ∷ rs) acc rest r = simp append_assoc (
    rw
      (
        read_u64-to_be_bytes q.amount (to_be_bytes q.unlock_slot ++ (requests_bytes rs ++ rest))
            r.0.0,
        read_u64-to_be_bytes q.unlock_slot (requests_bytes rs ++ rest) r.0.1,
      )
      (read_requests-requests_bytes rs (acc ++ q ∷ []) rest r.1 ∙ simp append_assoc))

-- Keys of 33 bytes, amounts and slots of 64 bits, and lists of requests that fit in memory.
abbrev pub UnstakingInRange : BTreeMap (List UnstakeRequest) → Type 0
UnstakingInRange [] = Unit
UnstakingInRange ((k, rs) ∷ m) =
    (length k ≡ 33) × (length rs * 16 ≤ 2 ^ 63 - 1) × All RequestInRange rs × UnstakingInRange m

read_unstaking-unstaking_bytes :
    (m acc : BTreeMap (List UnstakeRequest)) (rest : Bytes)
    → UnstakingInRange m
    → IsSorted (acc ++ m)
    → read_unstaking (length m) (unstaking_bytes m ++ rest) acc ≡ ok (acc ++ m, rest)
unfolding read_unstaking unstaking_bytes
read_unstaking-unstaking_bytes [] acc rest r s = rw append-nil
read_unstaking-unstaking_bytes ((k, rs) ∷ m) acc rest r s =
    let grown = insert-append acc k rs m s in
    let fits : ltb (2 ^ 63 - 1) (length rs * 16) ≡ false = ground arith in
    simp append_assoc (
      rw
        (
          read_key-append k
              (to_be_bytes (length rs) ++ (requests_bytes rs ++ (unstaking_bytes m ++ rest))) r.0,
          read_u64-to_be_bytes (length rs) (requests_bytes rs ++ (unstaking_bytes m ++ rest))
              (omega arith),
          fits,
          read_requests-requests_bytes rs [] (unstaking_bytes m ++ rest) r.2,
        )
        (read_unstaking-unstaking_bytes m (BTreeMap.insert k rs acc) rest r.3 (rw grown s)
          ∙ rw grown))

-- What the types of the program give of a state that fits in memory.
pub record Fits (s : State) : Type 0 where
  pub balances : InRange s.balances × (length s.balances < u64_limit)
  pub nonces : InRange s.nonces × (length s.nonces < u64_limit)
  pub stakes : InRange s.stakes × (length s.stakes < u64_limit)
  pub unstaking : UnstakingInRange s.unstaking × (length s.unstaking < u64_limit)

-- Reading what was written gives the state back, whatever bytes follow, for maps in order whose
-- keys, amounts and lists fit the types of the program.
pub from_bytes-to_bytes :
    (s : State) (rest : Bytes) → IsOrdered s → Fits s → from_bytes (to_bytes s ++ rest) ≡ ok s
unfolding from_bytes to_bytes
from_bytes-to_bytes s rest o f =
    let tail = unstaking_bytes s.unstaking ++ rest in
    let counted = to_be_bytes (length s.unstaking) ++ tail in
    let staked = write_u64_map s.stakes ++ counted in
    simp append_assoc (
      rw (
        read_u64_map-write_u64_map s.balances (write_u64_map s.nonces ++ staked) f.balances.0
            o.balances f.balances.1,
        read_u64_map-write_u64_map s.nonces staked f.nonces.0 o.nonces f.nonces.1,
        read_u64_map-write_u64_map s.stakes counted f.stakes.0 o.stakes f.stakes.1,
        read_u64-to_be_bytes (length s.unstaking) tail f.unstaking.1,
        read_unstaking-unstaking_bytes s.unstaking [] rest f.unstaking.0 o.unstaking,
      ))
