-- ===== src/Core/State/Codec.antt =====
-- rp-core/src/state.rs: `to_bytes` and `from_bytes` of a state, the format of a snapshot. The cursor
-- `i` of the reader is the rest of the bytes behind it. `usize` has 64 bits.
pub mod Roundtrip
pub mod Capacity
use rust_proof.Base.{
  ℕ, zero, suc, ◌+◌, ◌-◌, ◌*◌, ◌^◌, List, [], ◌∷◌, ◌++◌, Bytes, Outcome, ok, err, panic, ◌>>=◌,
  ◌>>◌, ltb, if◌then◌else◌, length, take, drop,
}
use rust_proof.U64.{to_be_bytes, from_be_bytes}
use rust_proof.BTreeMap
use rust_proof.BTreeMap.{BTreeMap}
use rust_proof.Core.Crypto.{public_key_size}
use rust_proof.Core.State.{State, UnstakeRequest, empty}

pub data ReadError : Type 0 where
  eof_reading_u64 eof_reading_key : ReadError

unfoldable pub entries_bytes : BTreeMap ℕ → Bytes
entries_bytes [] = []
entries_bytes ((k, v) ∷ m) = k ++ (to_be_bytes v ++ entries_bytes m)

unfoldable pub write_u64_map : BTreeMap ℕ → Bytes
write_u64_map m = to_be_bytes (length m) ++ entries_bytes m

unfoldable pub requests_bytes : List UnstakeRequest → Bytes
requests_bytes [] = []
requests_bytes (r ∷ rs) = to_be_bytes r.amount ++ (to_be_bytes r.unlock_slot ++ requests_bytes rs)

unfoldable pub unstaking_bytes : BTreeMap (List UnstakeRequest) → Bytes
unstaking_bytes [] = []
unstaking_bytes ((account, requests) ∷ m) =
    account ++ (to_be_bytes (length requests) ++ (requests_bytes requests ++ unstaking_bytes m))

unfoldable pub to_bytes : State → Bytes
to_bytes s =
    write_u64_map s.balances
    ++ (write_u64_map s.nonces
        ++ (write_u64_map s.stakes
            ++ (to_be_bytes (length s.unstaking) ++ unstaking_bytes s.unstaking)))

-- A read value and the bytes behind it.
abbrev pub Read : Type 0 → Type 0
Read A = Outcome ReadError (A × Bytes)

unfoldable pub read_u64 : Bytes → Read ℕ
read_u64 bytes =
    if ltb (length bytes) 8
    then err eof_reading_u64
    else ok (from_be_bytes (take 8 bytes), drop 8 bytes)

unfoldable pub read_key : Bytes → Read Bytes
read_key bytes =
    if ltb (length bytes) public_key_size
    then err eof_reading_key
    else ok (take public_key_size bytes, drop public_key_size bytes)

-- `for _ in 0..len`
unfoldable pub read_entries : ℕ → Bytes → BTreeMap ℕ → Read (BTreeMap ℕ)
read_entries zero bytes m = ok (m, bytes)
read_entries (suc len) bytes m = read_key bytes >>= λ (k, behind_key).
    read_u64 behind_key >>= λ (v, behind). read_entries len behind (BTreeMap.insert k v m)

unfoldable pub read_u64_map : Bytes → BTreeMap ℕ → Read (BTreeMap ℕ)
read_u64_map bytes m = read_u64 bytes >>= λ (len, behind). read_entries len behind m

unfoldable pub read_requests : ℕ → Bytes → List UnstakeRequest → Read (List UnstakeRequest)
read_requests zero bytes requests = ok (requests, bytes)
read_requests (suc len) bytes requests = read_u64 bytes >>= λ (a, behind_amount).
    read_u64 behind_amount >>= λ (s, behind).
    read_requests len behind (requests ++ record { amount = a; unlock_slot = s } ∷ [])

-- `Vec::with_capacity(req_len as usize)` panics above `isize::MAX` bytes; a request has 16 of them.
abbrev pub with_capacity : ℕ → Outcome ReadError (Unit {0})
with_capacity req_len = if ltb (2 ^ 63 - 1) (req_len * 16) then panic else ok tt

unfoldable pub read_unstaking :
    ℕ → Bytes → BTreeMap (List UnstakeRequest) → Read (BTreeMap (List UnstakeRequest))
read_unstaking zero bytes m = ok (m, bytes)
read_unstaking (suc len) bytes m = read_key bytes >>= λ (k, behind_key).
    read_u64 behind_key >>= λ (req_len, behind_len). with_capacity req_len >>= λ _.
    read_requests req_len behind_len [] >>= λ (requests, behind).
    read_unstaking len behind (BTreeMap.insert k requests m)

-- Bytes that are left over behind the last map are ignored.
unfoldable pub from_bytes : Bytes → Outcome ReadError State
from_bytes bytes = read_u64_map bytes [] >>= λ (balances, b1).
    read_u64_map b1 [] >>= λ (nonces, b2). read_u64_map b2 [] >>= λ (stakes, b3).
    read_u64 b3 >>= λ (unstaking_len, b4). read_unstaking unstaking_len b4 [] >>= λ (unstaking, b5).
    ok (record { balances = balances; nonces = nonces; stakes = stakes; unstaking = unstaking })
