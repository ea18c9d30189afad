-- ===== src/Core/State/Codec/Capacity.antt =====
-- rp-core/src/state.rs: `from_bytes` at a snapshot that announces more requests than a vector holds.
use rust_proof.Base.{ℕ, suc, ◌-◌, ◌*◌, ◌^◌, ◌<◌, ◌≡◌, ◌++◌, Bytes, panic, arith, length, lt→ltb}
use rust_proof.U64.{to_be_bytes, u64_limit}
use rust_proof.Core.State.Codec.{from_bytes, read_u64_map, read_entries, read_unstaking}
use rust_proof.Core.State.Codec.Roundtrip.{read_u64-to_be_bytes, read_key-append}

-- A snapshot with no entry in the first three maps, `accounts` entries in the fourth, and a first
-- entry for the key `k` that announces `n` requests.
abbrev pub announcing : ℕ → Bytes → ℕ → Bytes → Bytes
announcing accounts k n rest =
    to_be_bytes 0
    ++ (to_be_bytes 0
        ++ (to_be_bytes 0 ++ (to_be_bytes (suc accounts) ++ (k ++ (to_be_bytes n ++ rest)))))

-- The reader panics on a snapshot whose balances, sequence numbers and stakes are empty and whose
-- first list announces more requests than a vector can hold, before it looks for them and whatever
-- follows, if key and numbers have the sizes of the format.
pub from_bytes-announcing :
    (accounts : ℕ) (k : Bytes) (n : ℕ) (rest : Bytes)
    → suc accounts < u64_limit
    → length k ≡ 33
    → n < u64_limit
    → 2 ^ 63 - 1 < n * 16
    → from_bytes (announcing accounts k n rest) ≡ panic
unfolding from_bytes read_u64_map read_entries read_unstaking
from_bytes-announcing accounts k n rest h hk hn big =
    let behind = to_be_bytes (suc accounts) ++ (k ++ (to_be_bytes n ++ rest)) in
    rw (
      read_u64-to_be_bytes 0 (to_be_bytes 0 ++ (to_be_bytes 0 ++ behind)) (omega arith),
      read_u64-to_be_bytes 0 (to_be_bytes 0 ++ behind) (omega arith),
      read_u64-to_be_bytes 0 behind (omega arith),
      read_u64-to_be_bytes (suc accounts) (k ++ (to_be_bytes n ++ rest)) h,
      read_key-append k (to_be_bytes n ++ rest) hk,
      read_u64-to_be_bytes n rest hn,
      lt→ltb (2 ^ 63 - 1) (n * 16) big,
    )
