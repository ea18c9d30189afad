-- ===== src/Core/Transaction.antt =====
-- rp-core/src/models/transaction.rs: the fields and methods of a transaction.
pub mod Order
use rust_proof.Base.{
  ℕ, ◌≡◌, Bool, true, false, Option, none, some, Bytes, cmp_bytes, Ordering, compare, swap,
}
use rust_proof.Core.Crypto.{Crypto, VerifyingKey, Signature, verify, sha256}
use rust_proof.Core.Models.{Transaction, TransactionData, transaction, transaction_bytes}

module _ ⦃c : Crypto⦄ where
  abbrev pub sender : Transaction → VerifyingKey
  sender (transaction k d s f g) = k

  abbrev pub payload : Transaction → TransactionData
  payload (transaction k d s f g) = d

  abbrev pub sequence : Transaction → ℕ
  sequence (transaction k d s f g) = s

  abbrev pub fee : Transaction → ℕ
  fee (transaction k d s f g) = f

  abbrev pub signature : Transaction → Option Signature
  signature (transaction k d s f g) = g

  unfoldable pub hash : Transaction → Bytes
  hash tx = sha256 (transaction_bytes tx)

  unfoldable pub is_valid : Transaction → Bool
  is_valid tx = elim (signature tx) [ none ↦ false | some g ↦ verify (sender tx) (hash tx) g ]

  -- `Ord::cmp`: the higher fee comes first, and among equal fees the lower hash.
  unfoldable pub cmp : Transaction → Transaction → Ordering
  cmp a b = elim (swap (compare (fee a) (fee b))) [
    | Ordering.eq ↦ cmp_bytes (hash a) (hash b)
    | other ↦ other
  ]
