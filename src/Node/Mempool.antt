-- ===== src/Node/Mempool.antt =====
-- rp-node/src/mempool.rs. A `BTreeSet<Transaction>` is the list of its members in order.
pub mod Invariant
use rust_proof.Base.{
  ℕ, Bool, true, false, Option, none, some, List, [], ◌∷◌, Bytes, Outcome, ok, err, panic, ltb,
  length, take, last, not, eq_bytes, if◌then◌else◌,
}
use rust_proof.Core.Crypto.{Crypto}
use rust_proof.Core.Models.{Transaction}
use rust_proof.Core.Transaction
use rust_proof.Core.Transaction.Order.{transaction_ord}
use rust_proof.Node.Report.{Report, fee_too_low, failed_to_evict}
use rust_proof.BTreeSet.{contains, insert, remove, retain}

module _ ⦃c : Crypto⦄ where
  pub record Mempool : Type 0 where
    pub transactions : List Transaction
    pub max_size : ℕ

  -- `Mempool::new`
  abbrev pub new : ℕ → Mempool
  new max_size = record { transactions = []; max_size = max_size }

  -- On an error the pool stays as it is.
  unfoldable pub add_transaction : Mempool → Transaction → Outcome Report (Mempool × Bool)
  add_transaction m tx =
      if contains tx m.transactions
      then ok (m, false)
      else if ltb (length m.transactions) m.max_size
      then ok (record m { transactions = insert tx m.transactions }, true)
      else elim (last m.transactions) [
        | none ↦ err failed_to_evict
        | some lowest ↦
            if ltb (Transaction.fee lowest) (Transaction.fee tx)
            then ok (record m { transactions = insert tx (remove lowest m.transactions) }, true)
            else err fee_too_low
      ]

  unfoldable pub get_pending_transactions : Mempool → ℕ → List Transaction
  get_pending_transactions m count = take count m.transactions

  unfoldable pub remove_transaction : Mempool → Bytes → Mempool
  remove_transaction m hash = record m {
    transactions = retain (λ tx. not (eq_bytes (Transaction.hash tx) hash)) m.transactions;
  }

  unfoldable pub clear : Mempool → Mempool
  clear m = record m { transactions = [] }

  unfoldable pub len : Mempool → ℕ
  len m = length m.transactions
