-- ===== src/Tests/Rules.antt =====
-- The rules for a block, the fork choice and the pool at concrete inputs.
use rust_proof.Base.{
  suc, ◌≤◌, ◌≡◌, ◌↔◌, refl, true, false, not, ◌&&◌, [], ◌∷◌, arith, ok, err, length, cmp_bytes,
  if◌then◌else◌, ltb,
}
use rust_proof.BTreeMap
use rust_proof.BTreeSet.{contains, insert, remove}
use rust_proof.U64.{to_be_bytes, wrapping_add, wrapping_sub}
use rust_proof.Core.Crypto.{verifying_key_to_bytes, verifying_key_from_bytes}
use rust_proof.Core.Transaction
use rust_proof.Core.Transaction.Order.{transaction_ord}
use rust_proof.Core.Block
use rust_proof.Core.Models.{Block, transaction_bytes, block_bytes, no_transactions}
use rust_proof.Core.State.{is_valid_tx, apply_tx, get_nonce, payload_allowed, get_balance}
use rust_proof.Core.State.Supply.{supply}
use rust_proof.Core.State.Merkle.{compute_state_root}
use rust_proof.Core.State.Election
use rust_proof.Core.Blockchain.{
  validate_and_apply_block, should_replace_head, apply_transactions, apply_slashes, check_validator,
}
use rust_proof.Core.Blockchain.Accept.{
  IsAccepted, validate_and_apply_block_iff, validate_and_apply_block-supply,
}
use rust_proof.Core.Blockchain.Fork.{should_replace_head_irrefl}
use rust_proof.Node.Report.{fee_too_low}
use rust_proof.Node.Mempool.{Mempool, add_transaction}
use rust_proof.Node.Mempool.Invariant.{
  IsBounded, IsOutbid, add_transaction-IsBounded, add_transaction-too_low_iff, add_transaction-adds,
}
use rust_proof.Tests.Toy.{toy}
use rust_proof.Tests.Data.{funded, payment, payment_with, block_of, genesis, first, zeros}

validate_and_apply_block_iff_example :
    (validate_and_apply_block genesis funded first ≡ ok (apply_tx funded payment 1))
    ↔ IsAccepted genesis funded first (apply_tx funded payment 1)
validate_and_apply_block_iff_example =
    validate_and_apply_block_iff genesis funded first (apply_tx funded payment 1)

pub first_accepted : validate_and_apply_block genesis funded first ≡ ok (apply_tx funded payment 1)
unfolding validate_and_apply_block check_validator apply_transactions apply_slashes Block.is_valid
    Block.hash block_bytes Election.get_expected_validator Election.valid_stakes
    verifying_key_from_bytes is_valid_tx payload_allowed get_balance get_nonce Transaction.is_valid
    Transaction.hash transaction_bytes verifying_key_to_bytes BTreeMap.get_or BTreeMap.get cmp_bytes
    to_be_bytes compute_state_root apply_tx BTreeMap.update BTreeMap.insert wrapping_sub
    wrapping_add
first_accepted = refl

validate_and_apply_block-supply_example : supply (apply_tx funded payment 1) ≤ supply funded
unfolding supply
validate_and_apply_block-supply_example =
    validate_and_apply_block-supply genesis funded first (apply_tx funded payment 1) first_accepted
      (omega arith)

should_replace_head_irrefl_example : should_replace_head zeros genesis genesis zeros ≡ false
should_replace_head_irrefl_example = should_replace_head_irrefl genesis zeros

abbrev second : Block
second = block_of 2 4 zeros no_transactions zeros

higher : should_replace_head zeros second first zeros ≡ true
unfolding should_replace_head
higher = refl

lower : should_replace_head zeros first genesis zeros ≡ true
unfolding should_replace_head
lower = refl

-- A pool with room for one transaction, and the payment in it.
abbrev pool : Mempool
pool = record { transactions = payment ∷ []; max_size = 1 }

pool-IsBounded : IsBounded pool
pool-IsBounded = record { ordered = (tt, tt); fits = omega arith }

-- The payment with a higher fee takes its place.
abbrev outbidding : Mempool
outbidding = record { transactions = payment_with 20 ∷ []; max_size = 1 }

outbids : add_transaction pool (payment_with 20) ≡ ok (outbidding, true)
unfolding add_transaction Transaction.cmp contains insert remove cmp_bytes Transaction.hash
    transaction_bytes verifying_key_to_bytes to_be_bytes
outbids = refl

add_transaction-IsBounded_example : IsBounded outbidding
add_transaction-IsBounded_example =
    add_transaction-IsBounded pool outbidding (payment_with 20) true pool-IsBounded outbids

add_transaction-too_low_iff_example :
    (add_transaction pool (payment_with 5) ≡ err fee_too_low) ↔ IsOutbid pool (payment_with 5)
add_transaction-too_low_iff_example =
    add_transaction-too_low_iff pool (payment_with 5) pool-IsBounded

add_transaction-adds_example :
    (contains (payment_with 20) outbidding.transactions ≡ true)
    × (true ≡ not (contains (payment_with 20) pool.transactions))
    × (length outbidding.transactions ≡ (
        if true && ltb (length pool.transactions) pool.max_size
        then suc (length pool.transactions)
        else length pool.transactions))
add_transaction-adds_example =
    add_transaction-adds pool outbidding (payment_with 20) true pool-IsBounded outbids
