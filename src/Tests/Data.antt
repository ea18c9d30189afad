-- ===== src/Tests/Data.antt =====
-- Two accounts, a payment, a double signature and two blocks.
use rust_proof.Base.{ℕ, none, some, [], ◌∷◌, Bytes, replicate}
use rust_proof.Core.Models.{
  Transaction, transaction, transfer, Block, block, no_transactions, and_transaction, Transactions,
  no_proofs, SlashProof, slash_proof,
}
use rust_proof.Core.Transaction
use rust_proof.Core.Block
use rust_proof.Core.State.{State, empty, apply_tx}
use rust_proof.Core.State.Merkle.{compute_state_root}
use rust_proof.Tests.Toy.{Account, alice, bob, encode, Signed, toy}

-- Alice has 100 coins and a stake of 7.
abbrev pub funded : State
funded = record empty { balances = (encode alice, 100) ∷ []; stakes = (encode alice, 7) ∷ [] }

abbrev pub signed : Account → Bytes → Signed
signed a m = record { signer = a; message = m }

abbrev pub payment_with : ℕ → Transaction
payment_with fee =
    transaction alice (transfer bob 50) 0 fee
      (some (signed alice (Transaction.hash (transaction alice (transfer bob 50) 0 fee none))))

abbrev pub payment : Transaction
payment = payment_with 10

abbrev pub block_of : ℕ → ℕ → Bytes → Transactions → Bytes → Block
block_of height slot previous txs root =
    block height slot previous alice txs
      (some (signed alice (Block.hash (block height slot previous alice txs none no_proofs root))))
      no_proofs root

abbrev pub zeros : Bytes
zeros = replicate 32 0

abbrev pub genesis : Block
genesis = block_of 0 0 zeros no_transactions zeros

-- Two signed blocks of alice for slot 3.
abbrev pub double_sign : SlashProof
double_sign =
    slash_proof alice (block_of 1 3 zeros no_transactions zeros)
      (block_of 2 3 zeros no_transactions zeros)

-- The block behind the genesis, with the payment.
abbrev pub first : Block
first =
    block_of 1 1 (Block.hash genesis) (and_transaction payment no_transactions)
      (compute_state_root (apply_tx funded payment 1))
