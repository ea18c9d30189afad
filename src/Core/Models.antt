-- ===== src/Core/Models.antt =====
-- rp-core/src/models: transactions, blocks and slash proofs, and their bytes (rp-core/src/traits.rs).
use rust_proof.Base.{ℕ, Option, List, [], ◌∷◌, ◌++◌, Bytes, suc}
use rust_proof.U64.{to_be_bytes}
use rust_proof.Core.Crypto.{Crypto, VerifyingKey, Signature, verifying_key_to_bytes}

module _ ⦃c : Crypto⦄ where
  mutual
    -- sender, data, sequence, fee, signature
    pub data Transaction : Type 0 where
      transaction : VerifyingKey → TransactionData → ℕ → ℕ → Option Signature → Transaction

    pub data TransactionData : Type 0 where
      transfer : VerifyingKey → ℕ → TransactionData
      stake unstake : ℕ → TransactionData
      slash : SlashProof → TransactionData

    -- validator, block_a, block_b
    pub data SlashProof : Type 0 where
      slash_proof : VerifyingKey → Block → Block → SlashProof

    -- height, slot, previous_hash, validator, transactions, signature, slash_proofs, state_root
    pub data Block : Type 0 where
      block :
          ℕ
          → ℕ
          → Bytes
          → VerifyingKey
          → Transactions
          → Option Signature
          → SlashProofs
          → Bytes
          → Block

    -- `Vec<Transaction>`
    pub data Transactions : Type 0 where
      no_transactions : Transactions
      and_transaction : Transaction → Transactions → Transactions

    -- `Vec<SlashProof>`
    pub data SlashProofs : Type 0 where
      no_proofs : SlashProofs
      and_proof : SlashProof → SlashProofs → SlashProofs

  abbrev pub transaction_list : Transactions → List Transaction
  transaction_list no_transactions = []
  transaction_list (and_transaction t ts) = t ∷ transaction_list ts

  abbrev pub proof_list : SlashProofs → List SlashProof
  proof_list no_proofs = []
  proof_list (and_proof p ps) = p ∷ proof_list ps

  transactions_len : Transactions → ℕ
  transactions_len no_transactions = 0
  transactions_len (and_transaction t ts) = suc (transactions_len ts)

  proofs_len : SlashProofs → ℕ
  proofs_len no_proofs = 0
  proofs_len (and_proof p ps) = suc (proofs_len ps)

  -- `to_bytes` of each type: what is hashed and signed. No signature is part of it.
  unfoldable mutual
    unfolding transactions_len proofs_len

    pub transaction_bytes : Transaction → Bytes
    transaction_bytes (transaction sender payload sequence fee signature) =
        verifying_key_to_bytes sender
        ++ (payload_bytes payload ++ (to_be_bytes sequence ++ to_be_bytes fee))

    pub payload_bytes : TransactionData → Bytes
    payload_bytes (transfer receiver amount) =
        0 ∷ (verifying_key_to_bytes receiver ++ to_be_bytes amount)
    payload_bytes (stake amount) = 1 ∷ to_be_bytes amount
    payload_bytes (unstake amount) = 2 ∷ to_be_bytes amount
    payload_bytes (slash proof) = 3 ∷ proof_bytes proof

    pub proof_bytes : SlashProof → Bytes
    proof_bytes (slash_proof validator block_a block_b) =
        verifying_key_to_bytes validator ++ (block_bytes block_a ++ block_bytes block_b)

    pub block_bytes : Block → Bytes
    block_bytes (block height slot previous_hash validator transactions signature proofs root) =
        to_be_bytes height
        ++ (to_be_bytes slot
            ++ (previous_hash
                ++ (verifying_key_to_bytes validator
                    ++ ((to_be_bytes (transactions_len transactions)
                          ++ transactions_bytes transactions)
                        ++ ((to_be_bytes (proofs_len proofs) ++ proofs_bytes proofs) ++ root)))))

    pub transactions_bytes : Transactions → Bytes
    transactions_bytes no_transactions = []
    transactions_bytes (and_transaction t ts) = transaction_bytes t ++ transactions_bytes ts

    pub proofs_bytes : SlashProofs → Bytes
    proofs_bytes no_proofs = []
    proofs_bytes (and_proof p ps) = proof_bytes p ++ proofs_bytes ps
