-- ===== src/Core/Block.antt =====
-- rp-core/src/models/block.rs: the fields and methods of a block.
use rust_proof.Base.{ℕ, Bool, false, Option, none, some, List, Bytes}
use rust_proof.Core.Crypto.{Crypto, VerifyingKey, Signature, verify, sha256}
use rust_proof.Core.Models.{
  Block, block, Transaction, SlashProof, transaction_list, proof_list, block_bytes,
}

module _ ⦃c : Crypto⦄ where
  abbrev pub height : Block → ℕ
  height (block h s p v ts g ps r) = h

  abbrev pub slot : Block → ℕ
  slot (block h s p v ts g ps r) = s

  abbrev pub previous_hash : Block → Bytes
  previous_hash (block h s p v ts g ps r) = p

  abbrev pub validator : Block → VerifyingKey
  validator (block h s p v ts g ps r) = v

  abbrev pub transactions : Block → List Transaction
  transactions (block h s p v ts g ps r) = transaction_list ts

  abbrev pub signature : Block → Option Signature
  signature (block h s p v ts g ps r) = g

  abbrev pub slash_proofs : Block → List SlashProof
  slash_proofs (block h s p v ts g ps r) = proof_list ps

  abbrev pub state_root : Block → Bytes
  state_root (block h s p v ts g ps r) = r

  unfoldable pub hash : Block → Bytes
  hash b = sha256 (block_bytes b)

  unfoldable pub is_valid : Block → Bool
  is_valid b = elim (signature b) [ none ↦ false | some g ↦ verify (validator b) (hash b) g ]
