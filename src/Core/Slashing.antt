-- ===== src/Core/Slashing.antt =====
-- rp-core/src/models/slashing.rs and errors.rs: a proof that a validator signed two blocks for
-- one slot.
pub mod Equivocation
use rust_proof.Base.{
  ◌≡◌, ◌≢◌, Bool, true, false, not, Bytes, Outcome, ok, err, ◌==◌, eq_bytes, if◌then◌else◌, arith,
  eq_bytes_iff,
}
use rust_proof.Core.Crypto.{Crypto, VerifyingKey, eq_key}
use rust_proof.Core.Models.{Block, SlashProof, slash_proof}
use rust_proof.Core.Block

pub data SlashError : Type 0 where
  different_slots identical_blocks validator_mismatch_a validator_mismatch_b : SlashError
  invalid_block_a invalid_block_b : SlashError

module _ ⦃c : Crypto⦄ where
  abbrev pub validator : SlashProof → VerifyingKey
  validator (slash_proof v a b) = v

  abbrev pub block_a : SlashProof → Block
  block_a (slash_proof v a b) = a

  abbrev pub block_b : SlashProof → Block
  block_b (slash_proof v a b) = b

  unfoldable pub validate : SlashProof → Outcome SlashError (Unit {0})
  validate p =
      if not (Block.slot (block_a p) == Block.slot (block_b p))
      then err different_slots
      else if eq_bytes (Block.hash (block_a p)) (Block.hash (block_b p))
      then err identical_blocks
      else if not (eq_key (Block.validator (block_a p)) (validator p))
      then err validator_mismatch_a
      else if not (eq_key (Block.validator (block_b p)) (validator p))
      then err validator_mismatch_b
      else if not (Block.is_valid (block_a p))
      then err invalid_block_a
      else if not (Block.is_valid (block_b p))
      then err invalid_block_b
      else ok tt

  -- Two signed blocks of one validator for one slot, with different hashes.
  pub record IsEquivocation (p : SlashProof) : Type 0 where
    pub same_slot : Block.slot (block_a p) ≡ Block.slot (block_b p)
    pub different_hash : Block.hash (block_a p) ≢ Block.hash (block_b p)
    pub signer_a : Block.validator (block_a p) ≡ validator p
    pub signer_b : Block.validator (block_b p) ≡ validator p
    pub signed_a : Block.is_valid (block_a p) ≡ true
    pub signed_b : Block.is_valid (block_b p) ≡ true
