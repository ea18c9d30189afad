-- ===== src/Core/Slashing/Equivocation.antt =====
-- rp-core/src/models/slashing.rs: what `validate` accepts.
use rust_proof.Base.{◌≡◌, ◌↔◌, arith, ok, eq_bytes_iff}
use rust_proof.Core.Crypto.{Crypto}
use rust_proof.Core.Models.{SlashProof}
use rust_proof.Core.Block
use rust_proof.Core.Slashing.{validate, IsEquivocation, validator, block_a, block_b}

module _ ⦃c : Crypto⦄ where
  -- The checks pass exactly for two signed blocks of the named validator for one slot that have
  -- different hashes.
  pub validate_iff : (p : SlashProof) → (validate p ≡ ok tt) ↔ IsEquivocation p
  unfolding validate
  validate_iff p = (
    λ h. record {
      same_slot = ground arith;
      different_hash =
          ground (arith, eq_bytes_iff (Block.hash (block_a p)) (Block.hash (block_b p)));
      signer_a = ground (arith, c.eq_key_iff (Block.validator (block_a p)) (validator p));
      signer_b = ground (arith, c.eq_key_iff (Block.validator (block_b p)) (validator p));
      signed_a = ground arith;
      signed_b = ground arith;
    },
    λ e. ground (
      arith,
      e.same_slot,
      eq_bytes_iff (Block.hash (block_a p)) (Block.hash (block_b p)),
      c.eq_key_iff (Block.validator (block_a p)) (validator p),
      c.eq_key_iff (Block.validator (block_b p)) (validator p),
    ),
  )
