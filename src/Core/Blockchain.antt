-- ===== src/Core/Blockchain.antt =====
-- rp-core/src/blockchain.rs and errors.rs: the rules for a block, and the choice between two heads.
pub mod Accept
pub mod Fork
use rust_proof.Base.{
  ℕ, suc, Bool, true, false, not, List, [], ◌∷◌, Bytes, Outcome, ok, err, panic, ◌>>=◌, ◌>>◌, ltb,
  leb, ◌==◌, if◌then◌else◌, eq_bytes, cmp_bytes, Ordering, map_err, none, some,
}
use rust_proof.U64.{wrapping_add}
use rust_proof.Core.Crypto.{Crypto, eq_key}
use rust_proof.Core.Models.{Block, Transaction, SlashProof}
use rust_proof.Core.Block
use rust_proof.Core.Slashing.{SlashError}
use rust_proof.Core.State.{State, is_valid_tx, apply_tx, apply_slash}
use rust_proof.Core.State.Merkle.{compute_state_root}
use rust_proof.Core.State.Election.{get_expected_validator}

pub data BlockError : Type 0 where
  invalid_signature invalid_height invalid_slot invalid_validator : BlockError
  invalid_transaction : BlockError
  invalid_slash_proof : SlashError → BlockError
  invalid_state_root : BlockError

abbrev pub require : Bool → BlockError → Outcome BlockError (Unit {0})
require true e = ok tt
require false e = err e

module _ ⦃c : Crypto⦄ where
  -- `for tx in &block.transactions`
  unfoldable pub apply_transactions : State → List Transaction → ℕ → Outcome BlockError State
  apply_transactions s [] slot = ok s
  apply_transactions s (tx ∷ txs) slot =
      let rest = apply_transactions (apply_tx s tx slot) txs slot in
      if not (is_valid_tx s tx) then err invalid_transaction else rest

  -- `for proof in &block.slash_proofs`
  unfoldable pub apply_slashes : State → List SlashProof → Outcome BlockError State
  apply_slashes s [] = ok s
  apply_slashes s (proof ∷ proofs) =
      map_err invalid_slash_proof (apply_slash s proof) >>= λ s'. apply_slashes s' proofs

  -- `if let Some(expected_validator) = …`
  unfoldable pub check_validator : State → Block → Bool
  check_validator s b = elim (get_expected_validator s (Block.height b)) [
    | none ↦ true
    | some expected ↦ eq_key (Block.validator b) expected
  ]

  unfoldable pub validate_and_apply_block : Block → State → Block → Outcome BlockError State
  validate_and_apply_block parent_block parent_state b = do
    require (Block.is_valid b) invalid_signature
    require (Block.height b == wrapping_add (Block.height parent_block) 1) invalid_height
    require (not (leb (Block.slot b) (Block.slot parent_block))) invalid_slot
    require (check_validator parent_state b) invalid_validator
    paid ← apply_transactions parent_state (Block.transactions b) (Block.slot b)
    slashed ← apply_slashes paid (Block.slash_proofs b)
    require (eq_bytes (Block.state_root b) (compute_state_root slashed)) invalid_state_root
    ok slashed

  unfoldable pub should_replace_head : Bytes → Block → Block → Bytes → Bool
  should_replace_head candidate_hash candidate_block current_head head_hash =
      if not (Block.height candidate_block == Block.height current_head)
      then ltb (Block.height current_head) (Block.height candidate_block)
      else if not (Block.slot candidate_block == Block.slot current_head)
      then ltb (Block.slot current_head) (Block.slot candidate_block)
      else elim (cmp_bytes candidate_hash head_hash) [ Ordering.gt ↦ true | _ ↦ false ]
