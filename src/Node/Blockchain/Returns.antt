-- ===== src/Node/Blockchain/Returns.antt =====
-- rp-node/src/blockchain.rs: when `add_block` returns.
use rust_proof.Base.{
  ℕ, ◌≡◌, ◌≢◌, inl, inr, some, List, [], ◌∷◌, ok, panic, arith, Option-cases, Bool-cases,
  Outcome-cases,
}
use rust_proof.BTreeMap
use rust_proof.Core.Crypto.{Crypto}
use rust_proof.Core.Models.{Block, Transaction, SlashProof}
use rust_proof.Core.Block
use rust_proof.Core.Slashing
use rust_proof.Core.State.{State, apply_slash, apply_tx}
use rust_proof.Core.Blockchain.{apply_transactions, apply_slashes, validate_and_apply_block}
use rust_proof.Node.Blockchain.{
  Blockchain, ImportedBlock, get_latest_block, import_block, add_block,
}
use rust_proof.Node.Blockchain.Links.{IsChain}
use rust_proof.Node.Blockchain.Tree.{block_at, seen, stored}
use rust_proof.Node.Blockchain.Import.{
  grown_chain, grown_chain-keeps, grown_chain-has, add_block-Accepted, import_block-HeadRule,
}

module _ ⦃c : Crypto⦄ where
  -- The block under the head's hash is known.
  abbrev pub HasHead : Blockchain → Type 0
  HasHead bc = (x : Block) × (block_at bc.head_hash bc.chain ≡ some x)

  pub IsChain-HasHead : (bc : Blockchain) → IsChain bc → HasHead bc
  IsChain-HasHead bc i = (i.head.block, seen bc.head_hash bc.chain i.head i.head_known)

  apply_transactions-returns :
      (s : State) (txs : List Transaction) (slot : ℕ) → apply_transactions s txs slot ≢ panic
  unfolding apply_transactions
  apply_transactions-returns s [] slot h = cc
  apply_transactions-returns s (tx ∷ txs) slot h =
      ground (arith, apply_transactions-returns (apply_tx s tx slot) txs slot)

  apply_slash-returns : (s : State) (p : SlashProof) → apply_slash s p ≢ panic
  unfolding apply_slash Slashing.validate
  apply_slash-returns s p h = ground arith

  apply_slashes-returns : (s : State) (ps : List SlashProof) → apply_slashes s ps ≢ panic
  unfolding apply_slashes
  apply_slashes-returns s [] h = cc
  apply_slashes-returns s (p ∷ ps) h = elim (Outcome-cases (apply_slash s p)) [
    | inl (s', q) ↦ apply_slashes-returns s' ps (ground arith)
    | inr (inl (e, q)) ↦ ground arith
    | inr (inr q) ↦ apply_slash-returns s p q
  ]

  validate_and_apply_block-returns :
      (parent : Block) (s : State) (b : Block) → validate_and_apply_block parent s b ≢ panic
  unfolding validate_and_apply_block
  validate_and_apply_block-returns parent s b h =
      elim (Outcome-cases (apply_transactions s (Block.transactions b) (Block.slot b))) [
        | inr (inr q) ↦ apply_transactions-returns s (Block.transactions b) (Block.slot b) q
        | inr (inl (e, q)) ↦ ground arith
        | inl (paid, q) ↦ elim (Outcome-cases (apply_slashes paid (Block.slash_proofs b))) [
          | inr (inr r) ↦ apply_slashes-returns paid (Block.slash_proofs b) r
          | inr (inl (e, r)) ↦ ground arith
          | inl (slashed, r) ↦ ground arith
        ]
      ]

  import_block-returns :
      (bc : Blockchain) (b : Block) (next : State) → HasHead bc → import_block bc b next ≢ panic
  unfolding import_block get_latest_block
  import_block-returns bc b next (x, known) h =
      let (n, e, _) =
        stored bc.head_hash (grown_chain bc b) x (grown_chain-keeps bc b x bc.head_hash known) in
      ground arith

  pub add_block-returns :
      (bc : Blockchain) (b : Block) (s : State) → HasHead bc → add_block bc b s ≢ panic
  unfolding add_block
  add_block-returns bc b s head h =
      elim (Option-cases (BTreeMap.get (Block.previous_hash b) bc.chain)) [
        | inl e ↦ ground arith
        | inr (n, e) ↦ elim (Outcome-cases (validate_and_apply_block n.block s b)) [
          | inr (inr q) ↦ validate_and_apply_block-returns n.block s b q
          | inr (inl (x, q)) ↦ ground arith
          | inl (next, q) ↦ import_block-returns bc b next head (ground arith)
        ]
      ]

  pub add_block-HasHead :
      (bc bc' : Blockchain) (b : Block) (s : State) (imported : ImportedBlock)
      → HasHead bc
      → add_block bc b s ≡ ok (bc', imported)
      → HasHead bc'
  add_block-HasHead bc bc' b s imported (x, known) h =
      let (next, _, r) = add_block-Accepted bc bc' b s imported h in
      let rule = import_block-HeadRule bc bc' b next imported r in
      let (y, has) = grown_chain-has bc b in
      elim (Bool-cases imported.became_head) [
        | inl yes_head ↦ (y, rw (rule.chain, (rule.replaced yes_head).0) has)
        | inr no_head ↦ (
          x,
          rw (rule.chain, (rule.kept no_head).0) (grown_chain-keeps bc b x bc.head_hash known),
        )
      ]
