-- ===== src/Node/Engine/Restore.antt =====
-- rp-node/src/node_engine.rs: `restore_latest_snapshot`.
use rust_proof.Base.{
  ◌≡◌, ◌≢◌, ◌⊎◌, inl, inr, some, Bytes, ok, arith, eq_bytes, eq_bytes_iff, Bool-cases,
  Outcome-cases, List,
}
use rust_proof.Core.Crypto.{Crypto}
use rust_proof.Core.Models.{Block}
use rust_proof.Core.Block
use rust_proof.Core.State.{State}
use rust_proof.Core.State.Merkle.{compute_state_root}
use rust_proof.Core.State.Codec
use rust_proof.Node.Report.{startup_restored}
use rust_proof.Node.Contract.{NodeAction}
use rust_proof.Node.Blockchain.{rooted, restore_head}
use rust_proof.Node.Engine.{NodeEngine}
use rust_proof.Node.Engine.Step.{restore_latest_snapshot, reported}

module _ ⦃c : Crypto⦄ where
  -- The snapshot reads, has the state root of the block, and is the state behind its tree.
  pub record IsRestored (e' : NodeEngine) (b : Block) (bytes : Bytes) : Type 0 where
    pub state : State
    pub read : Codec.from_bytes bytes ≡ ok state
    pub root : Block.state_root b ≡ compute_state_root state
    pub tree : e'.blockchain ≡ rooted b state

  -- Starting with a block and a snapshot, if it returns, has either restored the tree of that block
  -- with the state of the snapshot, which reads and has the state root of the block, and said so; or
  -- has left the engine as it was and said something else.
  pub restore_latest_snapshot-IsRestored :
      (e e' : NodeEngine) (b : Block) (bytes : Bytes) (actions : List NodeAction)
      → restore_latest_snapshot e (some b) (some bytes) ≡ ok (e', actions)
      → ((actions ≡ reported startup_restored) × IsRestored e' b bytes)
        ⊎ ((e' ≡ e) × (actions ≢ reported startup_restored))
  unfolding restore_latest_snapshot restore_head
  restore_latest_snapshot-IsRestored e e' b bytes actions h =
      elim (Outcome-cases (Codec.from_bytes bytes)) [
        | inr (inr q) ↦ absurd (ground arith)
        | inr (inl (x, q)) ↦ inr (ground arith, λ s. ground arith)
        | inl (state, q) ↦
            elim (Bool-cases (eq_bytes (Block.state_root b) (compute_state_root state))) [
              | inr differs ↦ inr (ground arith, λ s. ground arith)
              | inl same ↦ inl (
                ground arith,
                record {
                  state = state;
                  read = q;
                  root = (eq_bytes_iff (Block.state_root b) (compute_state_root state)).0 same;
                  tree = ground arith;
                },
              )
            ]
      ]
