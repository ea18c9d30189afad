-- ===== src/Node/Blockchain.antt =====
-- rp-node/src/blockchain.rs and errors.rs: the tree of known blocks, its head, the state at the head
-- and the pending transactions.
pub mod Links
pub mod Tree
pub mod Import
pub mod Serve
pub mod Returns
use rust_proof.Base.{
  ℕ, zero, suc, ◌+◌, Bool, true, false, not, ◌&&◌, ◌||◌, Option, none, some, List, [], ◌∷◌, ◌++◌,
  Bytes, Outcome, ok, err, panic, ◌>>=◌, ltb, leb, ◌==◌, eq_bytes, if◌then◌else◌, map_err,
  replicate,
}
use mathlib.Core.List.{reverse}
use rust_proof.BTreeMap
use rust_proof.BTreeMap.{BTreeMap}
use rust_proof.Core.Crypto.{Crypto, genesis_verifying_key}
use rust_proof.Core.Models.{Block, block, Transaction, no_transactions, no_proofs}
use rust_proof.Core.Block
use rust_proof.Core.Transaction
use rust_proof.Core.State.{State, empty, is_valid_tx}
use rust_proof.Core.Blockchain.{BlockError, validate_and_apply_block, should_replace_head}
use rust_proof.Node.Report.{Report, invalid_pool_transaction}
use rust_proof.Node.Mempool
use rust_proof.Node.Mempool.{Mempool}

pub data NodeError : Type 0 where
  block_error : BlockError → NodeError
  parent_block_not_found parent_snapshot_not_found block_storage state_storage : NodeError

abbrev pub mempool_size : ℕ
mempool_size = 10000

module _ ⦃c : Crypto⦄ where
  pub record BlockNode : Type 0 where
    pub block : Block
    pub children : List Bytes

  pub record Blockchain : Type 0 where
    pub chain : BTreeMap BlockNode
    pub head_hash : Bytes
    pub state : State
    pub mempool : Mempool

  pub record ImportedBlock : Type 0 where
    pub next_state : State
    pub became_head : Bool

  -- A tree with one block.
  abbrev pub rooted : Block → State → Blockchain
  rooted b s = record {
    chain = BTreeMap.insert (Block.hash b) (record { block = b; children = [] }) [];
    head_hash = Block.hash b;
    state = s;
    mempool = Mempool.new mempool_size;
  }

  -- `Blockchain::new`
  unfoldable pub new : Outcome NodeError Blockchain
  new = elim genesis_verifying_key [
    | ok key ↦ ok (
        rooted (block 0 0 (replicate 32 0) key no_transactions none no_proofs (replicate 32 0))
          empty)
    | err e ↦ panic
    | panic ↦ panic
  ]

  -- `expect`: the head must be a known block.
  unfoldable pub get_latest_block : {E : Type 0} → Blockchain → Outcome E Block
  get_latest_block bc = elim (BTreeMap.get bc.head_hash bc.chain) [
    | none ↦ panic
    | some node ↦ ok node.block
  ]

  unfoldable pub restore_head : Blockchain → Block → State → Blockchain
  restore_head bc b s = rooted b s

  -- `while let Some(node) = self.chain.get(&current_hash)`, on fuel.
  unfoldable pub earliest_loop : {E : Type 0} → ℕ → BTreeMap BlockNode → Bytes → ℕ → Outcome E ℕ
  earliest_loop zero chain current_hash earliest_height = panic
  earliest_loop (suc fuel) chain current_hash earliest_height =
      elim (BTreeMap.get current_hash chain) [
        | none ↦ ok earliest_height
        | some node ↦
            let rest =
              earliest_loop fuel chain (Block.previous_hash node.block) (Block.height node.block) in
            if Block.height node.block == 0
              || not (BTreeMap.contains_key (Block.previous_hash node.block) chain)
            then ok (Block.height node.block)
            else rest
      ]

  -- Heights fall by one at each step, so the height of the head bounds the steps.
  unfoldable pub earliest_contiguous_height : {E : Type 0} → Blockchain → Outcome E ℕ
  earliest_contiguous_height bc = get_latest_block bc >>= λ latest.
      earliest_loop (suc (Block.height latest)) bc.chain bc.head_hash (Block.height latest)

  unfoldable pub add_transaction : Blockchain → Transaction → Outcome Report (Blockchain × Bool)
  add_transaction bc tx =
      if is_valid_tx bc.state tx
      then (Mempool.add_transaction bc.mempool tx >>= λ (mempool, added).
          ok (record bc { mempool = mempool }, added))
      else err invalid_pool_transaction

  abbrev has_hash : Bytes → List Bytes → Bool
  has_hash h [] = false
  has_hash h (k ∷ ks) = eq_bytes h k || has_hash h ks

  -- `get_mut(&block.previous_hash)`: the parent learns of its child, once.
  unfoldable pub add_child : Bytes → Bytes → BTreeMap BlockNode → BTreeMap BlockNode
  add_child parent_hash block_hash chain = elim (BTreeMap.get parent_hash chain) [
    | none ↦ chain
    | some parent ↦
        if has_hash block_hash parent.children
        then chain
        else BTreeMap.insert parent_hash
            (record parent { children = parent.children ++ block_hash ∷ [] }) chain
  ]

  -- `entry(block_hash).or_insert_with(…)`: a known block is kept.
  unfoldable pub add_node : Bytes → Block → BTreeMap BlockNode → BTreeMap BlockNode
  add_node block_hash b chain =
      if BTreeMap.contains_key block_hash chain
      then chain
      else BTreeMap.insert block_hash (record { block = b; children = [] }) chain

  unfoldable pub remove_transactions : Mempool → List Transaction → Mempool
  remove_transactions mempool [] = mempool
  remove_transactions mempool (tx ∷ txs) =
      remove_transactions (Mempool.remove_transaction mempool (Transaction.hash tx)) txs

  -- The part of `add_block` behind the validation.
  unfoldable pub import_block :
      Blockchain → Block → State → Outcome NodeError (Blockchain × ImportedBlock)
  import_block bc b next_state =
      let block_hash = Block.hash b in
      let chain = add_node block_hash b (add_child (Block.previous_hash b) block_hash bc.chain) in
      let grown = record bc { chain = chain } in
      get_latest_block grown >>= λ latest.
      if should_replace_head block_hash b latest bc.head_hash
      then ok (
        record grown {
          head_hash = block_hash;
          state = next_state;
          mempool = remove_transactions bc.mempool (Block.transactions b);
        },
        record { next_state = next_state; became_head = true },
      )
      else ok (grown, record { next_state = next_state; became_head = false })

  unfoldable pub add_block :
      Blockchain → Block → State → Outcome NodeError (Blockchain × ImportedBlock)
  add_block bc b parent_state = elim (BTreeMap.get (Block.previous_hash b) bc.chain) [
    | none ↦ err parent_block_not_found
    | some parent_node ↦
        map_err block_error (validate_and_apply_block parent_node.block parent_state b)
        >>= λ next_state. import_block bc b next_state
  ]

  unfoldable pub get_mempool : Blockchain → List Transaction
  get_mempool bc = Mempool.get_pending_transactions bc.mempool (Mempool.len bc.mempool)

  abbrev in_window : ℕ → ℕ → Block → List Block
  in_window from_height to_height b =
      if leb from_height (Block.height b) && leb (Block.height b) to_height then b ∷ [] else []

  -- The loop of `get_blocks`, on fuel.
  unfoldable pub collect_loop :
      {E : Type 0}
      → ℕ
      → BTreeMap BlockNode
      → Bytes
      → ℕ
      → ℕ
      → ℕ
      → List Block
      → Outcome E (List Block)
  collect_loop zero chain current_hash earliest from_height to_height blocks = panic
  collect_loop (suc fuel) chain current_hash earliest from_height to_height blocks =
      elim (BTreeMap.get current_hash chain) [
        | none ↦ ok blocks
        | some node ↦
            let blocks' = blocks ++ in_window from_height to_height node.block in
            let rest =
              collect_loop fuel chain (Block.previous_hash node.block) earliest from_height
                to_height blocks' in
            if Block.height node.block == earliest || Block.height node.block == 0
            then ok blocks'
            else rest
      ]

  unfoldable pub get_blocks : {E : Type 0} → Blockchain → ℕ → ℕ → Outcome E (List Block)
  get_blocks bc from_height to_height =
      if ltb to_height from_height
      then ok []
      else (earliest_contiguous_height bc >>= λ earliest. get_latest_block bc >>= λ latest.
          if ltb from_height earliest || ltb (Block.height latest) from_height
          then ok []
          else (collect_loop (suc (Block.height latest)) bc.chain bc.head_hash earliest from_height
                to_height []
              >>= λ blocks. ok (reverse blocks)))
