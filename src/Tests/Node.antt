-- ===== src/Tests/Node.antt =====
-- The tree of blocks at concrete inputs.
use rust_proof.Base.{
  ◌≡◌, ◌≢◌, refl, ap, sym, ◌∙◌, true, false, some, List, [], Bytes, arith, ok, cmp_bytes,
  cmp_bytes-eq, eq_bytes, eq_bytes_iff,
}
use rust_proof.BTreeMap
use rust_proof.BTreeSet.{retain}
use rust_proof.U64.{to_be_bytes, wrapping_add, wrapping_sub}
use rust_proof.Core.Crypto.{verifying_key_to_bytes}
use rust_proof.Core.Block
use rust_proof.Core.Models.{Block, block_bytes}
use rust_proof.Core.State.{apply_tx}
use rust_proof.Core.State.Merkle.{compute_state_root}
use rust_proof.Core.Blockchain.{should_replace_head}
use rust_proof.Node.Mempool
use rust_proof.Node.Blockchain.{
  Blockchain, BlockNode, ImportedBlock, rooted, earliest_loop, remove_transactions, add_block,
  import_block, get_latest_block, earliest_contiguous_height, get_blocks, add_node, add_child,
}
use rust_proof.Node.Blockchain.Links.{IsChain}
use rust_proof.Node.Blockchain.Tree.{block_at}
use rust_proof.Node.Blockchain.Import.{
  NoOrphanOf, Accepted, add_block-IsChain, add_block-head, rooted-IsChain,
}
use rust_proof.Node.Blockchain.Serve.{get_blocks-served, heights, served}
use rust_proof.Tests.Toy.{toy}
use rust_proof.Tests.Data.{funded, payment, genesis, first, zeros}
use rust_proof.Tests.Rules.{first_accepted}

abbrev pub base : Blockchain
base = rooted genesis funded

pub genesis_acyclic : Block.previous_hash genesis ≢ Block.hash genesis
unfolding Block.hash block_bytes verifying_key_to_bytes to_be_bytes
genesis_acyclic h = ground arith

abbrev pub genesis_node : BlockNode
genesis_node = record { block = genesis; children = [] }

pub genesis_known : BTreeMap.get (Block.hash genesis) base.chain ≡ some genesis_node
unfolding BTreeMap.get BTreeMap.insert cmp_bytes Block.hash block_bytes to_be_bytes
    verifying_key_to_bytes
genesis_known = refl

abbrev pub base_is_chain : IsChain base
base_is_chain = record {
  tree = (rooted-IsChain genesis funded (omega arith) genesis_acyclic).tree;
  head = genesis_node;
  head_known = genesis_known;
}

base_earliest : earliest_contiguous_height {E = ⊥} base ≡ ok 0
unfolding earliest_contiguous_height get_latest_block BTreeMap.get BTreeMap.insert cmp_bytes
    earliest_loop Block.hash block_bytes to_be_bytes verifying_key_to_bytes
base_earliest = refl

get_blocks-served_example :
    (blocks : List Block) × (get_blocks {E = ⊥} base 0 5 ≡ ok blocks)
    × (heights blocks ≡ served 0 5 0)
get_blocks-served_example =
    get_blocks-served {E = ⊥} base base_is_chain 0 0 5 base_earliest (omega arith) (omega arith)
      (omega arith)

abbrev grown : Blockchain
grown = record {
  chain =
      add_node (Block.hash first) first
        (add_child (Block.hash genesis) (Block.hash first) base.chain);
  head_hash = Block.hash first;
  state = apply_tx funded payment 1;
  mempool = Mempool.new 10000;
}

abbrev imported : ImportedBlock
imported = record { next_state = apply_tx funded payment 1; became_head = true }

first_moves_head : import_block base first (apply_tx funded payment 1) ≡ ok (grown, imported)
unfolding import_block get_latest_block add_node add_child should_replace_head BTreeMap.get
    BTreeMap.insert BTreeMap.contains_key cmp_bytes Block.hash block_bytes to_be_bytes
    verifying_key_to_bytes compute_state_root apply_tx BTreeMap.update wrapping_sub BTreeMap.get_or
    wrapping_add remove_transactions Mempool.remove_transaction retain
first_moves_head = refl

block_added : add_block base first funded ≡ ok (grown, imported)
unfolding add_block
block_added = rw (genesis_known, first_accepted, add_block) first_moves_head

not_on_first : eq_bytes zeros (Block.hash first) ≡ false
unfolding cmp_bytes Block.hash block_bytes to_be_bytes verifying_key_to_bytes compute_state_root
    apply_tx BTreeMap.update wrapping_sub BTreeMap.get_or wrapping_add BTreeMap.get BTreeMap.insert
not_on_first = refl

only_genesis : (h : Bytes) (x : Block) → block_at h base.chain ≡ some x → x ≡ genesis
unfolding block_at BTreeMap.get BTreeMap.insert
only_genesis h x e = ground (arith, cmp_bytes-eq h (Block.hash genesis))

first_descends : NoOrphanOf first base.chain
first_descends h x e q =
    let same : zeros ≡ Block.hash first = ap Block.previous_hash (sym (only_genesis h x e)) ∙ q in
    absurd (ground (arith, not_on_first, eq_bytes_iff zeros (Block.hash first)))

add_block-IsChain_example : IsChain grown
add_block-IsChain_example =
    add_block-IsChain base grown first funded imported base_is_chain first_descends block_added

add_block-head_example :
    Accepted base first funded imported.next_state
    × (true ≡ should_replace_head (Block.hash first) first genesis (Block.hash genesis))
    × (true ≡ true → (Block.hash first ≡ Block.hash first) × (grown.state ≡ imported.next_state))
    × (true ≡ false
        → (Block.hash first ≡ Block.hash genesis)
          × (grown.state ≡ funded)
          × (grown.mempool ≡ base.mempool))
add_block-head_example = add_block-head base grown first funded imported base_is_chain block_added
