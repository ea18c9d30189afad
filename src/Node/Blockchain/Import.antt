-- ===== src/Node/Blockchain/Import.antt =====
-- rp-node/src/blockchain.rs: `add_block`, and what it does to the tree and to the head.
use rust_proof.Base.{
  ◌<◌, ◌≡◌, ◌≢◌, ap, sym, ◌∙◌, inl, inr, true, false, some, none, [], Bytes, ok, arith,
  Option-cases, Bool-cases, eq_bytes_iff, subst, cmp_bytes-eq, Outcome-cases,
}
use rust_proof.U64.{u64_limit, wrapping_add}
use rust_proof.BTreeMap.{BTreeMap, get, contains_key, insert}
use rust_proof.BTreeMap.Laws.{get-insert_self, insert-IsSorted}
use rust_proof.Core.Crypto.{Crypto}
use rust_proof.Core.Models.{Block}
use rust_proof.Core.Block
use rust_proof.Core.State.{State}
use rust_proof.Core.Blockchain.{validate_and_apply_block, should_replace_head}
use rust_proof.Core.Blockchain.Accept.{IsAccepted, validate_and_apply_block_iff}
use rust_proof.Node.Blockchain.{
  BlockNode, Blockchain, ImportedBlock, get_latest_block, add_child, add_node, import_block,
  add_block, rooted,
}
use rust_proof.Node.Blockchain.Links.{IsLinked, IsChain}
use rust_proof.Node.Blockchain.Tree.{
  block_at, IsTree, seen, stored, IsTree-IsLinked, IsLinked-IsTree, block_at-add_child,
  add_child-IsSorted, block_at-add_node, add_node_known, IsTree-same, add_node-IsTree,
}

module _ ⦃c : Crypto⦄ where
  -- No known block names as its parent a block that is not known. It would take a cycle of hashes
  -- for a known block to descend from one that is imported on top of it.
  abbrev pub NoOrphanOf : Block → BTreeMap BlockNode → Type 0
  NoOrphanOf b chain =
      (h : Bytes) (x : Block)
      → block_at h chain ≡ some x
      → Block.previous_hash x ≡ Block.hash b
      → contains_key (Block.hash b) chain ≡ true

  abbrev pub grown_chain : Blockchain → Block → BTreeMap BlockNode
  grown_chain bc b =
      add_node (Block.hash b) b (add_child (Block.previous_hash b) (Block.hash b) bc.chain)

  known_block_at :
      (h : Bytes) (chain : BTreeMap BlockNode)
      → contains_key h chain ≡ true
      → block_at h chain ≢ none
  unfolding contains_key block_at
  known_block_at h chain k e = ground arith

  -- The tree behind an import is linked.
  grown_chain-IsTree :
      (bc : Blockchain) (b parent : Block)
      → IsTree bc.chain
      → NoOrphanOf b bc.chain
      → block_at (Block.previous_hash b) bc.chain ≡ some parent
      → Block.height b ≡ wrapping_add (Block.height parent) 1
      → IsTree (grown_chain bc b)
  grown_chain-IsTree bc b parent t no_orphan p height =
      let mid = add_child (Block.previous_hash b) (Block.hash b) bc.chain in
      let same =
        λ (h : Bytes). block_at-add_child (Block.previous_hash b) (Block.hash b) h bc.chain in
      let tm : IsTree mid =
        IsTree-same bc.chain mid same (add_child-IsSorted _ _ bc.chain t.ordered) t in
      elim (Option-cases (block_at (Block.hash b) bc.chain)) [
        | inr (x, e) ↦
            subst IsTree (sym (add_node_known (Block.hash b) b x mid (same (Block.hash b) ∙ e))) tm
        | inl fresh ↦
            add_node-IsTree b parent mid tm (same (Block.previous_hash b) ∙ p) height
              (same (Block.hash b) ∙ fresh)
              (λ h x e q.
                known_block_at (Block.hash b) bc.chain (no_orphan h x (sym (same h) ∙ e) q) fresh)
      ]

  -- A known block stays where it is.
  pub grown_chain-keeps :
      (bc : Blockchain) (b x : Block) (h : Bytes)
      → block_at h bc.chain ≡ some x
      → block_at h (grown_chain bc b) ≡ some x
  grown_chain-keeps bc b x h e =
      let mid = add_child (Block.previous_hash b) (Block.hash b) bc.chain in
      let same =
        λ (k : Bytes). block_at-add_child (Block.previous_hash b) (Block.hash b) k bc.chain in
      elim (Option-cases (block_at (Block.hash b) mid)) [
        | inr (y, known) ↦ rw (add_node_known (Block.hash b) b y mid known) (same h ∙ e)
        | inl fresh ↦ ground (
          arith,
          block_at-add_node (Block.hash b) b mid h fresh,
          same h,
          eq_bytes_iff h (Block.hash b),
        )
      ]

  -- The new block's hash is known behind the import.
  pub grown_chain-has :
      (bc : Blockchain) (b : Block)
      → (x : Block) × (block_at (Block.hash b) (grown_chain bc b) ≡ some x)
  grown_chain-has bc b =
      let mid = add_child (Block.previous_hash b) (Block.hash b) bc.chain in
      elim (Option-cases (block_at (Block.hash b) mid)) [
        | inr (y, known) ↦ (y, rw (add_node_known (Block.hash b) b y mid known) known)
        | inl fresh ↦ (
          b,
          ground (
            arith,
            block_at-add_node (Block.hash b) b mid (Block.hash b) fresh,
            eq_bytes_iff (Block.hash b) (Block.hash b),
          ),
        )
      ]

  -- What a successful import has checked.
  pub record Accepted (bc : Blockchain) (b : Block) (parent_state next : State) : Type 0 where
    pub parent : Block
    pub parent_known : block_at (Block.previous_hash b) bc.chain ≡ some parent
    pub rules : IsAccepted parent parent_state b next

  -- An import succeeds only for a block whose parent is known and that keeps the rules on top of the
  -- given state, and then goes on with the state behind the block.
  pub add_block-Accepted :
      (bc bc' : Blockchain) (b : Block) (parent_state : State) (imported : ImportedBlock)
      → add_block bc b parent_state ≡ ok (bc', imported)
      → (next : State) × Accepted bc b parent_state next
        × (import_block bc b next ≡ ok (bc', imported))
  unfolding add_block
  add_block-Accepted bc bc' b parent_state imported h =
      elim (Option-cases (get (Block.previous_hash b) bc.chain)) [
        | inl e ↦ absurd (ground arith)
        | inr (n, e) ↦ elim (Outcome-cases (validate_and_apply_block n.block parent_state b)) [
          | inl (next, v) ↦ (
            next,
            record {
              parent = n.block;
              parent_known = seen (Block.previous_hash b) bc.chain n e;
              rules = (validate_and_apply_block_iff n.block parent_state b next).0 v;
            },
            ground (arith, e, v),
          )
          | inr (inl (x, v)) ↦ absurd (ground arith)
          | inr (inr v) ↦ absurd (ground arith)
        ]
      ]

  -- The head behind an import.
  pub record HeadRule (bc bc' : Blockchain) (b : Block) (next : State) (imported : ImportedBlock)
      : Type 0 where
    pub next_state : imported.next_state ≡ next
    pub replaced : imported.became_head ≡ true → (bc'.head_hash ≡ Block.hash b) × (bc'.state ≡ next)
    pub kept :
        imported.became_head ≡ false
        → (bc'.head_hash ≡ bc.head_hash) × (bc'.state ≡ bc.state) × (bc'.mempool ≡ bc.mempool)
    pub by_rule :
        (i : IsChain bc)
        → imported.became_head ≡ should_replace_head (Block.hash b) b i.head.block bc.head_hash
    pub chain : bc'.chain ≡ grown_chain bc b

  pub import_block-HeadRule :
      (bc bc' : Blockchain) (b : Block) (next : State) (imported : ImportedBlock)
      → import_block bc b next ≡ ok (bc', imported)
      → HeadRule bc bc' b next imported
  unfolding import_block get_latest_block
  import_block-HeadRule bc bc' b next imported h =
      elim (Option-cases (get bc.head_hash (grown_chain bc b))) [
        | inl e ↦ absurd (ground arith)
        | inr (n, e) ↦
            let head_block = λ (i : IsChain bc).
              grown_chain-keeps bc b i.head.block bc.head_hash
                (seen bc.head_hash bc.chain i.head i.head_known) in
            let found = seen bc.head_hash (grown_chain bc b) n e in
            record {
              next_state = ground arith;
              replaced = λ r. ground arith;
              kept = λ r. ground arith;
              by_rule = λ i. ground (arith, head_block i, found);
              chain = ground arith;
            }
      ]

  -- A successful import keeps the tree linked and its head known, if no known block names the new
  -- one as its parent while that one is unknown.
  pub add_block-IsChain :
      (bc bc' : Blockchain) (b : Block) (parent_state : State) (imported : ImportedBlock)
      → IsChain bc
      → NoOrphanOf b bc.chain
      → add_block bc b parent_state ≡ ok (bc', imported)
      → IsChain bc'
  add_block-IsChain bc bc' b parent_state imported i no_orphan h =
      let (next, a, r) = add_block-Accepted bc bc' b parent_state imported h in
      let rule = import_block-HeadRule bc bc' b next imported r in
      let tree =
        grown_chain-IsTree bc b a.parent (IsLinked-IsTree bc.chain i.tree) no_orphan a.parent_known
          a.rules.height in
      let (x, has) = grown_chain-has bc b in
      let head_block =
        grown_chain-keeps bc b i.head.block bc.head_hash
          (seen bc.head_hash bc.chain i.head i.head_known) in
      let known : (y : Block) × (block_at bc'.head_hash (grown_chain bc b) ≡ some y) =
        elim (Bool-cases imported.became_head) [
          | inl yes_head ↦ (x, rw ((rule.replaced yes_head).0) has)
          | inr no_head ↦ (i.head.block, rw ((rule.kept no_head).0) head_block)
        ] in
      let (n, g, q) = stored bc'.head_hash (grown_chain bc b) known.0 known.1 in
      record {
        tree = subst IsLinked (sym rule.chain) (IsTree-IsLinked (grown_chain bc b) tree);
        head = n;
        head_known = rw rule.chain g;
      }

  -- A successful import into a tree that is linked and has a known head has accepted the block on top
  -- of its known parent and the given state, and returns the state that the rules lead to. The head
  -- moves to the new block, with that state, exactly if the fork choice prefers the block to the old
  -- head; otherwise head, state and pending transactions stay.
  pub add_block-head :
      (bc bc' : Blockchain) (b : Block) (parent_state : State) (imported : ImportedBlock)
      → (i : IsChain bc) → add_block bc b parent_state ≡ ok (bc', imported)
      → Accepted bc b parent_state imported.next_state
        × (imported.became_head ≡ should_replace_head (Block.hash b) b i.head.block bc.head_hash)
        × (imported.became_head ≡ true
            → (bc'.head_hash ≡ Block.hash b) × (bc'.state ≡ imported.next_state))
        × (imported.became_head ≡ false
            → (bc'.head_hash ≡ bc.head_hash) × (bc'.state ≡ bc.state) × (bc'.mempool ≡ bc.mempool))
  add_block-head bc bc' b parent_state imported i h =
      let (next, a, r) = add_block-Accepted bc bc' b parent_state imported h in
      let rule = import_block-HeadRule bc bc' b next imported r in
      (
        subst (Accepted bc b parent_state) (sym rule.next_state) a,
        rule.by_rule i,
        λ t. ((rule.replaced t).0, (rule.replaced t).1 ∙ sym rule.next_state),
        rule.kept,
      )

  one_node :
      (b : Block) (h : Bytes) (n : BlockNode)
      → get h (insert (Block.hash b) (record { block = b; children = [] }) []) ≡ some n
      → (h ≡ Block.hash b) × (n.block ≡ b)
  unfolding insert get
  one_node b h n e = ground (arith, cmp_bytes-eq h (Block.hash b))

  -- A tree with one block, as a new node has it and one that is restored from a snapshot, is
  -- linked and has a known head, if the block is not its own parent and its height has 64 bits.
  pub rooted-IsChain :
      (b : Block) (s : State)
      → Block.height b < u64_limit
      → Block.previous_hash b ≢ Block.hash b
      → IsChain (rooted b s)
  rooted-IsChain b s small acyclic =
      let root : BlockNode = record { block = b; children = [] } in
      record {
        tree = record {
          ordered = insert-IsSorted (Block.hash b) root [] tt;
          keyed = λ h n e. let (q, r) = one_node b h n e in ap Block.hash r ∙ sym q;
          in_range = λ h n e. let (q, r) = one_node b h n e in omega (arith, ap Block.height r);
          linked = λ h n p e f.
              let (q, r) = one_node b h n e in
              let (q', r') = one_node b (Block.previous_hash n.block) p f in
              absurd (acyclic (ap Block.previous_hash (sym r) ∙ q'));
        };
        head = root;
        head_known = get-insert_self (Block.hash b) root [];
      }
