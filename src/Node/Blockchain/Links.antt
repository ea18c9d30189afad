-- ===== src/Node/Blockchain/Links.antt =====
-- rp-node/src/blockchain.rs: the invariant of the tree of blocks, and the walk to the earliest known
-- ancestor.
use rust_proof.Base.{
  ℕ, zero, suc, ◌≤◌, ◌<◌, ◌≡◌, ◌∙◌, ◌⊎◌, inl, inr, some, none, Bytes, ok, arith, ◌==◌, Option-cases,
  Bool-cases, ◌≢◌,
}
use rust_proof.U64.{u64_limit, wrapping_add}
use rust_proof.BTreeMap.{BTreeMap, IsSorted, get, contains_key}
use rust_proof.Core.Crypto.{Crypto}
use rust_proof.Core.Block
use rust_proof.Node.Blockchain.{
  BlockNode, Blockchain, get_latest_block, earliest_loop, earliest_contiguous_height,
}

module _ ⦃c : Crypto⦄ where
  -- Blocks are stored under their hashes, and a child is one higher than its parent.
  pub record IsLinked (chain : BTreeMap BlockNode) : Type 0 where
    pub ordered : IsSorted chain
    pub keyed : (h : Bytes) (n : BlockNode) → get h chain ≡ some n → Block.hash n.block ≡ h
    pub in_range :
        (h : Bytes) (n : BlockNode) → get h chain ≡ some n → Block.height n.block < u64_limit
    pub linked :
        (h : Bytes) (n p : BlockNode)
        → get h chain ≡ some n
        → get (Block.previous_hash n.block) chain ≡ some p
        → Block.height n.block ≡ wrapping_add (Block.height p.block) 1

  pub record IsChain (bc : Blockchain) : Type 0 where
    pub tree : IsLinked bc.chain
    pub head : BlockNode
    pub head_known : get bc.head_hash bc.chain ≡ some head

  pub get_latest_block-IsChain :
      {E : Type 0} (bc : Blockchain) (i : IsChain bc)
      → get_latest_block {E = E} bc ≡ ok i.head.block
  unfolding get_latest_block
  get_latest_block-IsChain bc i = rw (i.head_known, get_latest_block)

  pub parent_height :
      (chain : BTreeMap BlockNode) (h : Bytes) (n p : BlockNode)
      → IsLinked chain
      → get h chain ≡ some n
      → get (Block.previous_hash n.block) chain ≡ some p
      → Block.height n.block ≢ 0
      → suc (Block.height p.block) ≡ Block.height n.block
  unfolding wrapping_add
  parent_height chain h n p l e q nz =
      omega (arith, l.linked h n p e q, l.in_range (Block.previous_hash n.block) p q)

  -- The loop stops at a block of height 0, and at one whose parent is not known.
  pub earliest_stops :
      {E : Type 0} (k : ℕ) (chain : BTreeMap BlockNode) (h : Bytes) (n : BlockNode) (acc : ℕ)
      → get h chain ≡ some n
      → (Block.height n.block ≡ 0) ⊎ (get (Block.previous_hash n.block) chain ≡ none)
      → earliest_loop {E = E} (suc k) chain h acc ≡ ok (Block.height n.block)
  unfolding earliest_loop contains_key
  earliest_stops k chain h n acc e (inl z) = ground arith
  earliest_stops k chain h n acc e (inr z) = ground arith

  -- Else it goes on at the parent.
  pub earliest_goes_on :
      {E : Type 0} (k : ℕ) (chain : BTreeMap BlockNode) (h : Bytes) (n p : BlockNode) (acc : ℕ)
      → get h chain ≡ some n
      → Block.height n.block ≢ 0
      → get (Block.previous_hash n.block) chain ≡ some p
      → earliest_loop {E = E} (suc k) chain h acc
        ≡ earliest_loop k chain (Block.previous_hash n.block) (Block.height n.block)
  unfolding earliest_loop contains_key
  earliest_goes_on k chain h n p acc e nz q = ground arith

  abbrev pub Stops : BTreeMap BlockNode → BlockNode → Type 0
  Stops chain n = (Block.height n.block ≡ 0) ⊎ (get (Block.previous_hash n.block) chain ≡ none)

  pub ends_or_parent :
      (chain : BTreeMap BlockNode) (n : BlockNode)
      → Stops chain n
        ⊎ ((p : BlockNode) × (Block.height n.block ≢ 0)
            × (get (Block.previous_hash n.block) chain ≡ some p))
  ends_or_parent chain n = elim (Bool-cases (Block.height n.block == 0)) [
    | inl z ↦ inl (inl (ground arith))
    | inr nz ↦ elim (Option-cases (get (Block.previous_hash n.block) chain)) [
      | inl q ↦ inl (inr q)
      | inr (p, q) ↦ inr (p, ground arith, q)
    ]
  ]

  -- The loop ends by its own test, and it returns a height at or below that of its start.
  pub earliest_loop-ends :
      {E : Type 0} (k : ℕ) (chain : BTreeMap BlockNode) (h : Bytes) (n : BlockNode) (acc : ℕ)
      → IsLinked chain
      → get h chain ≡ some n
      → Block.height n.block ≤ k
      → (e : ℕ) × (earliest_loop {E = E} (suc k) chain h acc ≡ ok e) × (e ≤ Block.height n.block)
  earliest_loop-ends {E} zero chain h n acc l e fits =
      (Block.height n.block, earliest_stops 0 chain h n acc e (inl (omega arith)), omega arith)
  earliest_loop-ends {E} (suc k) chain h n acc l e fits = elim (ends_or_parent chain n) [
    | inl stop ↦ (Block.height n.block, earliest_stops (suc k) chain h n acc e stop, omega arith)
    | inr (p, nz, q) ↦
        let up = parent_height chain h n p l e q nz in
        let (low, r, le) =
          earliest_loop-ends {E = E} k chain (Block.previous_hash n.block) p (Block.height n.block)
            l q (omega (arith, up)) in
        (low, earliest_goes_on (suc k) chain h n p acc e nz q ∙ r, omega (arith, up, le))
  ]

  -- In a linked tree with a known head the walk to the earliest known ancestor ends, at a height
  -- that the head's does not pass.
  pub earliest_contiguous_height-ends :
      {E : Type 0} (bc : Blockchain) (i : IsChain bc)
      → (e : ℕ) × (earliest_contiguous_height {E = E} bc ≡ ok e) × (e ≤ Block.height i.head.block)
  unfolding earliest_contiguous_height
  earliest_contiguous_height-ends {E} bc i =
      let top = Block.height i.head.block in
      let (e, r, le) =
        earliest_loop-ends {E = E} top bc.chain bc.head_hash i.head top i.tree i.head_known
          (omega arith) in
      (e, rw (get_latest_block-IsChain bc i) r, le)
