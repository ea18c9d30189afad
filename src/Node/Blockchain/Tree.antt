-- ===== src/Node/Blockchain/Tree.antt =====
-- The tree of blocks without the lists of children, and how a new node changes it.
use rust_proof.Base.{
  ◌<◌, ◌≡◌, ◌≢◌, ap, sym, ◌∙◌, ◌⊎◌, inl, inr, some, none, Option, [], ◌∷◌, ◌++◌, Bytes, arith,
  if◌then◌else◌, Option-cases, Bool-cases, eq_bytes, eq_bytes_iff, subst,
}
use rust_proof.U64.{u64_limit, wrapping_add, wrapping_add-lt}
use rust_proof.BTreeMap.{BTreeMap, IsSorted, get, contains_key}
use rust_proof.BTreeMap.Laws.{get-insert, insert-IsSorted}
use rust_proof.Core.Crypto.{Crypto}
use rust_proof.Core.Models.{Block}
use rust_proof.Core.Block
use rust_proof.Node.Blockchain.{BlockNode, add_child, add_node}
use rust_proof.Node.Blockchain.Links.{IsLinked}

module _ ⦃c : Crypto⦄ where
  -- The block that is stored under a hash, without its list of children.
  unfoldable pub block_at : Bytes → BTreeMap BlockNode → Option Block
  block_at h chain = elim (get h chain) [ none ↦ none | some n ↦ some n.block ]

  -- `IsLinked`, seen without the lists of children.
  pub record IsTree (chain : BTreeMap BlockNode) : Type 0 where
    pub ordered : IsSorted chain
    pub keyed : (h : Bytes) (x : Block) → block_at h chain ≡ some x → Block.hash x ≡ h
    pub in_range : (h : Bytes) (x : Block) → block_at h chain ≡ some x → Block.height x < u64_limit
    pub linked :
        (h : Bytes) (x p : Block)
        → block_at h chain ≡ some x
        → block_at (Block.previous_hash x) chain ≡ some p
        → Block.height x ≡ wrapping_add (Block.height p) 1

  pub seen :
      (h : Bytes) (chain : BTreeMap BlockNode) (n : BlockNode)
      → get h chain ≡ some n
      → block_at h chain ≡ some n.block
  unfolding block_at
  seen h chain n e = ground arith

  pub stored :
      (h : Bytes) (chain : BTreeMap BlockNode) (x : Block)
      → block_at h chain ≡ some x
      → (n : BlockNode) × (get h chain ≡ some n) × (n.block ≡ x)
  unfolding block_at
  stored h chain x e = elim (Option-cases (get h chain)) [
    | inl q ↦ absurd (ground arith)
    | inr (n, q) ↦ (n, q, ground arith)
  ]

  pub IsTree-IsLinked : (chain : BTreeMap BlockNode) → IsTree chain → IsLinked chain
  IsTree-IsLinked chain t = record {
    ordered = t.ordered;
    keyed = λ h n e. t.keyed h n.block (seen h chain n e);
    in_range = λ h n e. t.in_range h n.block (seen h chain n e);
    linked = λ h n p e q.
        t.linked h n.block p.block (seen h chain n e)
          (seen (Block.previous_hash n.block) chain p q);
  }

  pub IsLinked-IsTree : (chain : BTreeMap BlockNode) → IsLinked chain → IsTree chain
  IsLinked-IsTree chain l = record {
    ordered = l.ordered;
    keyed = λ h x e.
        let (n, g, q) = stored h chain x e in subst (λ y. Block.hash y ≡ h) q (l.keyed h n g);
    in_range = λ h x e.
        let (n, g, q) = stored h chain x e in
        subst (λ y. Block.height y < u64_limit) q (l.in_range h n g);
    linked = λ h x p e f.
        let (n, g, q) = stored h chain x e in
        let (m, k, r) = stored (Block.previous_hash x) chain p f in
        rw (← q, ← r)
          (l.linked h n m g (subst (λ y. get (Block.previous_hash y) chain ≡ some m) (sym q) k));
  }

  pub block_at-add_child :
      (parent_hash block_hash h : Bytes) (chain : BTreeMap BlockNode)
      → block_at h (add_child parent_hash block_hash chain) ≡ block_at h chain
  unfolding block_at add_child
  block_at-add_child parent_hash block_hash h chain = elim (Option-cases (get parent_hash chain)) [
    | inl q ↦ rw (q, add_child)
    | inr (n, q) ↦ ground (
      arith,
      q,
      get-insert parent_hash h (record n { children = n.children ++ block_hash ∷ [] }) chain,
      eq_bytes_iff h parent_hash,
    )
  ]

  pub add_child-IsSorted :
      (parent_hash block_hash : Bytes) (chain : BTreeMap BlockNode)
      → IsSorted chain
      → IsSorted (add_child parent_hash block_hash chain)
  unfolding add_child
  add_child-IsSorted parent_hash block_hash chain s = elim (Option-cases (get parent_hash chain)) [
    | inl q ↦ rw (q, add_child) s
    | inr (n, q) ↦ ground (
      arith,
      q,
      insert-IsSorted parent_hash (record n { children = n.children ++ block_hash ∷ [] }) chain s,
    )
  ]

  pub block_at-add_node :
      (h : Bytes) (b : Block) (chain : BTreeMap BlockNode) (k : Bytes)
      → block_at h chain ≡ none
      → block_at k (add_node h b chain) ≡ (if eq_bytes k h then some b else block_at k chain)
  unfolding block_at add_node contains_key
  block_at-add_node h b chain k e =
      ground (arith, get-insert h k (record { block = b; children = [] }) chain)

  pub add_node_known :
      (h : Bytes) (b x : Block) (chain : BTreeMap BlockNode)
      → block_at h chain ≡ some x
      → add_node h b chain ≡ chain
  unfolding block_at add_node contains_key
  add_node_known h b x chain e = ground arith

  add_node-IsSorted :
      (h : Bytes) (b : Block) (chain : BTreeMap BlockNode)
      → IsSorted chain
      → IsSorted (add_node h b chain)
  unfolding add_node
  add_node-IsSorted h b chain s =
      ground (arith, insert-IsSorted h (record { block = b; children = [] }) chain s)

  pub IsTree-same :
      (old changed : BTreeMap BlockNode)
      → ((h : Bytes) → block_at h changed ≡ block_at h old)
      → IsSorted changed
      → IsTree old
      → IsTree changed
  IsTree-same old changed same s t = record {
    ordered = s;
    keyed = λ h x e. t.keyed h x (sym (same h) ∙ e);
    in_range = λ h x e. t.in_range h x (sym (same h) ∙ e);
    linked =
        λ h x p e q. t.linked h x p (sym (same h) ∙ e) (sym (same (Block.previous_hash x)) ∙ q);
  }

  -- The new node is the block `b`, or a node that was there.
  pub new_or_old :
      (hb : Bytes) (b : Block) (chain : BTreeMap BlockNode) (h : Bytes) (x : Block)
      → block_at hb chain ≡ none
      → block_at h (add_node hb b chain) ≡ some x
      → ((h ≡ hb) × (x ≡ b)) ⊎ ((h ≢ hb) × (block_at h chain ≡ some x))
  new_or_old hb b chain h x fresh e =
      let at = block_at-add_node hb b chain h fresh in
      elim (Bool-cases (eq_bytes h hb)) [
        | inl same ↦ inl ((eq_bytes_iff h hb).0 same, ground (arith, at))
        | inr other ↦ inr (λ q. cc (other, (eq_bytes_iff h hb).1 q), ground (arith, at))
      ]

  pub add_node-IsTree :
      (b parent : Block) (chain : BTreeMap BlockNode)
      → IsTree chain
      → block_at (Block.previous_hash b) chain ≡ some parent
      → Block.height b ≡ wrapping_add (Block.height parent) 1
      → block_at (Block.hash b) chain ≡ none
      → ((h : Bytes) (x : Block) → block_at h chain ≡ some x → Block.previous_hash x ≢ Block.hash b)
      → IsTree (add_node (Block.hash b) b chain)
  add_node-IsTree b parent chain t p height fresh no_orphan = record {
    ordered = add_node-IsSorted (Block.hash b) b chain t.ordered;
    keyed = λ h x e. elim (new_or_old (Block.hash b) b chain h x fresh e) [
      | inl (q, r) ↦ ap Block.hash r ∙ sym q
      | inr (q, r) ↦ t.keyed h x r
    ];
    in_range = λ h x e. elim (new_or_old (Block.hash b) b chain h x fresh e) [
      | inl (q, r) ↦
          omega (arith, ap Block.height r, height, wrapping_add-lt (Block.height parent) 1)
      | inr (q, r) ↦ t.in_range h x r
    ];
    linked = λ h x y e f.
        elim (new_or_old (Block.hash b) b chain (Block.previous_hash x) y fresh f) [
          | inl (q, r) ↦ elim (new_or_old (Block.hash b) b chain h x fresh e) [
            | inl (q', r') ↦ absurd (cc (p, fresh, q, ap Block.previous_hash r'))
            | inr (q', r') ↦ absurd (no_orphan h x r' q)
          ]
          | inr (q, r) ↦ elim (new_or_old (Block.hash b) b chain h x fresh e) [
            | inl (q', r') ↦ cc (height, p, r, ap Block.previous_hash r', ap Block.height r')
            | inr (q', r') ↦ t.linked h x y r' r
          ]
        ];
  }
