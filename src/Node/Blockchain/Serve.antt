-- ===== src/Node/Blockchain/Serve.antt =====
-- rp-node/src/blockchain.rs: what `get_blocks` serves.
use mathlib.Core.List.{reverse, reverse-append, map-append}
use Prim.Native.Nat.{min}
use rust_proof.Base.{
  ℕ, zero, suc, ◌+◌, ◌-◌, ◌≤◌, ◌<◌, ◌≡◌, ◌≢◌, ap, sym, ◌∙◌, ◌⊎◌, inl, inr, false, some, List, [],
  ◌∷◌, ◌++◌, Bytes, Outcome, ok, arith, ltb, map, append_assoc, append-nil,
}
use rust_proof.BTreeMap.{BTreeMap, get}
use rust_proof.Core.Crypto.{Crypto}
use rust_proof.Core.Models.{Block}
use rust_proof.Core.Block
use rust_proof.Node.Blockchain.{
  BlockNode, Blockchain, get_latest_block, earliest_loop, earliest_contiguous_height, collect_loop,
  get_blocks, in_window,
}
use rust_proof.Node.Blockchain.Links.{
  IsLinked, IsChain, get_latest_block-IsChain, parent_height, earliest_stops, earliest_goes_on,
  Stops, ends_or_parent, earliest_loop-ends,
}

-- `n` numbers from `a` on.
abbrev pub up : ℕ → ℕ → List ℕ
up a zero = []
up a (suc n) = a ∷ up (suc a) n

up-snoc : (a n : ℕ) → up a (suc n) ≡ up a n ++ (a + n) ∷ []
up-snoc a zero = ap (λ (x : ℕ). x ∷ []) (omega arith)
up-snoc a (suc n) =
    ap (◌∷◌ a) (up-snoc (suc a) n ∙ ap (λ (x : ℕ). up (suc a) n ++ x ∷ []) (omega arith))

module _ ⦃c : Crypto⦄ where
  abbrev pub heights : List Block → List ℕ
  heights = map Block.height

  -- The heights in the window at or below `top`.
  abbrev pub served : ℕ → ℕ → ℕ → List ℕ
  served from_height to_height top = up from_height (suc (min to_height top) - from_height)

  in_or_out :
      (from_height to_height : ℕ) (b : Block)
      → ((in_window from_height to_height b ≡ b ∷ [])
          × (from_height ≤ Block.height b)
          × (Block.height b ≤ to_height))
        ⊎ ((in_window from_height to_height b ≡ [])
            × ((Block.height b < from_height) ⊎ (to_height < Block.height b)))
  in_or_out from_height to_height b = ground arith

  window_heights :
      (from_height to_height : ℕ) (b : Block) (below : ℕ)
      → suc below ≡ Block.height b
      → served from_height to_height below ++ heights (in_window from_height to_height b)
        ≡ served from_height to_height (Block.height b)
  window_heights from_height to_height b below e = elim (in_or_out from_height to_height b) [
    | inl (w, lo, hi) ↦
        let n : ℕ = suc (min to_height below) - from_height in
        let more : suc (min to_height (Block.height b)) - from_height ≡ suc n = omega arith in
        let at : from_height + n ≡ Block.height b = omega arith in
        rw (w, more, up-snoc from_height n, at)
    | inr (w, out) ↦
        let same : suc (min to_height (Block.height b)) - from_height
            ≡ suc (min to_height below) - from_height =
          omega arith in
        rw (w, same) (append-nil _)
  ]

  last_window :
      (from_height to_height : ℕ) (b : Block)
      → from_height ≤ to_height
      → Block.height b ≤ from_height
      → heights (in_window from_height to_height b) ≡ served from_height to_height (Block.height b)
  last_window from_height to_height b le low = elim (in_or_out from_height to_height b) [
    | inl (w, lo, hi) ↦
        let one : suc (min to_height (Block.height b)) - from_height ≡ 1 = omega arith in
        let at : Block.height b ≡ from_height = omega arith in
        rw (w, one) (ap (λ (x : ℕ). x ∷ []) at)
    | inr (w, out) ↦
        let none_left : suc (min to_height (Block.height b)) - from_height ≡ 0 = omega arith in
        rw (w, none_left)
  ]

  reverse-in_window :
      (from_height to_height : ℕ) (b : Block)
      → reverse (in_window from_height to_height b) ≡ in_window from_height to_height b
  reverse-in_window from_height to_height b = elim (in_or_out from_height to_height b) [
    | inl (w, lo, hi) ↦ rw w
    | inr (w, out) ↦ rw w
  ]

  collect_stops :
      {E : Type 0} (k : ℕ) (chain : BTreeMap BlockNode) (h : Bytes) (n : BlockNode)
      (e from_height to_height : ℕ) (acc : List Block)
      → get h chain ≡ some n
      → (Block.height n.block ≡ e) ⊎ (Block.height n.block ≡ 0)
      → collect_loop {E = E} (suc k) chain h e from_height to_height acc
        ≡ ok (acc ++ in_window from_height to_height n.block)
  unfolding collect_loop
  collect_stops k chain h n e from_height to_height acc g stop = ground arith

  collect_goes_on :
      {E : Type 0} (k : ℕ) (chain : BTreeMap BlockNode) (h : Bytes) (n : BlockNode)
      (e from_height to_height : ℕ) (acc : List Block)
      → get h chain ≡ some n
      → Block.height n.block ≢ e
      → Block.height n.block ≢ 0
      → collect_loop {E = E} (suc k) chain h e from_height to_height acc
        ≡ collect_loop k chain
            (Block.previous_hash n.block)
            e
            from_height
            to_height
            (acc ++ in_window from_height to_height n.block)
  unfolding collect_loop
  collect_goes_on k chain h n e from_height to_height acc g ne nz = ground arith

  step_heights :
      (from_height to_height : ℕ) (ds : List Block) (b : Block) (below : ℕ)
      → heights (reverse ds) ≡ served from_height to_height below
      → suc below ≡ Block.height b
      → heights (reverse (in_window from_height to_height b ++ ds))
        ≡ served from_height to_height (Block.height b)
  step_heights from_height to_height ds b below hs next =
      rw
        (
          reverse-append (in_window from_height to_height b) ds,
          reverse-in_window from_height to_height b,
          map-append Block.height (reverse ds) (in_window from_height to_height b),
          hs,
        )
        (window_heights from_height to_height b below next)

  -- What the loop collects from a block downwards, given that the walk from it ends at `e`.
  abbrev Collected : {E : Type 0} → Outcome E (List Block) → List Block → ℕ → ℕ → ℕ → Type 0
  Collected {E} r acc from_height to_height top =
      (ds : List Block) × (r ≡ ok (acc ++ ds))
      × (heights (reverse ds) ≡ served from_height to_height top)

  stop_served :
      {E : Type 0} (k : ℕ) (chain : BTreeMap BlockNode) (h : Bytes) (n : BlockNode)
      (e from_height to_height start : ℕ) (acc : List Block)
      → get h chain ≡ some n
      → earliest_loop {E = E} (suc k) chain h start ≡ ok e
      → e ≤ from_height
      → from_height ≤ to_height
      → Stops chain n
      → Collected {E = E}
          (collect_loop (suc k) chain h e from_height to_height acc)
          acc
          from_height
          to_height
          (Block.height n.block)
  stop_served {E} k chain h n e from_height to_height start acc g r le window stop =
      let same : ◌≡◌ {A = Outcome E ℕ} (ok (Block.height n.block)) (ok e) =
        sym (earliest_stops k chain h n start g stop) ∙ r in
      let low : Block.height n.block ≡ e = cc in
      (
        in_window from_height to_height n.block,
        collect_stops k chain h n e from_height to_height acc g (inl low),
        rw (reverse-in_window from_height to_height n.block)
            (last_window from_height to_height n.block window (omega arith)),
      )

  collect_loop-served :
      {E : Type 0} (k : ℕ) (chain : BTreeMap BlockNode) (h : Bytes) (n : BlockNode)
      (e from_height to_height start : ℕ) (acc : List Block)
      → IsLinked chain
      → get h chain ≡ some n
      → Block.height n.block ≤ k
      → earliest_loop {E = E} (suc k) chain h start ≡ ok e
      → e ≤ from_height
      → from_height ≤ to_height
      → Collected {E = E}
          (collect_loop (suc k) chain h e from_height to_height acc)
          acc
          from_height
          to_height
          (Block.height n.block)
  collect_loop-served zero chain h n e from_height to_height start acc l g fits r le window =
      stop_served 0 chain h n e from_height to_height start acc g r le window (inl (omega arith))
  collect_loop-served {E} (suc k) chain h n e from_height to_height start acc l g fits r le window =
      elim (ends_or_parent chain n) [
        | inl stop ↦
            stop_served (suc k) chain h n e from_height to_height start acc g r le window stop
        | inr (p, nz, q) ↦
            let above = parent_height chain h n p l g q nz in
            let start' = Block.height n.block in
            let r' : earliest_loop {E = E} (suc k) chain (Block.previous_hash n.block) start'
                ≡ ok e =
              sym (earliest_goes_on (suc k) chain h n p start g nz q) ∙ r in
            let (e', r'', low) =
              earliest_loop-ends {E = E} k chain (Block.previous_hash n.block) p start' l q
                (omega arith) in
            let same : ◌≡◌ {A = Outcome E ℕ} (ok e') (ok e) = sym r'' ∙ r' in
            let e'-eq : e' ≡ e = cc in
            let w = in_window from_height to_height n.block in
            let (ds, found, hs) =
              collect_loop-served {E = E} k chain (Block.previous_hash n.block) p e from_height
                to_height start' (acc ++ w) l q (omega arith) r' le window in
            (
              w ++ ds,
              collect_goes_on (suc k) chain h n e from_height to_height acc g (omega arith) nz
                  ∙ (found ∙ ap ok (append_assoc acc w ds)),
              step_heights from_height to_height ds n.block (Block.height p.block) hs above,
            )
      ]

  walk_of_earliest :
      {E : Type 0} (bc : Blockchain) (i : IsChain bc) (e : ℕ)
      → earliest_contiguous_height {E = E} bc ≡ ok e
      → earliest_loop {E = E}
          (suc (Block.height i.head.block))
          bc.chain
          bc.head_hash
          (Block.height i.head.block)
        ≡ ok e
  unfolding earliest_contiguous_height
  walk_of_earliest {E} bc i e known = rw (get_latest_block-IsChain {E = E} bc i) at known

  window_of_walk :
      {E : Type 0} (bc : Blockchain) (latest : Block) (e from_height to_height : ℕ)
      (ds : List Block)
      → get_latest_block {E = E} bc ≡ ok latest
      → earliest_contiguous_height {E = E} bc ≡ ok e
      → collect_loop {E = E}
          (suc (Block.height latest))
          bc.chain
          bc.head_hash
          e
          from_height
          to_height
          []
        ≡ ok ds
      → e ≤ from_height
      → from_height ≤ Block.height latest
      → from_height ≤ to_height
      → get_blocks {E = E} bc from_height to_height ≡ ok (reverse ds)
  unfolding get_blocks
  window_of_walk bc latest e from_height to_height ds known walk found low high window =
      let open_window : ltb to_height from_height ≡ false = ground arith in
      let not_below : ltb from_height e ≡ false = ground arith in
      let not_above : ltb (Block.height latest) from_height ≡ false = ground arith in
      rw (open_window, walk, known, not_below, not_above, found)

  -- In a tree that is linked and has a known head, the reply to a request for a window that is not
  -- empty and begins between the earliest contiguous height and that of the head: blocks whose
  -- heights are exactly those of the window up to the head, the lowest first and without a gap.
  pub get_blocks-served :
      {E : Type 0} (bc : Blockchain) (i : IsChain bc) (e from_height to_height : ℕ)
      → earliest_contiguous_height {E = E} bc ≡ ok e
      → e ≤ from_height
      → from_height ≤ Block.height i.head.block
      → from_height ≤ to_height
      → (blocks : List Block) × (get_blocks {E = E} bc from_height to_height ≡ ok blocks)
        × (heights blocks ≡ served from_height to_height (Block.height i.head.block))
  get_blocks-served {E} bc i e from_height to_height known low high window =
      let top = Block.height i.head.block in
      let latest = get_latest_block-IsChain {E = E} bc i in
      let r : earliest_loop {E = E} (suc top) bc.chain bc.head_hash top ≡ ok e =
        walk_of_earliest bc i e known in
      let (ds, found, hs) =
        collect_loop-served {E = E} top bc.chain bc.head_hash i.head e from_height to_height top []
          i.tree i.head_known (omega arith) r low window in
      (
        reverse ds,
        window_of_walk bc i.head.block e from_height to_height ds latest known found low high
            window,
        hs,
      )
