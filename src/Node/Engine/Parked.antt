-- ===== src/Node/Engine/Parked.antt =====
-- rp-node/src/node_engine.rs: `import_parked_blocks`, the blocks that wait for the state of a parent.
use rust_proof.Base.{
  ℕ, zero, suc, ◌≤◌, ◌≡◌, ◌∙◌, refl, inl, inr, List, [], ◌∷◌, ◌++◌, Bytes, ok, arith, length,
  Bool-cases, Option-cases, Outcome-cases,
}
use rust_proof.BTreeMap
use rust_proof.BTreeMap.Laws.{length-remove}
use rust_proof.Core.Crypto.{Crypto}
use rust_proof.Core.Block
use rust_proof.Core.State.{State}
use rust_proof.Node.Report.{failed_importing_parked_block}
use rust_proof.Node.Contract.{NodeAction, report_event}
use rust_proof.Node.Blockchain.{add_block}
use rust_proof.Node.Blockchain.Returns.{HasHead, add_block-returns, add_block-HasHead}
use rust_proof.Node.Engine.{
  NodeEngine, Run, Effect, ParkedBlock, import_each, import_parked_loop, import_parked_blocks,
  persist,
}

module _ ⦃c : Crypto⦄ where
  -- The call returns an engine with a known head, that lets at most `n` parents wait.
  pub record Returns (n : ℕ) (m : Run Effect) : Type 0 where
    pub engine : NodeEngine
    pub actions : List NodeAction
    pub result : m ≡ ok (engine, actions)
    pub head : HasHead engine.blockchain
    pub waiting : length engine.pending_blocks ≤ n

  same_call : (n : ℕ) {m m' : Run Effect} → Returns n m' → m ≡ m' → Returns n m
  same_call n r same = record {
    engine = r.engine;
    actions = r.actions;
    result = same ∙ r.result;
    head = r.head;
    waiting = r.waiting;
  }

  import_each-Returns :
      (n : ℕ) (recur : NodeEngine → Bytes → State → Run Effect) (parked : List ParkedBlock)
      (e : NodeEngine) (s : State) (xs : List NodeAction)
      → ((e' : NodeEngine) (k : Bytes) (s' : State)
          → HasHead e'.blockchain
          → length e'.pending_blocks ≤ n
          → Returns n (recur e' k s'))
      → HasHead e.blockchain
      → length e.pending_blocks ≤ n
      → Returns n (import_each recur e s parked xs)
  unfolding import_each
  import_each-Returns n recur [] e s xs calls head le = record {
    engine = e;
    actions = xs;
    result = refl;
    head = head;
    waiting = le;
  }
  import_each-Returns n recur (b ∷ rest) e s xs calls head le =
      elim (Outcome-cases (add_block e.blockchain b.block s)) [
        | inr (inr q) ↦ absurd (add_block-returns e.blockchain b.block s head q)
        | inr (inl (x, q)) ↦
            let zs = report_event failed_importing_parked_block ∷ [] in
            let r = import_each-Returns n recur rest e s (xs ++ zs) calls head le in
            same_call n r (ground (arith))
        | inl ((bc, imported), q) ↦
            let e1 : NodeEngine = record e { blockchain = bc } in
            let zs = persist b.block imported in
            let head1 = add_block-HasHead e.blockchain bc b.block s imported head q in
            elim (Bool-cases imported.became_head) [
              | inr stays ↦
                  let r = import_each-Returns n recur rest e1 s (xs ++ zs) calls head1 le in
                  same_call n r (ground (arith))
              | inl moves ↦
                  let called = calls e1 (Block.hash b.block) imported.next_state head1 le in
                  let r =
                    import_each-Returns n recur rest called.engine s ((xs ++ zs) ++ called.actions)
                      calls called.head called.waiting in
                  same_call n r (ground (arith, called.result))
            ]
      ]

  import_parked_loop-Returns :
      (n : ℕ) (e : NodeEngine) (k : Bytes) (s : State)
      → HasHead e.blockchain
      → length e.pending_blocks ≤ n
      → Returns n (import_parked_loop (suc n) e k s)
  unfolding import_parked_loop
  import_parked_loop-Returns zero e k s head le =
      elim (Option-cases (BTreeMap.get k e.pending_blocks)) [
        | inl q ↦ record {
          engine = e;
          actions = [];
          result = ground arith;
          head = head;
          waiting = le;
        }
        | inr (parked, q) ↦ absurd (omega (arith, length-remove k e.pending_blocks parked q))
      ]
  import_parked_loop-Returns (suc n) e k s head le =
      elim (Option-cases (BTreeMap.get k e.pending_blocks)) [
        | inl q ↦ record {
          engine = e;
          actions = [];
          result = ground arith;
          head = head;
          waiting = le;
        }
        | inr (parked, q) ↦
            let e1 : NodeEngine = record e {
              pending_blocks = BTreeMap.remove k e.pending_blocks;
            } in
            let r =
              import_each-Returns n (import_parked_loop (suc n)) parked e1 s []
                (import_parked_loop-Returns n) head
                (omega (arith, length-remove k e.pending_blocks parked q)) in
            record {
              engine = r.engine;
              actions = r.actions;
              result = ground (arith, r.result);
              head = r.head;
              waiting = omega (arith, r.waiting);
            }
      ]

  -- For an engine with a known head, importing the blocks that wait for a parent returns: the fuel
  -- is enough. The head stays known, and no more parents are waited for than before.
  pub import_parked_blocks-Returns :
      (e : NodeEngine) (k : Bytes) (s : State)
      → HasHead e.blockchain
      → Returns (length e.pending_blocks) (import_parked_blocks e k s)
  unfolding import_parked_blocks
  import_parked_blocks-Returns e k s head =
      import_parked_loop-Returns (length e.pending_blocks) e k s head (omega arith)
