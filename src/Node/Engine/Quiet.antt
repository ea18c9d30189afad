-- ===== src/Node/Engine/Quiet.antt =====
-- rp-node/src/node_engine.rs: the actions of an import, seen from the runtime's timer.
use rust_proof.Base.{
  ℕ, zero, suc, ◌≡◌, refl, ◌∙◌, sym, inl, inr, Option, List, [], ◌∷◌, ◌++◌, Bytes, ok, ◌>>=◌,
  >>=-eq-ok, arith, eq_bytes, Bool-cases, Option-cases, Outcome-cases,
}
use rust_proof.BTreeMap
use rust_proof.Core.Crypto.{Crypto}
use rust_proof.Core.Models.{Block}
use rust_proof.Core.Block
use rust_proof.Core.State.{State}
use rust_proof.Node.Report.{failed_importing_parked_block, block_added}
use rust_proof.Node.Contract.{NodeAction, report_event}
use rust_proof.Node.Blockchain.{add_block}
use rust_proof.Node.Engine.{
  NodeEngine, Run, Effect, ParkedBlock, import_each, import_parked_loop, import_parked_blocks,
  ingest_block, persist,
}
use rust_proof.Node.Engine.Wake.{timer_after, timer-append}

module _ ⦃c : Crypto⦄ where
  -- From `e` and `xs` to `e'` and `ys`, neither the scheduled wake-up nor the timer behind the actions
  -- has changed.
  pub record IsQuiet (e : NodeEngine) (xs : List NodeAction) (e' : NodeEngine)
      (ys : List NodeAction) : Type 0 where
    pub scheduled : e'.scheduled_wake_at_ms ≡ e.scheduled_wake_at_ms
    pub silent : (t : Option ℕ) → timer_after t ys ≡ timer_after t xs

  -- So it is for whatever a call returns.
  abbrev pub IsQuietRun : NodeEngine → List NodeAction → Run Effect → Type 0
  IsQuietRun e xs m =
      (e' : NodeEngine) (ys : List NodeAction) → m ≡ ok (e', ys) → IsQuiet e xs e' ys

  pub IsQuiet-append :
      (e e' : NodeEngine) (xs zs : List NodeAction)
      → IsQuiet e [] e' zs
      → IsQuiet e xs e' (xs ++ zs)
  IsQuiet-append e e' xs zs q = record {
    scheduled = q.scheduled;
    silent = λ t. timer-append t xs zs ∙ q.silent (timer_after t xs);
  }

  pub IsQuiet-trans :
      {e1 e2 e3 : NodeEngine} {xs ys zs : List NodeAction}
      → IsQuiet e1 xs e2 ys
      → IsQuiet e2 ys e3 zs
      → IsQuiet e1 xs e3 zs
  IsQuiet-trans p q = record {
    scheduled = q.scheduled ∙ p.scheduled;
    silent = λ t. q.silent t ∙ p.silent t;
  }

  pub returned :
      (e : NodeEngine) (xs : List NodeAction) (e1 e2 : NodeEngine) (ys zs : List NodeAction)
      → ◌≡◌ {A = Run Effect} (ok (e1, ys)) (ok (e2, zs))
      → IsQuiet e xs e1 ys
      → IsQuiet e xs e2 zs
  returned e xs e1 e2 ys zs h q =
      let same_engine : e1 ≡ e2 = cc in
      let same_actions : ys ≡ zs = cc in
      record {
        scheduled = rw (sym same_engine) q.scheduled;
        silent = λ t. (rw (sym same_actions) (q.silent t));
      }

  import_each-IsQuiet :
      (recur : NodeEngine → Bytes → State → Run Effect) (parked : List ParkedBlock) (e : NodeEngine)
      (s : State) (xs : List NodeAction)
      → ((e' : NodeEngine) (h : Bytes) (s' : State) → IsQuietRun e' [] (recur e' h s'))
      → IsQuietRun e xs (import_each recur e s parked xs)
  unfolding import_each
  import_each-IsQuiet recur [] e s xs calls e' ys h = record {
    scheduled = ground arith;
    silent = λ t. ground arith;
  }
  import_each-IsQuiet recur (b ∷ rest) e s xs calls e' ys h =
      elim (Outcome-cases (add_block e.blockchain b.block s)) [
        | inr (inr q) ↦ absurd (ground arith)
        | inr (inl (x, q)) ↦
            let zs = report_event failed_importing_parked_block ∷ [] in
            let go : import_each recur e s rest (xs ++ zs) ≡ ok (e', ys) = ground arith in
            IsQuiet-trans
              (IsQuiet-append e e xs zs (record { scheduled = refl; silent = λ t. refl }))
              (import_each-IsQuiet recur rest e s (xs ++ zs) calls e' ys go)
        | inl ((bc, imported), q) ↦
            let e1 : NodeEngine = record e { blockchain = bc } in
            let zs = persist b.block imported in
            let stored : IsQuiet e xs e1 (xs ++ zs) =
              IsQuiet-append e e1 xs zs (record { scheduled = refl; silent = λ t. refl }) in
            elim (Bool-cases imported.became_head) [
              | inr r ↦
                  let go : import_each recur e1 s rest (xs ++ zs) ≡ ok (e', ys) = ground arith in
                  IsQuiet-trans stored
                    (import_each-IsQuiet recur rest e1 s (xs ++ zs) calls e' ys go)
              | inl r ↦
                  let go : (recur e1 (Block.hash b.block) imported.next_state >>= λ (e2, more).
                  import_each recur e2 s rest ((xs ++ zs) ++ more))
                      ≡ ok (e', ys) =
                    ground arith in
                  let ((e2, more), called, go2) =
                    >>=-eq-ok (recur e1 (Block.hash b.block) imported.next_state) _ go in
                  IsQuiet-trans stored (
                    IsQuiet-trans
                      (IsQuiet-append e1 e2 (xs ++ zs) more
                        (calls e1 (Block.hash b.block) imported.next_state e2 more called))
                      (import_each-IsQuiet recur rest e2 s ((xs ++ zs) ++ more) calls e' ys go2))
            ]
      ]

  import_parked_loop-IsQuiet :
      (fuel : ℕ) (e : NodeEngine) (k : Bytes) (s : State)
      → IsQuietRun e [] (import_parked_loop fuel e k s)
  unfolding import_parked_loop
  import_parked_loop-IsQuiet zero e k s e' ys h = cc
  import_parked_loop-IsQuiet (suc fuel) e k s e' ys h =
      elim (Option-cases (BTreeMap.get k e.pending_blocks)) [
        | inl q ↦ record { scheduled = ground arith; silent = λ t. ground arith }
        | inr (parked, q) ↦
            let e1 : NodeEngine = record e {
              pending_blocks = BTreeMap.remove k e.pending_blocks;
            } in
            let go : import_each (import_parked_loop fuel) e1 s parked [] ≡ ok (e', ys) =
              ground arith in
            let r =
              import_each-IsQuiet (import_parked_loop fuel) parked e1 s []
                (import_parked_loop-IsQuiet fuel) e' ys go in
            record { scheduled = r.scheduled; silent = r.silent }
      ]

  pub import_parked_blocks-IsQuiet :
      (e : NodeEngine) (k : Bytes) (s : State) → IsQuietRun e [] (import_parked_blocks e k s)
  unfolding import_parked_blocks
  import_parked_blocks-IsQuiet e k s = import_parked_loop-IsQuiet _ e k s

  pub ingest_block-IsQuiet :
      (e : NodeEngine) (peer : Bytes) (b : Block) → IsQuietRun e [] (ingest_block e peer b)
  unfolding ingest_block
  ingest_block-IsQuiet e peer b e' ys h =
      elim (Bool-cases (eq_bytes e.blockchain.head_hash (Block.previous_hash b))) [
        | inr other ↦ record { scheduled = ground arith; silent = λ t. ground arith }
        | inl on_head ↦ elim (Outcome-cases (add_block e.blockchain b e.blockchain.state)) [
          | inr (inr q) ↦ absurd (ground arith)
          | inr (inl (x, q)) ↦ record { scheduled = ground arith; silent = λ t. ground arith }
          | inl ((bc, imported), q) ↦ elim (Bool-cases imported.became_head) [
            | inr r ↦ record { scheduled = ground arith; silent = λ t. ground arith }
            | inl r ↦
                let e1 : NodeEngine = record e { blockchain = bc } in
                let zs = persist b imported ++ report_event block_added ∷ [] in
                let kept : IsQuiet e [] e1 zs = record { scheduled = refl; silent = λ t. refl } in
                let go : (import_parked_blocks e1 (Block.hash b) imported.next_state
                      >>= λ (e2, more). ok (e2, zs ++ more))
                    ≡ ok (e', ys) =
                  ground arith in
                let ((e2, more), called, done) =
                  >>=-eq-ok (import_parked_blocks e1 (Block.hash b) imported.next_state) _ go in
                returned e [] e2 e' (zs ++ more) ys done (
                  IsQuiet-trans kept (
                    IsQuiet-append e1 e2 zs more (
                      import_parked_blocks-IsQuiet e1 (Block.hash b) imported.next_state e2 more
                        called)))
          ]
        ]
      ]
