-- ===== src/Node/Engine/Total.antt =====
-- rp-node/src/node_engine.rs: when `step` returns.
use rust_proof.Base.{
  ℕ, ◌≡◌, ◌≢◌, ◌∙◌, refl, inl, inr, Bool, ◌||◌, Option, none, some, List, [], ◌∷◌, ◌++◌, Bytes, ok,
  panic, arith, ltb, eq_bytes, Bool-cases, Option-cases, Outcome-cases,
}
use rust_proof.BTreeSet.{retain}
use rust_proof.Core.Crypto.{Crypto}
use rust_proof.Core.Models.{Block, Transaction}
use rust_proof.Core.Block
use rust_proof.Core.State.Codec
use rust_proof.Node.Report.{block_added}
use rust_proof.Node.Network.{
  Postcard, NetworkMessage, AnnounceKind, SyncRequest, SyncResponse, announce_request, sync_request,
  sync_response, announce_response, new_transaction, new_block, announce_transaction,
}
use rust_proof.Node.Network
use rust_proof.Node.Contract.{
  NodeInput, tick, connected, disconnected, frame_received, local_transaction, storage_loaded,
  persist_completed, import_requested, NodeAction, report_event,
}
use rust_proof.Node.Mempool
use rust_proof.Node.Blockchain.{
  Blockchain, get_latest_block, get_blocks, earliest_contiguous_height, add_block,
}
use rust_proof.Node.Blockchain
use rust_proof.Node.Blockchain.Links.{
  IsChain, get_latest_block-IsChain, earliest_contiguous_height-ends,
}
use rust_proof.Node.Blockchain.Serve.{get_blocks-served}
use rust_proof.Node.Blockchain.Returns.{
  HasHead, IsChain-HasHead, add_block-returns, add_block-HasHead,
}
use rust_proof.Node.Engine.{
  NodeEngine, PendingRequest, Run, Effect, ingest_block, persist, relay_transaction,
  continue_request, queue_block_request, request_parent_block, prune_expired_requests,
}
use rust_proof.Node.Engine.Step.{
  handle, step, with_wake, on_tick, on_peer_connected, on_peer_disconnected, drop_requests, push,
  ingest_all, continue_all, continue_from, seen_unless, on_sync_response, on_sync_request,
  sync_answer, on_announced, on_message, on_frame, on_local_transaction, on_storage_loaded,
  on_import_requested, first_parked,
}
use rust_proof.Node.Engine.Parked.{import_parked_blocks-Returns}
use rust_proof.Node.Engine.Wake.{with_wake-keeps}

module _ ⦃c : Crypto⦄ where
  -- The call returns an engine with a known head.
  pub record KeepsHead (m : Run Effect) : Type 0 where
    pub engine : NodeEngine
    pub actions : List NodeAction
    pub result : m ≡ ok (engine, actions)
    pub head : HasHead engine.blockchain

  keeps :
      {m : Run Effect} (e : NodeEngine) (xs : List NodeAction)
      → m ≡ ok (e, xs)
      → HasHead e.blockchain
      → KeepsHead m
  keeps e xs r head = record { engine = e; actions = xs; result = r; head = head }

  pub ingest_block-KeepsHead :
      (e : NodeEngine) (peer : Bytes) (b : Block)
      → HasHead e.blockchain
      → KeepsHead (ingest_block e peer b)
  unfolding ingest_block
  ingest_block-KeepsHead e peer b head =
      elim (Bool-cases (eq_bytes e.blockchain.head_hash (Block.previous_hash b))) [
        | inr other ↦ rw other (keeps _ _ refl head)
        | inl on_head ↦ elim (Outcome-cases (add_block e.blockchain b e.blockchain.state)) [
          | inr (inr q) ↦ absurd (add_block-returns e.blockchain b e.blockchain.state head q)
          | inr (inl (x, q)) ↦ rw (on_head, q) (keeps _ _ refl head)
          | inl ((bc, imported), q) ↦
              let head1 = add_block-HasHead e.blockchain bc b e.blockchain.state imported head q in
              let e1 : NodeEngine = record e { blockchain = bc } in
              elim (Bool-cases imported.became_head) [
                | inr stays ↦ rw (on_head, q, stays) (keeps _ _ refl head1)
                | inl moves ↦
                    let r =
                      import_parked_blocks-Returns e1 (Block.hash b) imported.next_state head1 in
                    record {
                      engine = r.engine;
                      actions = (persist b imported ++ report_event block_added ∷ []) ++ r.actions;
                      result = ground (arith, r.result);
                      head = r.head;
                    }
              ]
        ]
      ]

  ingest_all-KeepsHead :
      (blocks : List Block) (e : NodeEngine) (peer : Bytes) (xs : List NodeAction)
      → HasHead e.blockchain
      → KeepsHead (ingest_all e peer blocks xs)
  unfolding ingest_all
  ingest_all-KeepsHead [] e peer xs head = keeps e xs refl head
  ingest_all-KeepsHead (b ∷ blocks) e peer xs head =
      let r = ingest_block-KeepsHead e peer b head in
      let s = ingest_all-KeepsHead blocks r.engine peer (xs ++ r.actions) r.head in
      keeps s.engine s.actions (rw (r.result) s.result) s.head

  continue_all-blockchain :
      (requests : List PendingRequest) (e : NodeEngine) (next_height : ℕ) (xs : List NodeAction)
      → (continue_all e requests next_height xs).0.blockchain ≡ e.blockchain
  unfolding continue_all continue_request queue_block_request
  continue_all-blockchain [] e next_height xs = refl
  continue_all-blockchain (r ∷ rs) e next_height xs =
      continue_all-blockchain rs (continue_request e r next_height).0 next_height
        (push xs (continue_request e r next_height).1)
      ∙ ground arith

  continue_from-blockchain :
      (requests : List PendingRequest) (next_height : Option ℕ) (e : NodeEngine)
      (xs : List NodeAction)
      → (continue_from e requests next_height xs).0.blockchain ≡ e.blockchain
  unfolding continue_from
  continue_from-blockchain rs none e xs = refl
  continue_from-blockchain rs (some n) e xs = continue_all-blockchain rs e n xs

  on_sync_response-KeepsHead :
      (e : NodeEngine) (peer : Bytes) (response : SyncResponse)
      → HasHead e.blockchain
      → KeepsHead (on_sync_response e peer response)
  unfolding on_sync_response drop_requests
  on_sync_response-KeepsHead e peer response head =
      let r = ingest_all-KeepsHead response.blocks (drop_requests e peer) peer [] head in
      let completed = retain (λ request. eq_bytes request.peer peer) e.pending_requests in
      let same = continue_from-blockchain completed response.next_height r.engine r.actions in
      record {
        engine = (continue_from r.engine completed response.next_height r.actions).0;
        actions =
            seen_unless peer (continue_from r.engine completed response.next_height r.actions).1;
        result = rw r.result refl;
        head = rw same r.head;
      }

  -- The snapshot that is loaded does not announce more requests than a vector holds.
  abbrev pub IsLoadable : NodeInput → Type 0
  IsLoadable (storage_loaded block_hash (some bytes)) = Codec.from_bytes bytes ≢ panic
  IsLoadable _ = Unit

  on_storage_loaded-KeepsHead :
      (e : NodeEngine) (k : Bytes) (bytes : Option Bytes)
      → IsLoadable (storage_loaded k bytes)
      → HasHead e.blockchain
      → KeepsHead (on_storage_loaded e k bytes)
  unfolding on_storage_loaded request_parent_block queue_block_request
  on_storage_loaded-KeepsHead e k none loadable head = elim (Option-cases (first_parked e k)) [
    | inl q ↦ rw (q, on_storage_loaded) (keeps _ _ refl head)
    | inr (first, q) ↦ rw (q, on_storage_loaded) (keeps _ _ refl head)
  ]
  on_storage_loaded-KeepsHead e k (some bytes) loadable head =
      elim (Option-cases (first_parked e k)) [
        | inl q ↦ rw (q, on_storage_loaded) (keeps _ _ refl head)
        | inr (first, q) ↦ elim (Outcome-cases (Codec.from_bytes bytes)) [
          | inl (s, read) ↦
              let r = import_parked_blocks-Returns e k s head in
              keeps r.engine r.actions (ground (arith, r.result)) r.head
          | inr (inl (x, read)) ↦ rw (q, read, on_storage_loaded) (keeps _ _ refl head)
          | inr (inr read) ↦ absurd (loadable read)
        ]
      ]

  on_peer_connected-KeepsHead :
      (e : NodeEngine) (peer : Bytes) → IsChain e.blockchain → KeepsHead (on_peer_connected e peer)
  unfolding on_peer_connected queue_block_request
  on_peer_connected-KeepsHead e peer i =
      rw (get_latest_block-IsChain {E = ⊥} e.blockchain i)
        (keeps _ _ refl (IsChain-HasHead e.blockchain i))

  get_blocks-returns :
      (bc : Blockchain) (from_height to_height : ℕ)
      → IsChain bc
      → (blocks : List Block) × (get_blocks {E = ⊥} bc from_height to_height ≡ ok blocks)
  unfolding get_blocks
  get_blocks-returns bc from_height to_height i =
      let (e, walk, le) = earliest_contiguous_height-ends {E = ⊥} bc i in
      let latest = get_latest_block-IsChain {E = ⊥} bc i in
      elim (Bool-cases (ltb to_height from_height)) [
        | inl empty ↦ ([], rw empty refl)
        | inr window ↦
            elim (Bool-cases (ltb from_height e || ltb (Block.height i.head.block) from_height)) [
              | inl outside ↦ ([], rw (window, walk, latest, outside) refl)
              | inr inside ↦
                  let (blocks, found, _) =
                    get_blocks-served {E = ⊥} bc i e from_height to_height walk (ground arith)
                      (ground arith) (ground arith) in
                  (blocks, found)
            ]
      ]

  sync_answer-returns :
      (bc : Blockchain) (request : SyncRequest)
      → IsChain bc
      → (response : SyncResponse) × (sync_answer bc request ≡ ok response)
  unfolding sync_answer
  sync_answer-returns bc request i =
      let (blocks, found) = get_blocks-returns bc request.from_height request.to_height i in
      let (e, walk, _) = earliest_contiguous_height-ends {E = ⊥} bc i in
      rw (found, walk, get_latest_block-IsChain {E = ⊥} bc i, sync_answer) (_, refl)

  add_transaction-HasHead :
      (bc bc' : Blockchain) (tx : Transaction) (added : Bool)
      → HasHead bc
      → Blockchain.add_transaction bc tx ≡ ok (bc', added)
      → HasHead bc'
  unfolding Blockchain.add_transaction
  add_transaction-HasHead bc bc' tx added (x, known) h =
      elim (Outcome-cases (Mempool.add_transaction bc.mempool tx)) [
        | inl (q, r) ↦
            let same_head : bc'.head_hash ≡ bc.head_hash = ground arith in
            let same_chain : bc'.chain ≡ bc.chain = ground arith in
            (x, rw (same_head, same_chain) known)
        | inr (inl (x, r)) ↦ absurd (ground arith)
        | inr (inr r) ↦ absurd (ground arith)
      ]

  add_transaction-returns :
      (bc : Blockchain) (tx : Transaction) → Blockchain.add_transaction bc tx ≢ panic
  unfolding Blockchain.add_transaction Mempool.add_transaction
  add_transaction-returns bc tx h = ground arith

module _ ⦃c : Crypto⦄ ⦃p : Postcard⦄ where
  on_announced-KeepsHead :
      (e : NodeEngine) (peer : Bytes) (kind : AnnounceKind)
      → Network.AlwaysEncodes
      → HasHead e.blockchain
      → KeepsHead (on_announced e peer kind)
  unfolding on_announced relay_transaction
  on_announced-KeepsHead e peer (new_block b) encodes head = ingest_block-KeepsHead e peer b head
  on_announced-KeepsHead e peer (new_transaction tx) encodes head =
      let (frame, w) =
        Network.to_bytes-returns {E = ⊥} (announce_request (announce_transaction tx)) encodes in
      elim (Outcome-cases (Blockchain.add_transaction e.blockchain tx)) [
        | inl ((bc, added), q) ↦
            let head' = add_transaction-HasHead e.blockchain bc tx added head q in
            elim (Bool-cases added) [
              | inl t ↦
                  rw (q, t, w, on_announced, relay_transaction)
                    (keeps (record e { blockchain = bc }) _ refl head')
              | inr f ↦ rw (q, f, on_announced) (keeps _ _ refl head')
            ]
        | inr (inl (x, q)) ↦ rw (q, on_announced) (keeps _ _ refl head)
        | inr (inr q) ↦ absurd (add_transaction-returns e.blockchain tx q)
      ]

  on_message-KeepsHead :
      (e : NodeEngine) (peer : Bytes) (message : NetworkMessage)
      → Network.AlwaysEncodes
      → IsChain e.blockchain
      → KeepsHead (on_message e peer message)
  unfolding on_message on_sync_request
  on_message-KeepsHead e peer (announce_request request) encodes i =
      on_announced-KeepsHead e peer request.kind encodes (IsChain-HasHead e.blockchain i)
  on_message-KeepsHead e peer (sync_request request) encodes i =
      let (response, answered) = sync_answer-returns e.blockchain request i in
      let (frame, w) = Network.to_bytes-returns {E = ⊥} (sync_response response) encodes in
      rw (answered, w, on_sync_request) (keeps _ _ refl (IsChain-HasHead e.blockchain i))
  on_message-KeepsHead e peer (sync_response response) encodes i =
      on_sync_response-KeepsHead e peer response (IsChain-HasHead e.blockchain i)
  on_message-KeepsHead e peer (announce_response response) encodes i =
      keeps _ _ refl (IsChain-HasHead e.blockchain i)

  handle-KeepsHead :
      (e : NodeEngine) (input : NodeInput)
      → Network.AlwaysEncodes
      → IsChain e.blockchain
      → IsLoadable input
      → KeepsHead (handle e input)
  unfolding handle on_tick prune_expired_requests on_peer_disconnected drop_requests on_frame
      on_local_transaction on_import_requested queue_block_request
  handle-KeepsHead e (tick now_ms) encodes i loadable =
      keeps _ _ refl (IsChain-HasHead e.blockchain i)
  handle-KeepsHead e (connected peer) encodes i loadable = on_peer_connected-KeepsHead e peer i
  handle-KeepsHead e (disconnected peer) encodes i loadable =
      keeps _ _ refl (IsChain-HasHead e.blockchain i)
  handle-KeepsHead e (frame_received peer frame) encodes i loadable =
      elim (Option-cases (Network.from_bytes frame)) [
        | inl q ↦ rw (q, handle, on_frame) (keeps _ _ refl (IsChain-HasHead e.blockchain i))
        | inr (message, q) ↦
            rw (q, handle, on_frame) (on_message-KeepsHead e peer message encodes i)
      ]
  handle-KeepsHead e (local_transaction tx) encodes i loadable =
      let head = IsChain-HasHead e.blockchain i in
      let (frame, w) =
        Network.to_bytes-returns {E = ⊥} (announce_request (announce_transaction tx)) encodes in
      elim (Outcome-cases (Blockchain.add_transaction e.blockchain tx)) [
        | inl ((bc, added), q) ↦
            let head' = add_transaction-HasHead e.blockchain bc tx added head q in
            elim (Bool-cases added) [
              | inl t ↦
                  rw (q, t, w, handle, on_local_transaction)
                    (keeps (record e { blockchain = bc }) _ refl head')
              | inr f ↦ rw (q, f, handle, on_local_transaction) (keeps _ _ refl head')
            ]
        | inr (inl (x, q)) ↦ rw (q, handle, on_local_transaction) (keeps _ _ refl head)
        | inr (inr q) ↦ absurd (add_transaction-returns e.blockchain tx q)
      ]
  handle-KeepsHead e (storage_loaded k bytes) encodes i loadable =
      on_storage_loaded-KeepsHead e k bytes loadable (IsChain-HasHead e.blockchain i)
  handle-KeepsHead e (persist_completed persist_type) encodes i loadable =
      keeps _ _ refl (IsChain-HasHead e.blockchain i)
  handle-KeepsHead e (import_requested peer from_height to_height) encodes i loadable =
      keeps _ _ refl (IsChain-HasHead e.blockchain i)

  -- If all messages can be encoded, a step of an engine whose tree is linked and has a known head
  -- returns, whatever the input: a snapshot that is loaded must only not announce more requests than
  -- a vector can hold. The head is known behind it.
  pub step-returns :
      (e : NodeEngine) (input : NodeInput)
      → Network.AlwaysEncodes
      → IsChain e.blockchain
      → IsLoadable input
      → (e' : NodeEngine) × (actions : List NodeAction) × (step e input ≡ ok (e', actions))
        × HasHead e'.blockchain
  unfolding step
  step-returns e input encodes i loadable =
      let r = handle-KeepsHead e input encodes i loadable in
      let (_, _, _, _, same) = with_wake-keeps r.engine r.actions in
      let done = with_wake (r.engine, r.actions) in
      (done.0, done.1, rw r.result refl, rw same r.head)
