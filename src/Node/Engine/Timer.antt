-- ===== src/Node/Engine/Timer.antt =====
-- rp-node/src/node_engine.rs: the runtime's timer behind `step`.
use rust_proof.Base.{
  ℕ, ◌≡◌, refl, ◌∙◌, sym, inl, inr, Option, none, some, List, [], ◌∷◌, ◌++◌, ◌==◌, leb, Bytes, ok,
  >>=-eq-ok, ok-injective, subst, arith, eq_bytes, if◌then◌else◌, Bool-cases, Option-cases,
  Outcome-cases,
}
use rust_proof.U64.{saturating_add, saturating_sub}
use rust_proof.BTreeSet.{retain}
use rust_proof.BTreeMap.{BTreeMap}
use rust_proof.Core.Crypto.{Crypto}
use rust_proof.Core.Models.{Block}
use rust_proof.Core.State.Codec
use rust_proof.Node.Network.{
  Postcard, NetworkMessage, AnnounceKind, SyncRequest, SyncResponse, announce_request, sync_request,
  sync_response, announce_response, announce_transaction, new_transaction, new_block,
}
use rust_proof.Node.Network
use rust_proof.Node.Contract.{
  NodeInput, tick, connected, disconnected, frame_received, local_transaction, storage_loaded,
  persist_completed, import_requested, NodeAction,
}
use rust_proof.Node.Blockchain.{Blockchain, get_latest_block}
use rust_proof.Node.Blockchain
use rust_proof.Node.Engine.{
  NodeEngine, PeerState, PendingRequest, Effect, queue_block_request, request_parent_block,
  continue_request, prune_expired_requests, ingest_block, relay_to, relay_transaction,
}
use rust_proof.Node.Engine.Step.{
  handle, step, on_tick, on_peer_connected, on_peer_disconnected, drop_requests, push, ingest_all,
  continue_all, continue_from, seen_unless, on_sync_response, on_sync_request, sync_answer,
  on_announced, on_message, on_frame, on_local_transaction, on_storage_loaded, on_import_requested,
  first_parked,
}
use rust_proof.Node.Engine.Wake.{IsTimerFor, timer_after, timer-append, with_wake-timer}
use rust_proof.Node.Engine.Quiet.{
  IsQuiet, IsQuietRun, IsQuiet-append, IsQuiet-trans, returned, import_parked_blocks-IsQuiet,
  ingest_block-IsQuiet,
}

module _ ⦃c : Crypto⦄ where
  ingest_all-IsQuiet :
      (blocks : List Block) (e : NodeEngine) (peer : Bytes) (xs : List NodeAction)
      → IsQuietRun e xs (ingest_all e peer blocks xs)
  unfolding ingest_all
  ingest_all-IsQuiet [] e peer xs e' ys h =
      returned e xs e e' xs ys h (record { scheduled = refl; silent = λ t. refl })
  ingest_all-IsQuiet (b ∷ blocks) e peer xs e' ys h =
      let ((e1, more), called, go) = >>=-eq-ok (ingest_block e peer b) _ h in
      IsQuiet-trans (IsQuiet-append e e1 xs more (ingest_block-IsQuiet e peer b e1 more called))
        (ingest_all-IsQuiet blocks e1 peer (xs ++ more) e' ys go)

  continue_request-IsQuiet :
      (r : PendingRequest) (e : NodeEngine) (next_height : ℕ) (xs : List NodeAction)
      → IsQuiet e xs
          (continue_request e r next_height).0
          (push xs (continue_request e r next_height).1)
  unfolding continue_request queue_block_request
  continue_request-IsQuiet r e next_height xs =
      let zs =
        (queue_block_request e r.peer next_height (
          if leb next_height r.to_height
          then r.to_height
          else saturating_add next_height (saturating_sub r.to_height r.from_height))).1
        ∷ [] in
      elim (Bool-cases (next_height == 0)) [
        | inl z ↦ record { scheduled = ground arith; silent = λ t. ground arith }
        | inr z ↦ record {
          scheduled = ground arith;
          silent = λ t. ground (arith, timer-append t xs zs);
        }
      ]

  continue_all-IsQuiet :
      (requests : List PendingRequest) (e : NodeEngine) (next_height : ℕ) (xs : List NodeAction)
      → IsQuiet e xs
          (continue_all e requests next_height xs).0
          (continue_all e requests next_height xs).1
  unfolding continue_all continue_request queue_block_request
  continue_all-IsQuiet [] e next_height xs = record { scheduled = refl; silent = λ t. refl }
  continue_all-IsQuiet (r ∷ rs) e next_height xs =
      let e1 = (continue_request e r next_height).0 in
      let action = (continue_request e r next_height).1 in
      IsQuiet-trans (continue_request-IsQuiet r e next_height xs)
        (continue_all-IsQuiet rs e1 next_height (push xs action))

  continue_from-IsQuiet :
      (requests : List PendingRequest) (next_height : Option ℕ) (e : NodeEngine)
      (xs : List NodeAction)
      → IsQuiet e xs
          (continue_from e requests next_height xs).0
          (continue_from e requests next_height xs).1
  unfolding continue_from
  continue_from-IsQuiet rs none e xs = record { scheduled = refl; silent = λ t. refl }
  continue_from-IsQuiet rs (some n) e xs = continue_all-IsQuiet rs e n xs

  silent_unless :
      (peer : Bytes) (t : Option ℕ) (xs : List NodeAction)
      → timer_after t (seen_unless peer xs) ≡ timer_after t xs
  silent_unless peer t [] = refl
  silent_unless peer t (x ∷ xs) = refl

  on_sync_response-IsQuiet :
      (e : NodeEngine) (peer : Bytes) (response : SyncResponse)
      → IsQuietRun e [] (on_sync_response e peer response)
  unfolding on_sync_response drop_requests
  on_sync_response-IsQuiet e peer response e' ys h =
      let ((e1, xs), called, go) =
        >>=-eq-ok (ingest_all (drop_requests e peer) peer response.blocks []) _ h in
      let q = ingest_all-IsQuiet response.blocks (drop_requests e peer) peer [] e1 xs called in
      let completed = retain (λ request. eq_bytes request.peer peer) e.pending_requests in
      let q2 = continue_from-IsQuiet completed response.next_height e1 xs in
      let answered = (continue_from e1 completed response.next_height xs).1 in
      let quiet = IsQuiet-trans q q2 in
      returned e [] _ e' (seen_unless peer answered) ys go (record {
        scheduled = quiet.scheduled;
        silent = λ t. silent_unless peer t answered ∙ quiet.silent t;
      })

  on_peer_connected-IsQuiet :
      (e : NodeEngine) (peer : Bytes) → IsQuietRun e [] (on_peer_connected e peer)
  unfolding on_peer_connected queue_block_request
  on_peer_connected-IsQuiet e peer e' ys h =
      let (latest, called, go) = >>=-eq-ok (get_latest_block e.blockchain) _ h in
      returned e [] _ e' _ ys go (record { scheduled = refl; silent = λ t. refl })

  on_storage_loaded-IsQuiet :
      (e : NodeEngine) (k : Bytes) (bytes : Option Bytes)
      → IsQuietRun e [] (on_storage_loaded e k bytes)
  unfolding on_storage_loaded request_parent_block queue_block_request
  on_storage_loaded-IsQuiet e k bytes e' ys h = elim (Option-cases (first_parked e k)) [
    | inl q ↦ record { scheduled = ground arith; silent = λ t. ground arith }
    | inr ((peer, height), q) ↦ elim (Option-cases bytes) [
      | inl r ↦ record { scheduled = ground arith; silent = λ t. ground arith }
      | inr (b, r) ↦ elim (Outcome-cases (Codec.from_bytes b)) [
        | inl (s, read) ↦ import_parked_blocks-IsQuiet e k s e' ys (ground arith)
        | inr (inl (x, read)) ↦ record { scheduled = ground arith; silent = λ t. ground arith }
        | inr (inr read) ↦ absurd (ground arith)
      ]
    ]
  ]

module _ ⦃c : Crypto⦄ ⦃p : Postcard⦄ where
  relay_to-silent :
      (source_peer frame : Bytes) (peers : BTreeMap PeerState) (t : Option ℕ)
      → timer_after t (relay_to source_peer frame peers) ≡ t
  unfolding relay_to
  relay_to-silent source_peer frame [] t = refl
  relay_to-silent source_peer frame ((peer, state) ∷ peers) t =
      ground (arith, relay_to-silent source_peer frame peers t)

  on_announced-IsQuiet :
      (e : NodeEngine) (peer : Bytes) (kind : AnnounceKind)
      → IsQuietRun e [] (on_announced e peer kind)
  unfolding on_announced relay_transaction
  on_announced-IsQuiet e peer (new_block b) e' ys h = ingest_block-IsQuiet e peer b e' ys h
  on_announced-IsQuiet e peer (new_transaction tx) e' ys h =
      elim (Outcome-cases (Blockchain.add_transaction e.blockchain tx)) [
        | inl ((bc, added), q) ↦
            let message = announce_request (announce_transaction tx) in
            elim (Outcome-cases (Network.to_bytes {E = ⊥} message)) [
              | inl (frame, w) ↦ record {
                scheduled = ground (arith, w);
                silent = λ t. ground (arith, w, relay_to-silent peer frame e.peers t);
              }
              | inr (inl (why, w)) ↦ absurd why
              | inr (inr w) ↦ record {
                scheduled = ground (arith, w);
                silent = λ t. ground (arith, w);
              }
            ]
        | inr (inl (x, q)) ↦ record { scheduled = ground arith; silent = λ t. ground arith }
        | inr (inr q) ↦ absurd (ground arith)
      ]

  on_message-IsQuiet :
      (e : NodeEngine) (peer : Bytes) (message : NetworkMessage)
      → IsQuietRun e [] (on_message e peer message)
  unfolding on_message on_sync_request
  on_message-IsQuiet e peer (announce_request request) e' ys h =
      on_announced-IsQuiet e peer request.kind e' ys h
  on_message-IsQuiet e peer (sync_request request) e' ys h =
      let (response, called, go) = >>=-eq-ok (sync_answer e.blockchain request) _ h in
      let (frame, written, sent) = >>=-eq-ok (Network.to_bytes (sync_response response)) _ go in
      returned e [] e e' _ ys sent (record { scheduled = refl; silent = λ t. refl })
  on_message-IsQuiet e peer (sync_response response) e' ys h =
      on_sync_response-IsQuiet e peer response e' ys h
  on_message-IsQuiet e peer (announce_response response) e' ys h =
      returned e [] e e' _ ys h (record { scheduled = refl; silent = λ t. refl })

  handle-IsQuiet : (e : NodeEngine) (input : NodeInput) → IsQuietRun e [] (handle e input)
  unfolding handle on_tick prune_expired_requests on_peer_disconnected drop_requests on_frame
      on_local_transaction on_import_requested queue_block_request
  handle-IsQuiet e (tick now_ms) e' ys h =
      returned e [] _ e' _ ys h (record { scheduled = refl; silent = λ t. refl })
  handle-IsQuiet e (connected peer) e' ys h = on_peer_connected-IsQuiet e peer e' ys h
  handle-IsQuiet e (disconnected peer) e' ys h =
      returned e [] _ e' _ ys h (record { scheduled = refl; silent = λ t. refl })
  handle-IsQuiet e (frame_received peer frame) e' ys h =
      elim (Option-cases (Network.from_bytes frame)) [
        | inl q ↦ record { scheduled = ground arith; silent = λ t. ground arith }
        | inr (message, q) ↦ on_message-IsQuiet e peer message e' ys (ground arith)
      ]
  handle-IsQuiet e (local_transaction tx) e' ys h =
      elim (Outcome-cases (Blockchain.add_transaction e.blockchain tx)) [
        | inl ((bc, added), q) ↦ record { scheduled = ground arith; silent = λ t. ground arith }
        | inr (inl (x, q)) ↦ record { scheduled = ground arith; silent = λ t. ground arith }
        | inr (inr q) ↦ absurd (ground arith)
      ]
  handle-IsQuiet e (storage_loaded k bytes) e' ys h = on_storage_loaded-IsQuiet e k bytes e' ys h
  handle-IsQuiet e (persist_completed persist_type) e' ys h =
      returned e [] _ e' _ ys h (record { scheduled = refl; silent = λ t. refl })
  handle-IsQuiet e (import_requested peer from_height to_height) e' ys h =
      returned e [] _ e' _ ys h (record { scheduled = refl; silent = λ t. refl })

  -- The timer is set to what is scheduled, and that is the first deadline.
  abbrev Settled : Option ℕ → Effect → Type 0
  Settled timer (e, actions) =
      (timer_after timer actions ≡ e.scheduled_wake_at_ms)
      × IsTimerFor e.scheduled_wake_at_ms e.pending_requests

  -- If the runtime's timer is set to what the engine has scheduled, then it is so behind every step
  -- that returns, when the runtime has carried out the step's actions in their order; and it is then
  -- set to the earliest deadline of the pending requests, or to nothing exactly if there are none.
  pub step-timer :
      (e e' : NodeEngine) (input : NodeInput) (actions : List NodeAction) (timer : Option ℕ)
      → timer ≡ e.scheduled_wake_at_ms
      → step e input ≡ ok (e', actions)
      → (timer_after timer actions ≡ e'.scheduled_wake_at_ms)
        × IsTimerFor e'.scheduled_wake_at_ms e'.pending_requests
  unfolding step
  step-timer e e' input actions timer same h =
      let ((e1, xs), called, go) = >>=-eq-ok (handle e input) _ h in
      let q = handle-IsQuiet e input e1 xs called in
      subst (Settled timer) (ok-injective go)
        (with_wake-timer e1 xs timer (q.silent timer ∙ (same ∙ sym q.scheduled)))
