-- ===== src/Node/Engine/Step.antt =====
-- rp-node/src/node_engine.rs: `restore_latest_snapshot` and `step`, with one function for each input.
use rust_proof.Base.{
  ℕ, Bool, true, false, not, ◌&&◌, Option, none, some, List, [], ◌∷◌, ◌++◌, Bytes, ok, err, panic,
  ◌>>=◌, ltb, leb, eq_bytes, if◌then◌else◌, last,
}
use mathlib.Core.Option
use rust_proof.U64.{saturating_add, saturating_sub}
use rust_proof.BTreeMap
use rust_proof.BTreeSet.{retain}
use rust_proof.Core.Crypto.{Crypto}
use rust_proof.Core.Models.{Block, Transaction}
use rust_proof.Core.Block
use rust_proof.Core.State.Merkle.{compute_state_root}
use rust_proof.Core.State.Codec
use rust_proof.Node.Report.{
  Report, no_snapshot_restored, invalid_startup_snapshot, startup_root_mismatch, startup_restored,
  peer_connected, peer_disconnected, invalid_frame, invalid_transaction, invalid_snapshot,
  unexpected_snapshot_result,
}
use rust_proof.Node.Network.{
  Postcard, NetworkMessage, AnnounceKind, SyncRequest, SyncResponse, announce_request, sync_request,
  sync_response, announce_response, new_transaction, new_block, announce_transaction,
}
use rust_proof.Node.Network
use rust_proof.Node.Contract.{
  NodeInput, tick, connected, disconnected, frame_received, local_transaction, storage_loaded,
  persist_completed, import_requested, NodeAction, send_frame, broadcast_frame, report_event,
  frame_seen, persist_seen,
}
use rust_proof.Node.Blockchain.{
  Blockchain, get_latest_block, restore_head, earliest_contiguous_height, get_blocks,
}
use rust_proof.Node.Blockchain
use rust_proof.Node.Engine.{
  PendingRequest, NodeEngine, Run, Effect, prune_expired_requests, sync_wake_action,
  queue_block_request, request_parent_block, continue_request, import_parked_blocks, ingest_block,
  relay_transaction,
}

module _ ⦃c : Crypto⦄ where
  -- One action, a report.
  abbrev pub reported : Report → List NodeAction
  reported r = report_event r ∷ []

  unfoldable pub restore_latest_snapshot : NodeEngine → Option Block → Option Bytes → Run Effect
  restore_latest_snapshot e none state_bytes = ok (e, reported no_snapshot_restored)
  restore_latest_snapshot e (some b) none = ok (e, reported no_snapshot_restored)
  restore_latest_snapshot e (some b) (some state_bytes) = elim (Codec.from_bytes state_bytes) [
    | panic ↦ panic
    | err error ↦ ok (e, reported invalid_startup_snapshot)
    | ok restored_state ↦
        if eq_bytes (Block.state_root b) (compute_state_root restored_state)
        then ok (
          record e { blockchain = restore_head e.blockchain b restored_state },
          reported startup_restored,
        )
        else ok (e, reported startup_root_mismatch)
  ]

  unfoldable pub on_tick : NodeEngine → ℕ → Effect
  on_tick e now_ms = (prune_expired_requests (record e { current_time_ms = now_ms }) now_ms, [])

  unfoldable pub on_peer_connected : NodeEngine → Bytes → Run Effect
  on_peer_connected e peer =
      let e' = record e {
        peers = BTreeMap.insert peer (record { is_connected = true; last_seen_ms = 0 }) e.peers;
      } in
      get_latest_block e'.blockchain >>= λ latest.
      let (e'', action) =
        queue_block_request e' peer (saturating_add (Block.height latest) 1)
          (saturating_add (Block.height latest) 100) in
      ok (e'', report_event peer_connected ∷ action ∷ [])

  -- `self.pending_requests.retain(|request| request.peer != peer)`
  unfoldable pub drop_requests : NodeEngine → Bytes → NodeEngine
  drop_requests e peer = record e {
    pending_requests = retain (λ request. not (eq_bytes request.peer peer)) e.pending_requests;
  }

  unfoldable pub on_peer_disconnected : NodeEngine → Bytes → Effect
  on_peer_disconnected e peer = (
    drop_requests (record e { peers = BTreeMap.remove peer e.peers }) peer,
    reported peer_disconnected,
  )

  -- `for block in response.blocks`
  unfoldable pub ingest_all : NodeEngine → Bytes → List Block → List NodeAction → Run Effect
  ingest_all e peer [] actions = ok (e, actions)
  ingest_all e peer (b ∷ blocks) actions =
      ingest_block e peer b >>= λ (e', more). ingest_all e' peer blocks (actions ++ more)

  abbrev pub push : List NodeAction → Option NodeAction → List NodeAction
  push actions none = actions
  push actions (some action) = actions ++ action ∷ []

  -- `for request in &completed_requests`
  unfoldable pub continue_all : NodeEngine → List PendingRequest → ℕ → List NodeAction → Effect
  continue_all e [] next_height actions = (e, actions)
  continue_all e (request ∷ requests) next_height actions =
      let (e', action) = continue_request e request next_height in
      continue_all e' requests next_height (push actions action)

  -- The continuation of the completed requests, if the peer names a next height.
  unfoldable pub continue_from :
      NodeEngine → List PendingRequest → Option ℕ → List NodeAction → Effect
  continue_from e completed none actions = (e, actions)
  continue_from e completed (some next_height) actions =
      continue_all e completed next_height actions

  abbrev pub seen_unless : Bytes → List NodeAction → List NodeAction
  seen_unless peer [] = frame_seen peer ∷ []
  seen_unless peer (action ∷ actions) = action ∷ actions

  unfoldable pub on_sync_response : NodeEngine → Bytes → SyncResponse → Run Effect
  on_sync_response e peer response =
      let completed = retain (λ request. eq_bytes request.peer peer) e.pending_requests in
      ingest_all (drop_requests e peer) peer response.blocks [] >>= λ (e', actions).
      let (e'', actions') = continue_from e' completed response.next_height actions in
      ok (e'', seen_unless peer actions')

  -- The peer and the height of the parent of the first block that waits for a snapshot.
  unfoldable pub first_parked : NodeEngine → Bytes → Option (Bytes × ℕ)
  first_parked e block_hash = elim (BTreeMap.get block_hash e.pending_blocks) [
    | none ↦ none
    | some [] ↦ none
    | some (parked ∷ rest) ↦ some (parked.peer, saturating_sub (Block.height parked.block) 1)
  ]

  unfoldable pub on_storage_loaded : NodeEngine → Bytes → Option Bytes → Run Effect
  on_storage_loaded e block_hash state_bytes = elim (first_parked e block_hash) [
    | none ↦ ok (e, reported unexpected_snapshot_result)
    | some (peer, height) ↦ elim state_bytes [
      | none ↦ ok (request_parent_block e peer height)
      | some bytes ↦ elim (Codec.from_bytes bytes) [
        | ok s ↦ import_parked_blocks e block_hash s
        | err error ↦ ok (e, reported invalid_snapshot)
        | panic ↦ panic
      ]
    ]
  ]

  unfoldable pub on_import_requested : NodeEngine → Bytes → ℕ → ℕ → Effect
  on_import_requested e peer from_height to_height =
      let (e', action) = queue_block_request e peer from_height to_height in (e', action ∷ [])

  -- `if let Some(action) = self.sync_wake_action() { actions.push(action); }`
  unfoldable pub with_wake : Effect → Effect
  with_wake (e, actions) = let (e', action) = sync_wake_action e in (e', push actions action)

  -- The height that a peer is told to go on from, given the last height it was served.
  unfoldable pub next_served : Option ℕ → ℕ → ℕ → ℕ → Option ℕ
  next_served (some height) from_height earliest latest =
      if ltb height latest then some (saturating_add height 1) else none
  next_served none from_height earliest latest =
      if ltb from_height earliest && leb earliest latest then some earliest else none

  abbrev pub more_than : ℕ → Option ℕ → Bool
  more_than latest none = false
  more_than latest (some height) = ltb height latest

  -- The answer to a `SyncRequest`.
  unfoldable pub sync_answer : Blockchain → SyncRequest → Run SyncResponse
  sync_answer bc request = get_blocks bc request.from_height request.to_height >>= λ blocks.
      earliest_contiguous_height bc >>= λ earliest. get_latest_block bc >>= λ latest.
      let highest = Option.map Block.height (last blocks) in
      ok (record {
        blocks = blocks;
        has_more = more_than (Block.height latest) highest;
        next_height = next_served highest request.from_height earliest (Block.height latest);
      })

module _ ⦃c : Crypto⦄ ⦃p : Postcard⦄ where
  unfoldable pub on_announced : NodeEngine → Bytes → AnnounceKind → Run Effect
  on_announced e peer (new_block b) = ingest_block e peer b
  on_announced e peer (new_transaction tx) = elim (Blockchain.add_transaction e.blockchain tx) [
    | panic ↦ panic
    | err error ↦ ok (e, reported error)
    | ok (blockchain, added) ↦
        let e' = record e { blockchain = blockchain } in
        if added
        then (relay_transaction e' peer tx >>= λ relayed. ok (e', relayed))
        else ok (e', [])
  ]

  unfoldable pub on_sync_request : NodeEngine → Bytes → SyncRequest → Run Effect
  on_sync_request e peer request = sync_answer e.blockchain request >>= λ response.
      Network.to_bytes (sync_response response) >>= λ frame. ok (e, send_frame peer frame ∷ [])

  unfoldable pub on_message : NodeEngine → Bytes → NetworkMessage → Run Effect
  on_message e peer (announce_request request) = on_announced e peer request.kind
  on_message e peer (sync_request request) = on_sync_request e peer request
  on_message e peer (sync_response response) = on_sync_response e peer response
  on_message e peer (announce_response response) = ok (e, frame_seen peer ∷ [])

  unfoldable pub on_frame : NodeEngine → Bytes → Bytes → Run Effect
  on_frame e peer frame = elim (Network.from_bytes frame) [
    | none ↦ ok (e, reported invalid_frame)
    | some message ↦ on_message e peer message
  ]

  unfoldable pub on_local_transaction : NodeEngine → Transaction → Run Effect
  on_local_transaction e tx = elim (Blockchain.add_transaction e.blockchain tx) [
    | panic ↦ panic
    | err error ↦ ok (e, reported invalid_transaction)
    | ok (blockchain, added) ↦
        let e' = record e { blockchain = blockchain } in
        if added
        then (Network.to_bytes (announce_request (announce_transaction tx)) >>= λ frame.
            ok (e', broadcast_frame frame ∷ []))
        else ok (e', [])
  ]

  -- The `match` of `step`.
  unfoldable pub handle : NodeEngine → NodeInput → Run Effect
  handle e (tick now_ms) = ok (on_tick e now_ms)
  handle e (connected peer) = on_peer_connected e peer
  handle e (disconnected peer) = ok (on_peer_disconnected e peer)
  handle e (frame_received peer frame) = on_frame e peer frame
  handle e (local_transaction tx) = on_local_transaction e tx
  handle e (storage_loaded block_hash state_bytes) = on_storage_loaded e block_hash state_bytes
  handle e (persist_completed persist_type) = ok (e, persist_seen persist_type ∷ [])
  handle e (import_requested peer from_height to_height) =
      ok (on_import_requested e peer from_height to_height)

  unfoldable pub step : NodeEngine → NodeInput → Run Effect
  step e input = handle e input >>= λ done. ok (with_wake done)
