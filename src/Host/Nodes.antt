-- ===== src/Host/Nodes.antt =====
-- rp-runtime/src/runtime/manager.rs: the node manager, which puts the events of the runtime to the
-- engine and sends the engine's actions to the other managers. A channel is modelled by what is sent
-- on it, in order, and by whether its receiver is still there, which `is_open` tells.
pub mod Timer
use rust_proof.Base.{
  ℕ, Bool, Option, none, some, List, [], ◌∷◌, ◌++◌, Bytes, Outcome, ok, err, panic, ◌>>=◌,
  if◌then◌else◌,
}
use rust_proof.Core.Crypto.{Crypto}
use rust_proof.Core.Models.{Block}
use rust_proof.Node.Network.{Postcard}
use rust_proof.Node.Contract.{
  NodeInput, NodeAction, broadcast_frame, disconnect_peer, frame_seen, load_snapshot, persist_block,
  persist_seen, persist_snapshot, report_event, request_blocks, schedule_wake, cancel_wake,
  send_frame,
}
use rust_proof.Node.Engine.{NodeEngine, Run, Effect}
use rust_proof.Node.Engine.Step.{step, restore_latest_snapshot}
use rust_proof.Host.Errors.{
  RuntimeError, ChannelKind, network_channel, storage_channel, wake_channel, network_send,
  storage_send, wake_send,
}
use rust_proof.Host.Contract.{
  NetworkCommand, StorageCommand, WakeCommand, RuntimeEvent, tick, peer_connected,
  peer_disconnected, frame_received, storage_loaded, latest_snapshot_loaded, load_latest_snapshot,
  schedule, cancel,
}

module _ ⦃c : Crypto⦄ where
  -- A command on one of the three channels.
  pub data SentCommand : Type 0 where
    to_network : NetworkCommand → SentCommand
    to_storage : StorageCommand → SentCommand
    to_wake : WakeCommand → SentCommand

  abbrev pub Sent : Type 0
  Sent = Outcome RuntimeError (List SentCommand)

module _ ⦃c : Crypto⦄ (is_open : ChannelKind → Bool) where
  abbrev pub send_network : NetworkCommand → Sent
  send_network command =
      if is_open network_channel then ok (to_network command ∷ []) else err network_send

  abbrev pub send_storage : StorageCommand → Sent
  send_storage command =
      if is_open storage_channel then ok (to_storage command ∷ []) else err storage_send

  abbrev pub send_wake : WakeCommand → Sent
  send_wake command = if is_open wake_channel then ok (to_wake command ∷ []) else err wake_send

  unfoldable pub handle_action : NodeAction → Sent
  handle_action (broadcast_frame frame) = send_network (NetworkCommand.broadcast_frame frame)
  handle_action (disconnect_peer peer) = send_network (NetworkCommand.disconnect_peer peer)
  handle_action (frame_seen peer) = ok []
  handle_action (load_snapshot block_hash) = send_storage (StorageCommand.load_snapshot block_hash)
  handle_action (persist_block b) = send_storage (StorageCommand.persist_block b)
  handle_action (persist_seen persist_type) = ok []
  handle_action (persist_snapshot block_hash state_bytes) =
      send_storage (StorageCommand.persist_snapshot block_hash state_bytes)
  handle_action (report_event message) = ok []
  handle_action (request_blocks peer from_height to_height) =
      send_network (NetworkCommand.request_blocks peer from_height to_height)
  handle_action (schedule_wake at_ms) = send_wake (schedule at_ms)
  handle_action cancel_wake = send_wake cancel
  handle_action (send_frame peer frame) = send_network (NetworkCommand.send_frame peer frame)

  unfoldable pub handle_actions : List NodeAction → Sent
  handle_actions [] = ok []
  handle_actions (action ∷ actions) =
      handle_action action >>= λ sent. handle_actions actions >>= λ rest. ok (sent ++ rest)

module _ ⦃c : Crypto⦄ ⦃p : Postcard⦄ where
  unfoldable pub take_event : NodeEngine → RuntimeEvent → Run Effect
  take_event e (latest_snapshot_loaded b state_bytes) = restore_latest_snapshot e b state_bytes
  take_event e (tick now_ms) = step e (NodeInput.tick now_ms)
  take_event e (peer_connected peer) = step e (NodeInput.connected peer)
  take_event e (peer_disconnected peer) = step e (NodeInput.disconnected peer)
  take_event e (frame_received peer frame) = step e (NodeInput.frame_received peer frame)
  take_event e (storage_loaded block_hash state_bytes) =
      step e (NodeInput.storage_loaded block_hash state_bytes)

  abbrev pub Managed : Type 0
  Managed = Outcome RuntimeError (NodeEngine × List SentCommand)

  -- One turn of the loop of `NodeManager::run`.
  unfoldable pub turn : (ChannelKind → Bool) → NodeEngine → RuntimeEvent → Managed
  turn is_open e event = elim (take_event e event) [
    | ok (e', actions) ↦ handle_actions is_open actions >>= λ sent. ok (e', sent)
    | err never ↦ absurd never
    | panic ↦ panic
  ]

  -- The turns for some events, in their order; the channel of events is empty behind them.
  unfoldable pub turns : (ChannelKind → Bool) → NodeEngine → List RuntimeEvent → Managed
  turns is_open e [] = ok (e, [])
  turns is_open e (event ∷ events) = turn is_open e event >>= λ done.
      turns is_open done.0 events >>= λ last. ok (last.0, done.1 ++ last.1)

  -- `NodeManager::run`, until the sender of the events has gone.
  unfoldable pub run : (ChannelKind → Bool) → NodeEngine → List RuntimeEvent → Managed
  run is_open e events = send_storage is_open load_latest_snapshot >>= λ sent.
      turns is_open e events >>= λ last. ok (last.0, sent ++ last.1)
