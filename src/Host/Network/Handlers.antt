-- ===== src/Host/Network/Handlers.antt =====
-- rp-runtime/src/network/manager.rs: the node hello, the requests and answers of the protocols, and
-- `handle_swarm_event`, which puts each report of the swarm to its handler.
use rust_proof.Base.{
  ℕ, Bool, true, false, not, ◌&&◌, none, some, [], ◌∷◌, ◌++◌, Bytes, ok, err, panic, ◌>>=◌,
  if◌then◌else◌, map,
}
use rust_proof.BTreeMap
use rust_proof.BTreeMap.{BTreeMap, contains_key}
use rust_proof.Core.Crypto.{Crypto}
use rust_proof.Node.Network.{
  Postcard, NetworkMessage, SyncRequest, SyncResponse, AnnounceRequest, AnnounceResponse,
  announce_request, announce_response, sync_request, sync_response, to_bytes,
}
use rust_proof.Host.Errors.{
  RuntimeError, io_other, fallback_sync_response_failed, announce_response_failed,
}
use rust_proof.Host.Hello.{
  NodeHello, NodeHelloResponse, VerifiedPeer, Signing, verify_hello, build_local_node_hello,
  node_hello_reject_reason,
}
use rust_proof.Host.Contract.{frame_received}
use rust_proof.Host.Network.{
  Libp2p, NetworkManager, NetworkEffect, Handled, after, disconnect_peer_id, add_address,
  node_hello_request_sent, node_hello_response_sent, sync_response_sent, announce_response_sent,
}
use rust_proof.Host.Network.Events.{
  RequestResponseEvent, request_message, response_message, outbound_failure, inbound_failure,
  response_sent, IdentifyEvent, identify_received, identify_error, identify_other, SwarmEvent,
  new_listen_addr, incoming_connection, incoming_connection_error, connection_established,
  connection_closed, outgoing_connection_error, identify_event, ping_event, gossipsub_event,
  kademlia_event, node_hello_event, sync_event, announce_event, other_event, is_host_agent, emit,
  register_verified_peer, unregister_transport_peer, on_connection_established, handle_ping_event,
  handle_gossipsub_event,
}

module _ ⦃c : Crypto⦄ ⦃s : Signing⦄ ⦃l : Libp2p⦄ where
  -- `build_local_node_hello_or_disconnect`, and what is done with the hello.
  unfoldable pub with_local_node_hello : NetworkManager → Bytes → (NodeHello → Handled) → Handled
  with_local_node_hello m peer rest =
      elim (build_local_node_hello m.node_identity m.transport_peer_id m.max_frame_len
        m.max_blocks_per_chunk) [
          | ok hello ↦ rest hello
          | err why ↦ ok (m, disconnect_peer_id peer ∷ [])
          | panic ↦ panic
        ]

  abbrev pub identified : NetworkManager → Bytes → Bytes → NetworkManager
  identified m peer_id agent_version = record m {
    host_transport_peers =
        if is_host_agent agent_version
        then BTreeMap.insert peer_id tt m.host_transport_peers
        else BTreeMap.remove peer_id m.host_transport_peers;
    pending_node_hello = BTreeMap.remove peer_id m.pending_node_hello;
  }

  unfoldable pub handle_identify_event : NetworkManager → IdentifyEvent → Handled
  handle_identify_event m (identify_received peer_id listen_addrs agent_version) =
      let m' = identified m peer_id agent_version in
      after (ok (m', map (add_address peer_id) listen_addrs)) (λ m1.
        if contains_key peer_id m.pending_node_hello
          && not (contains_key peer_id m.node_by_transport)
        then with_local_node_hello m1 peer_id
            (λ hello. ok (m1, node_hello_request_sent peer_id hello ∷ []))
        else ok (m1, []))
  handle_identify_event m identify_error = ok (m, [])
  handle_identify_event m identify_other = ok (m, [])

  -- Whatever becomes of the answer, the peer is disconnected.
  abbrev pub reject : NetworkManager → Bytes → ℕ → RuntimeError → Handled
  reject m peer channel why = with_local_node_hello m peer (λ remote. ok (
    m,
    node_hello_response_sent channel (record {
      accepted = false;
      remote = remote;
      reject_reason = some (node_hello_reject_reason why);
    })
        ∷ disconnect_peer_id peer
        ∷ [],
  ))

  abbrev pub accept : Bool → NetworkManager → Bytes → ℕ → VerifiedPeer → Handled
  accept is_open m peer channel verified = with_local_node_hello m peer (λ remote.
      let response : NodeHelloResponse = record {
        accepted = true;
        remote = remote;
        reject_reason = none;
      } in
      let answer = node_hello_response_sent channel response in
      if l.delivers m.swarm channel
      then after (ok (m, answer ∷ [])) (λ m'. register_verified_peer is_open m' peer verified)
      else ok (m, answer ∷ disconnect_peer_id peer ∷ []))

  unfoldable pub handle_node_hello_event :
      Bool → NetworkManager → RequestResponseEvent NodeHello NodeHelloResponse → Handled
  handle_node_hello_event is_open m (request_message peer request channel) =
      elim (verify_hello request peer) [
        | ok verified ↦ accept is_open m peer channel verified
        | err why ↦ reject m peer channel why
        | panic ↦ panic
      ]
  handle_node_hello_event is_open m (response_message peer request_id response) =
      if response.accepted
      then elim (verify_hello response.remote peer) [
        | ok verified ↦ register_verified_peer is_open m peer verified
        | err why ↦ ok (m, disconnect_peer_id peer ∷ [])
        | panic ↦ panic
      ]
      else ok (m, disconnect_peer_id peer ∷ [])
  handle_node_hello_event is_open m (outbound_failure _ _) = ok (m, [])
  handle_node_hello_event is_open m (inbound_failure _) = ok (m, [])
  handle_node_hello_event is_open m (response_sent _) = ok (m, [])

module _ ⦃c : Crypto⦄ ⦃p : Postcard⦄ ⦃l : Libp2p⦄ where
  abbrev pub empty_response : SyncResponse
  empty_response = record { blocks = []; has_more = false; next_height = none }

  -- `send_response(channel, response).map_err(RuntimeError::io_other)?`
  abbrev pub respond : ℕ → NetworkEffect → RuntimeError → NetworkManager → Handled
  respond channel answer why m = if l.delivers m.swarm channel then ok (m, answer ∷ []) else err why

  abbrev pub queue_channel : NetworkManager → Bytes → ℕ → NetworkManager
  queue_channel m node_peer channel = record m {
    pending_sync_responses =
        BTreeMap.update node_peer [] (λ channels. channels ++ channel ∷ [])
          m.pending_sync_responses;
  }

  abbrev pub without_request : NetworkManager → Bytes → NetworkManager
  without_request m request_id = record m {
    outbound_sync_requests = BTreeMap.remove request_id m.outbound_sync_requests;
  }

  -- A message of the node peer goes to the node as a frame.
  unfoldable pub emit_message : Bool → Bytes → NetworkMessage → NetworkManager → Handled
  emit_message is_open node_peer message m =
      to_bytes message >>= λ frame. emit is_open (frame_received node_peer frame) m

  unfoldable pub handle_sync_event :
      Bool → NetworkManager → RequestResponseEvent SyncRequest SyncResponse → Handled
  handle_sync_event is_open m (request_message peer request channel) =
      elim (BTreeMap.get peer m.node_by_transport) [
        | none ↦
            respond channel (sync_response_sent channel empty_response)
              (io_other fallback_sync_response_failed) m
        | some node_peer ↦
            emit_message is_open node_peer (sync_request request)
              (queue_channel m node_peer channel)
      ]
  handle_sync_event is_open m (response_message peer request_id response) =
      elim (BTreeMap.get request_id m.outbound_sync_requests) [
        | none ↦ ok (m, [])
        | some node_peer ↦
            emit_message is_open node_peer (sync_response response) (without_request m request_id)
      ]
  handle_sync_event is_open m (outbound_failure peer request_id) =
      ok (without_request m request_id, [])
  handle_sync_event is_open m (inbound_failure _) = ok (m, [])
  handle_sync_event is_open m (response_sent _) = ok (m, [])

  abbrev pub announce_answer : ℕ → Bool → NetworkManager → Handled
  announce_answer channel accepted m =
      respond channel (announce_response_sent channel (record { accepted = accepted }))
        (io_other announce_response_failed) m

  unfoldable pub handle_announce_event :
      Bool → NetworkManager → RequestResponseEvent AnnounceRequest AnnounceResponse → Handled
  handle_announce_event is_open m (request_message peer request channel) =
      elim (BTreeMap.get peer m.node_by_transport) [
        | none ↦ announce_answer channel false m
        | some node_peer ↦
            after (emit_message is_open node_peer (announce_request request) m)
              (announce_answer channel true)
      ]
  handle_announce_event is_open m (response_message peer request_id response) =
      elim (BTreeMap.get peer m.node_by_transport) [
        | none ↦ ok (m, [])
        | some node_peer ↦ emit_message is_open node_peer (announce_response response) m
      ]
  handle_announce_event is_open m (outbound_failure _ _) = ok (m, [])
  handle_announce_event is_open m (inbound_failure _) = ok (m, [])
  handle_announce_event is_open m (response_sent _) = ok (m, [])

module _ ⦃c : Crypto⦄ ⦃s : Signing⦄ ⦃p : Postcard⦄ ⦃l : Libp2p⦄ where
  unfoldable pub handle_swarm_event : Bool → NetworkManager → SwarmEvent → Handled
  handle_swarm_event is_open m new_listen_addr = ok (m, [])
  handle_swarm_event is_open m incoming_connection = ok (m, [])
  handle_swarm_event is_open m incoming_connection_error = ok (m, [])
  handle_swarm_event is_open m (connection_established peer_id is_dialer address) =
      on_connection_established m peer_id is_dialer address
  handle_swarm_event is_open m (connection_closed peer_id) =
      unregister_transport_peer is_open m peer_id
  handle_swarm_event is_open m outgoing_connection_error = ok (m, [])
  handle_swarm_event is_open m (identify_event event) = handle_identify_event m event
  handle_swarm_event is_open m (ping_event peer is_answered) = handle_ping_event m peer is_answered
  handle_swarm_event is_open m (gossipsub_event event) = handle_gossipsub_event is_open m event
  handle_swarm_event is_open m kademlia_event = ok (m, [])
  handle_swarm_event is_open m (node_hello_event event) = handle_node_hello_event is_open m event
  handle_swarm_event is_open m (sync_event event) = handle_sync_event is_open m event
  handle_swarm_event is_open m (announce_event event) = handle_announce_event is_open m event
  handle_swarm_event is_open m other_event = ok (m, [])
