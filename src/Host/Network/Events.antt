-- ===== src/Host/Network/Events.antt =====
-- rp-runtime/src/network/manager.rs: what the swarm reports, and how the manager takes it. Whether
-- the receiver of the runtime's events is still there is an argument of what sends one.
use rust_proof.Base.{
  ℕ, Bool, true, false, not, ◌&&◌, ◌||◌, Option, none, some, List, [], ◌∷◌, Bytes, ok, err,
  eq_bytes, if◌then◌else◌, take,
}
use rust_proof.BTreeMap
use rust_proof.BTreeMap.{BTreeMap, contains_key}
use rust_proof.BTreeSet.{retain}
use rust_proof.Core.Crypto.{Crypto}
use rust_proof.Node.Network.{SyncRequest, SyncResponse, AnnounceRequest, AnnounceResponse}
use rust_proof.Host.Errors.{event_send}
use rust_proof.Host.Hello.{NodeHello, NodeHelloResponse, VerifiedPeer}
use rust_proof.Host.Contract.{RuntimeEvent, peer_connected, peer_disconnected, frame_received}
use rust_proof.Host.Network.{
  Libp2p, NetworkManager, Handled, event_sent, disconnect_peer_id, add_address,
}

-- `request_response::Event`. The peer is a transport peer, the request id that of an outbound
-- request, and the number a response channel.
pub data RequestResponseEvent (Req Resp : Type 0) : Type 0 where
  request_message : Bytes → Req → ℕ → RequestResponseEvent Req Resp
  response_message : Bytes → Bytes → Resp → RequestResponseEvent Req Resp
  outbound_failure : Bytes → Bytes → RequestResponseEvent Req Resp
  inbound_failure response_sent : Bytes → RequestResponseEvent Req Resp

-- peer, listen addresses, agent version
pub data IdentifyEvent : Type 0 where
  identify_received : Bytes → List Bytes → Bytes → IdentifyEvent
  identify_error identify_other : IdentifyEvent

-- propagation source, data
pub data GossipsubEvent : Type 0 where
  gossip_message : Bytes → Bytes → GossipsubEvent
  gossip_other : GossipsubEvent

module _ ⦃c : Crypto⦄ where
  pub data SwarmEvent : Type 0 where
    new_listen_addr incoming_connection incoming_connection_error : SwarmEvent
    -- peer, whether it has been dialled, address of the endpoint
    connection_established : Bytes → Bool → Bytes → SwarmEvent
    connection_closed : Bytes → SwarmEvent
    outgoing_connection_error : SwarmEvent
    identify_event : IdentifyEvent → SwarmEvent
    -- peer, whether the ping has been answered
    ping_event : Bytes → Bool → SwarmEvent
    gossipsub_event : GossipsubEvent → SwarmEvent
    kademlia_event : SwarmEvent
    node_hello_event : RequestResponseEvent NodeHello NodeHelloResponse → SwarmEvent
    sync_event : RequestResponseEvent SyncRequest SyncResponse → SwarmEvent
    announce_event : RequestResponseEvent AnnounceRequest AnnounceResponse → SwarmEvent
    other_event : SwarmEvent

-- `info.agent_version.starts_with("rp-runtime/")`, on the bytes.
abbrev pub is_host_agent : Bytes → Bool
is_host_agent agent_version =
    eq_bytes (take 11 agent_version)
      (114 ∷ 112 ∷ 45 ∷ 114 ∷ 117 ∷ 110 ∷ 116 ∷ 105 ∷ 109 ∷ 101 ∷ 47 ∷ [])

abbrev pub is_same : Bytes → Option Bytes → Bool
is_same peer none = false
is_same peer (some previous) = eq_bytes previous peer

-- `previous` without its entry, unless it is `kept`.
unfoldable pub remove_previous : Option Bytes → Bytes → BTreeMap Bytes → BTreeMap Bytes
remove_previous none kept entries = entries
remove_previous (some previous) kept entries =
    if eq_bytes previous kept then entries else BTreeMap.remove previous entries

abbrev pub is_not_of : Bytes → Bytes × Bytes → Bool
is_not_of node_peer (request_id, pending_peer) = not (eq_bytes pending_peer node_peer)

module _ ⦃c : Crypto⦄ ⦃l : Libp2p⦄ where
  -- `self.event_tx.send(event).await.map_err(RuntimeError::event_send)?`
  abbrev pub emit : Bool → RuntimeEvent → NetworkManager → Handled
  emit is_open event m = if is_open then ok (m, event_sent event ∷ []) else err event_send

  -- `register_verified_peer`, without the event.
  abbrev pub bind : NetworkManager → Bytes → VerifiedPeer → NetworkManager
  bind m transport_peer verified =
      let node_peer = verified.node_peer_id in
      record m {
        peer_by_node =
            remove_previous (BTreeMap.get transport_peer m.node_by_transport) node_peer
              (BTreeMap.insert node_peer transport_peer m.peer_by_node);
        node_by_transport =
            remove_previous (BTreeMap.get node_peer m.peer_by_node) transport_peer
              (BTreeMap.insert transport_peer node_peer m.node_by_transport);
        peer_max_blocks_per_chunk =
            BTreeMap.insert node_peer verified.max_blocks_per_chunk m.peer_max_blocks_per_chunk;
      }

  unfoldable pub register_verified_peer : Bool → NetworkManager → Bytes → VerifiedPeer → Handled
  register_verified_peer is_open m transport_peer verified =
      let node_peer = verified.node_peer_id in
      let is_new_mapping =
        not (is_same transport_peer (BTreeMap.get node_peer m.peer_by_node))
        || not (is_same node_peer (BTreeMap.get transport_peer m.node_by_transport)) in
      if is_new_mapping
      then emit is_open (peer_connected node_peer) (bind m transport_peer verified)
      else ok (bind m transport_peer verified, [])

  -- `unregister_transport_peer` of a transport peer with a node peer, without the event.
  abbrev pub unbind : NetworkManager → Bytes → Bytes → NetworkManager
  unbind m transport_peer node_peer = record m {
    peer_by_node = BTreeMap.remove node_peer m.peer_by_node;
    node_by_transport = BTreeMap.remove transport_peer m.node_by_transport;
    peer_max_blocks_per_chunk = BTreeMap.remove node_peer m.peer_max_blocks_per_chunk;
    host_transport_peers = BTreeMap.remove transport_peer m.host_transport_peers;
    pending_node_hello = BTreeMap.remove transport_peer m.pending_node_hello;
    pending_sync_responses = BTreeMap.remove node_peer m.pending_sync_responses;
    outbound_sync_requests = retain (is_not_of node_peer) m.outbound_sync_requests;
  }

  unfoldable pub unregister_transport_peer : Bool → NetworkManager → Bytes → Handled
  unregister_transport_peer is_open m transport_peer =
      elim (BTreeMap.get transport_peer m.node_by_transport) [
        | none ↦ ok (m, [])
        | some node_peer ↦
            emit is_open (peer_disconnected node_peer) (unbind m transport_peer node_peer)
      ]

  unfoldable pub on_connection_established : NetworkManager → Bytes → Bool → Bytes → Handled
  on_connection_established m peer_id is_dialer address =
      let m' =
        if is_dialer && not (contains_key peer_id m.node_by_transport)
        then record m { pending_node_hello = BTreeMap.insert peer_id tt m.pending_node_hello }
        else m in
      ok (m', add_address peer_id address ∷ [])

  unfoldable pub handle_ping_event : NetworkManager → Bytes → Bool → Handled
  handle_ping_event m peer true = ok (m, [])
  handle_ping_event m peer false = ok (m, disconnect_peer_id peer ∷ [])

  unfoldable pub handle_gossipsub_event : Bool → NetworkManager → GossipsubEvent → Handled
  handle_gossipsub_event is_open m (gossip_message source frame) =
      elim (BTreeMap.get source m.node_by_transport) [
        | none ↦ ok (m, [])
        | some node_peer ↦ emit is_open (frame_received node_peer frame) m
      ]
  handle_gossipsub_event is_open m gossip_other = ok (m, [])
