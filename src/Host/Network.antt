-- ===== src/Host/Network.antt =====
-- rp-runtime/src/network/manager.rs: the state of the network manager and the commands that it
-- carries out. `libp2p` is not code of the repository: it is the record `Libp2p`, the calls of it
-- are effects that a handler returns in their order, and what it reports is an argument (`Events`).
-- A `HashMap` is a map in the order of its keys, one of the orders that the source may iterate in.
pub mod Events
pub mod Pairs
pub mod Session
pub mod Bindings
pub mod Steps
pub mod Protocols
pub mod Run
pub mod Requests
pub mod Failures
pub mod Unanswered
pub mod Broadcast
pub mod Handlers
use Prim.Native.Nat.{min}
use rust_proof.Base.{
  ℕ, ◌-◌, Bool, true, false, not, ◌||◌, Option, none, some, List, [], ◌∷◌, ◌++◌, Bytes, Outcome, ok,
  err, panic, ◌>>=◌, ltb, ◌==◌, if◌then◌else◌,
}
use rust_proof.U64.{saturating_add, saturating_sub}
use rust_proof.BTreeMap
use rust_proof.BTreeMap.{BTreeMap, contains_key}
use rust_proof.Core.Crypto.{Crypto}
use rust_proof.Node.Network.{
  Postcard, NetworkMessage, SyncRequest, SyncResponse, AnnounceRequest, AnnounceResponse,
  announce_request, sync_request, sync_response, announce_response, from_bytes,
}
use rust_proof.Host.Errors.{
  RuntimeError, Message, config, io_other, invalid_outbound_frame, sync_response_failed,
}
use rust_proof.Host.Hello.{HostNodeIdentity, NodeHello, NodeHelloResponse}
use rust_proof.Host.Contract.{
  RuntimeEvent, NetworkCommand, send_frame, broadcast_frame, disconnect_peer, request_blocks,
}

-- What the manager takes from the swarm: the id that a request is sent under, and whether an answer
-- can still be given on a response channel.
pub record Libp2p : Type 1 where
  pub Swarm : Type 0
  pub fresh_request : Swarm → Swarm × Bytes
  pub delivers : Swarm → ℕ → Bool

-- `HashSet<PeerId>`
abbrev pub PeerSet : Type 0
PeerSet = BTreeMap (Unit {0})

module _ ⦃c : Crypto⦄ where
  -- A call of the swarm or a send of an event. A transport peer is named by its bytes.
  pub data NetworkEffect : Type 0 where
    publish_announce : Bytes → NetworkEffect
    announce_request_sent : Bytes → AnnounceRequest → NetworkEffect
    -- transport peer, request, request id
    sync_request_sent : Bytes → SyncRequest → Bytes → NetworkEffect
    node_hello_request_sent : Bytes → NodeHello → NetworkEffect
    -- response channel, response
    sync_response_sent : ℕ → SyncResponse → NetworkEffect
    node_hello_response_sent : ℕ → NodeHelloResponse → NetworkEffect
    announce_response_sent : ℕ → AnnounceResponse → NetworkEffect
    disconnect_peer_id : Bytes → NetworkEffect
    -- transport peer, address
    add_address : Bytes → Bytes → NetworkEffect
    event_sent : RuntimeEvent → NetworkEffect

module _ ⦃c : Crypto⦄ ⦃l : Libp2p⦄ where
  pub record NetworkManager : Type 0 where
    pub max_frame_len : ℕ
    pub max_blocks_per_chunk : ℕ
    pub node_identity : HostNodeIdentity
    pub transport_peer_id : Bytes
    pub swarm : l.Swarm
    pub peer_by_node : BTreeMap Bytes
    pub node_by_transport : BTreeMap Bytes
    pub peer_max_blocks_per_chunk : BTreeMap ℕ
    pub host_transport_peers : PeerSet
    pub pending_node_hello : PeerSet
    pub pending_sync_responses : BTreeMap (List ℕ)
    pub outbound_sync_requests : BTreeMap Bytes

  -- The end of `NetworkManager::new_with_config`, from what it has read and built.
  abbrev pub new : ℕ → ℕ → HostNodeIdentity → Bytes → l.Swarm → NetworkManager
  new max_frame_len max_blocks_per_chunk node_identity transport_peer_id swarm = record {
    max_frame_len = max_frame_len;
    max_blocks_per_chunk = max_blocks_per_chunk;
    node_identity = node_identity;
    transport_peer_id = transport_peer_id;
    swarm = swarm;
    peer_by_node = [];
    node_by_transport = [];
    peer_max_blocks_per_chunk = [];
    host_transport_peers = [];
    pending_node_hello = [];
    pending_sync_responses = [];
    outbound_sync_requests = [];
  }

  abbrev pub Handled : Type 0
  Handled = Outcome RuntimeError (NetworkManager × List NetworkEffect)

  -- One call after another: `first?; rest`.
  unfoldable pub after : Handled → (NetworkManager → Handled) → Handled
  after first rest = first >>= λ done. rest done.0 >>= λ last. ok (last.0, done.1 ++ last.1)

  unfoldable pub clamp_sync_request : NetworkManager → Bytes → SyncRequest → SyncRequest
  clamp_sync_request m peer request = elim (BTreeMap.get peer m.peer_max_blocks_per_chunk) [
    | none ↦ request
    | some limit ↦
        if limit == 0 || ltb request.to_height request.from_height then request else record {
          from_height = request.from_height;
          to_height =
              min request.to_height (saturating_add request.from_height (saturating_sub limit 1));
        }
  ]

  unfoldable pub send_sync_request : NetworkManager → Bytes → SyncRequest → Handled
  send_sync_request m peer request = elim (BTreeMap.get peer m.peer_by_node) [
    | none ↦ ok (m, [])
    | some transport_peer ↦
        let clamped = clamp_sync_request m peer request in
        let (swarm, request_id) = l.fresh_request m.swarm in
        ok (
          record m {
            swarm = swarm;
            outbound_sync_requests = BTreeMap.insert request_id peer m.outbound_sync_requests;
          },
          sync_request_sent transport_peer clamped request_id ∷ [],
        )
  ]

  -- The channels that are left of a queue, which is removed when it is empty.
  abbrev pub left_of : Bytes → List ℕ → BTreeMap (List ℕ) → BTreeMap (List ℕ)
  left_of peer [] pending = BTreeMap.remove peer pending
  left_of peer (channel ∷ channels) pending = BTreeMap.insert peer (channel ∷ channels) pending

  abbrev pub answer_first : NetworkManager → Bytes → List ℕ → SyncResponse → Handled
  answer_first m peer [] response = ok (m, [])
  answer_first m peer (channel ∷ channels) response =
      let m' = record m {
        pending_sync_responses = left_of peer channels m.pending_sync_responses;
      } in
      if l.delivers m.swarm channel
      then ok (m', sync_response_sent channel response ∷ [])
      else err (io_other sync_response_failed)

  unfoldable pub send_sync_response : NetworkManager → Bytes → SyncResponse → Handled
  send_sync_response m peer response = elim (BTreeMap.get peer m.pending_sync_responses) [
    | none ↦ ok (m, [])
    | some queue ↦ answer_first m peer queue response
  ]

module _ ⦃c : Crypto⦄ ⦃p : Postcard⦄ ⦃l : Libp2p⦄ where
  -- The `match` of `send_frame`, for a peer on a transport peer.
  abbrev pub send_message : NetworkManager → Bytes → Bytes → NetworkMessage → Handled
  send_message m peer transport_peer (announce_request request) =
      ok (m, announce_request_sent transport_peer request ∷ [])
  send_message m peer transport_peer (sync_request request) = send_sync_request m peer request
  send_message m peer transport_peer (sync_response response) = send_sync_response m peer response
  send_message m peer transport_peer (announce_response response) = ok (m, [])

  unfoldable pub send_frame_to : NetworkManager → Bytes → Bytes → Handled
  send_frame_to m peer frame = elim (BTreeMap.get peer m.peer_by_node) [
    | none ↦ ok (m, [])
    | some transport_peer ↦ elim (from_bytes frame) [
      | none ↦ err (config invalid_outbound_frame)
      | some message ↦ send_message m peer transport_peer message
    ]
  ]

  -- The node peer is on the transport peer of another host.
  unfoldable pub is_on_host : NetworkManager → Bytes → Bool
  is_on_host m peer = elim (BTreeMap.get peer m.peer_by_node) [
    | none ↦ false
    | some transport_peer ↦ contains_key transport_peer m.host_transport_peers
  ]

  -- The loop of a broadcast.
  unfoldable pub send_to_each : NetworkManager → Bytes → List Bytes → Handled
  send_to_each m frame [] = ok (m, [])
  send_to_each m frame (peer ∷ peers) =
      after (if is_on_host m peer then ok (m, []) else send_frame_to m peer frame)
        (λ m'. send_to_each m' frame peers)

  abbrev pub keys : {V : Type 0} → BTreeMap V → List Bytes
  keys [] = []
  keys ((k, v) ∷ entries) = k ∷ keys entries

  abbrev pub published : Bytes → Option NetworkMessage → List NetworkEffect
  published frame (some (announce_request request)) = publish_announce frame ∷ []
  published frame _ = []

  abbrev pub disconnects : Option Bytes → List NetworkEffect
  disconnects none = []
  disconnects (some transport_peer) = disconnect_peer_id transport_peer ∷ []

  unfoldable pub handle_command : NetworkManager → NetworkCommand → Handled
  handle_command m (send_frame peer frame) = send_frame_to m peer frame
  handle_command m (broadcast_frame frame) =
      after (ok (m, published frame (from_bytes frame)))
        (λ m'. send_to_each m' frame (keys m'.peer_by_node))
  handle_command m (disconnect_peer peer) = ok (m, disconnects (BTreeMap.get peer m.peer_by_node))
  handle_command m (request_blocks peer from_height to_height) =
      send_sync_request m peer (record { from_height = from_height; to_height = to_height })
