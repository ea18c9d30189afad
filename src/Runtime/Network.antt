-- ===== src/Runtime/Network.antt =====
-- erp-runtime/src/network/manager.rs: the sessions that the network manager of the embedded runtime
-- keeps, and what it tells their workers and the node. The network, the threads and the channels are
-- arguments (`World`); a worker is known by the id of its session.
pub mod Sessions
use Prim.Native.Nat.{min}
use rust_proof.Base.{
  ℕ, zero, suc, ◌%◌, Bool, true, false, not, ◌||◌, Option, none, some, List, [], ◌∷◌, ◌++◌, Bytes,
  Outcome, ok, err, panic, ◌>>=◌, map_err, ltb, leb, ◌==◌, if◌then◌else◌, length,
}
use rust_proof.U64.{u64_limit, saturating_add, saturating_sub}
use rust_proof.BTreeSet.{retain}
use rust_proof.Core.Crypto.{Crypto}
use rust_proof.Node.Network.{Postcard, SyncRequest, sync_request, to_bytes}
use rust_proof.Host.Contract.{
  RuntimeEvent, peer_connected, peer_disconnected, NetworkCommand, send_frame, broadcast_frame,
  disconnect_peer, request_blocks,
}
use rust_proof.Runtime.PeerRegistry
use rust_proof.Runtime.PeerRegistry.{
  PeerRegistry, PeerSession, SocketAddr, v4, v6, RegistryError, node_ready, alloc, set_slot,
  register_node_peer, session_for_node, ready_sessions, outbound_session_count,
  has_outbound_session_for,
}

-- `VerifiedPeer` of network/protocol/node_hello.rs, as far as the manager reads it.
pub record VerifiedPeer : Type 0 where
  pub node_peer_id : Bytes
  pub transport_peer_id : Bytes
  pub max_frame_len : ℕ
  pub max_blocks_per_chunk : ℕ

pub data SessionCommand : Type 0 where
  send : Bytes → SessionCommand
  disconnect : SessionCommand

pub data SessionEvent : Type 0 where
  -- session id, verified peer
  ready : ℕ → VerifiedPeer → SessionEvent
  -- session id, node peer id
  closed : ℕ → Option Bytes → SessionEvent

pub data NetworkError : Type 0 where
  registry : RegistryError → NetworkError
  unknown_ready_session event_send network_send thread_failed : NetworkError

-- `MultiaddrLite` and `BootstrapPeer` of network/config.rs.
pub data MultiaddrLite : Type 0 where
  -- address or host name, and port
  ip4_tcp dns4_tcp : Bytes → ℕ → MultiaddrLite

pub record BootstrapPeer : Type 0 where
  pub address : MultiaddrLite
  pub expected_transport_peer : Option Bytes

-- What the manager meets: whether the receiver of the node's events and that of a worker's commands
-- are still there, whether a thread can be spawned, which addresses a host name and a port
-- resolve to, and whether a connection to an address succeeds.
pub record World : Type 0 where
  pub hears_events : Bool
  pub hears_commands : ℕ → Bool
  pub spawns : Bool
  pub to_socket_addrs : Bytes → ℕ → Option (List SocketAddr)
  pub connects : SocketAddr → Bool

pub record NetworkManager : Type 0 where
  pub max_outbound_dials : ℕ
  pub bootstrap_peers : List BootstrapPeer
  pub peers : PeerRegistry
  -- the sessions with a worker
  pub session_commands : List ℕ

abbrev pub has_worker : ℕ → List ℕ → Bool
has_worker id [] = false
has_worker id (worker ∷ workers) = worker == id || has_worker id workers

abbrev pub without_worker : ℕ → List ℕ → List ℕ
without_worker id workers = retain (λ worker. not (worker == id)) workers

-- The session of a peer that has been verified.
abbrev pub readied : PeerSession → VerifiedPeer → PeerSession
readied session verified = record session {
  transport_peer_id = verified.transport_peer_id;
  state = node_ready;
  max_frame_len = verified.max_frame_len;
  max_blocks_per_chunk = verified.max_blocks_per_chunk;
}

abbrev pub with_session : PeerRegistry → ℕ → PeerSession → PeerRegistry
with_session r id session = record r { sessions = set_slot id (some session) r.sessions }

abbrev pub within : ℕ → SyncRequest → SyncRequest
within limit request =
    if limit == 0 || ltb request.to_height request.from_height then request else record {
      from_height = request.from_height;
      to_height =
          min request.to_height (saturating_add request.from_height (saturating_sub limit 1));
    }

unfoldable pub clamp_sync_request : NetworkManager → Bytes → SyncRequest → SyncRequest
clamp_sync_request m peer request = elim (session_for_node m.peers peer) [
  | none ↦ request
  | some id ↦ elim (PeerRegistry.get m.peers id) [
    | none ↦ request
    | some session ↦ within session.max_blocks_per_chunk request
  ]
]

abbrev pub is_ipv4 : SocketAddr → Bool
is_ipv4 (v4 a port) = true
is_ipv4 (v6 a port flow scope) = false

-- `.find(SocketAddr::is_ipv4)`
unfoldable pub find_ipv4 : List SocketAddr → Option SocketAddr
find_ipv4 [] = none
find_ipv4 (address ∷ addresses) =
    let rest = find_ipv4 addresses in if is_ipv4 address then some address else rest

-- The caller does not tell its errors apart: each is `none`.
unfoldable pub resolve_bootstrap_addr : World → MultiaddrLite → Option SocketAddr
resolve_bootstrap_addr w (ip4_tcp address port) = some (v4 address port)
resolve_bootstrap_addr w (dns4_tcp host port) = elim (w.to_socket_addrs host port) [
  | none ↦ none
  | some addresses ↦ find_ipv4 addresses
]

-- `targets[*bootstrap_cursor % targets.len()]`
abbrev pub target_at : ℕ → List BootstrapPeer → Option BootstrapPeer
target_at n [] = none
target_at zero (target ∷ targets) = some target
target_at (suc n) (target ∷ targets) = target_at n targets

module _ ⦃c : Crypto⦄ where
  pub data NetworkEffect : Type 0 where
    -- session id, command
    told : ℕ → SessionCommand → NetworkEffect
    event_sent : RuntimeEvent → NetworkEffect
    -- session id, whether it is outbound, the transport peer that is expected
    worker_spawned : ℕ → Bool → Option Bytes → NetworkEffect

  abbrev pub Handled : Type 0
  Handled = Outcome NetworkError (NetworkManager × List NetworkEffect)

  -- `command_tx.send(command).await.map_err(RuntimeError::network_send)`
  abbrev pub tell : World → NetworkManager → ℕ → SessionCommand → Handled
  tell w m id command =
      if w.hears_commands id then ok (m, told id command ∷ []) else err network_send

  -- For the session of a node peer that has a worker.
  unfoldable pub tell_peer : World → NetworkManager → Bytes → SessionCommand → Handled
  tell_peer w m peer command = elim (session_for_node m.peers peer) [
    | none ↦ ok (m, [])
    | some id ↦ if has_worker id m.session_commands then tell w m id command else ok (m, [])
  ]

  abbrev pub send_frame_to_peer : World → NetworkManager → Bytes → Bytes → Handled
  send_frame_to_peer w m peer frame = tell_peer w m peer (send frame)

  -- The loop of a broadcast.
  unfoldable pub tell_each : World → NetworkManager → Bytes → List ℕ → Handled
  tell_each w m frame [] = ok (m, [])
  tell_each w m frame (id ∷ ids) =
      (if has_worker id m.session_commands then tell w m id (send frame) else ok (m, []))
      >>= λ done. tell_each w done.0 frame ids >>= λ last. ok (last.0, done.1 ++ last.1)

  abbrev pub emit : World → RuntimeEvent → NetworkManager → Handled
  emit w event m = if w.hears_events then ok (m, event_sent event ∷ []) else err event_send

  abbrev pub announce_end : World → Option Bytes → NetworkManager → Handled
  announce_end w none m = ok (m, [])
  announce_end w (some node_peer_id) m = emit w (peer_disconnected node_peer_id) m

  unfoldable pub handle_session_event : World → NetworkManager → SessionEvent → Handled
  handle_session_event w m (ready id verified) = elim (PeerRegistry.get m.peers id) [
    | none ↦ err unknown_ready_session
    | some session ↦
        map_err registry (
          register_node_peer (with_session m.peers id (readied session verified)) id
            verified.node_peer_id)
        >>= λ peers. emit w (peer_connected verified.node_peer_id) (record m { peers = peers })
  ]
  handle_session_event w m (closed id node_peer_id) = announce_end w node_peer_id (record m {
    session_commands = without_worker id m.session_commands;
    peers = (PeerRegistry.remove m.peers id).0;
  })

  unfoldable pub spawn_session :
      World → NetworkManager → Bool → Option SocketAddr → Option Bytes → Handled
  spawn_session w m is_outbound outbound_addr expected_transport_peer =
      map_err registry (alloc m.peers [] is_outbound outbound_addr) >>= λ allocated.
      let id = allocated.1 in
      let m' = record m {
        peers = allocated.0;
        session_commands = id ∷ without_worker id m.session_commands;
      } in
      if w.spawns
      then ok (m', worker_spawned id is_outbound expected_transport_peer ∷ [])
      else err thread_failed

  abbrev pub dial : World → NetworkManager → Option Bytes → SocketAddr → Handled
  dial w m expected address =
      if has_outbound_session_for m.peers address
      then ok (m, [])
      else if w.connects address
      then spawn_session w m true (some address) expected
      else ok (m, [])

  abbrev pub dial_target : World → NetworkManager → BootstrapPeer → Handled
  dial_target w m target = elim (resolve_bootstrap_addr w target.address) [
    | none ↦ ok (m, [])
    | some address ↦ dial w m target.expected_transport_peer address
  ]

  -- With the cursor behind it, which stops at the maximal `usize` of 32 bits.
  unfoldable pub bootstrap_once : World → NetworkManager → ℕ → Handled × ℕ
  bootstrap_once w m bootstrap_cursor =
      if leb m.max_outbound_dials (outbound_session_count m.peers)
      then (ok (m, []), bootstrap_cursor)
      else elim m.bootstrap_peers [
        | [] ↦ (ok (m, []), bootstrap_cursor)
        | target ∷ targets ↦ (
          elim (target_at (bootstrap_cursor % length (target ∷ targets)) (target ∷ targets)) [
            | none ↦ panic
            | some chosen ↦ dial_target w m chosen
          ],
          min (suc bootstrap_cursor) 4294967295,
        )
      ]

module _ ⦃c : Crypto⦄ ⦃p : Postcard⦄ where
  unfoldable pub handle_network_command : World → NetworkManager → NetworkCommand → Handled
  handle_network_command w m (send_frame peer frame) = send_frame_to_peer w m peer frame
  handle_network_command w m (broadcast_frame frame) = tell_each w m frame (ready_sessions m.peers)
  handle_network_command w m (disconnect_peer peer) = tell_peer w m peer disconnect
  handle_network_command w m (request_blocks peer from_height to_height) =
      let request : SyncRequest = record { from_height = from_height; to_height = to_height } in
      to_bytes (sync_request (clamp_sync_request m peer request)) >>= λ frame.
      send_frame_to_peer w m peer frame
