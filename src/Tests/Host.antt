-- ===== src/Tests/Host.antt =====
-- The desktop runtime at concrete inputs.
use rust_proof.Base.{
  ◌≤◌, ◌<◌, ◌+◌, ◌≡◌, refl, true, false, none, some, List, [], ◌∷◌, ◌++◌, Bytes, ok, err, arith,
  cmp_bytes, ◌↔◌,
}
use rust_proof.BTreeMap
use rust_proof.BTreeMap.{get_or, contains_key}
use rust_proof.BTreeMap.Laws.{get-insert_self}
use rust_proof.Node.Network.{SyncRequest, SyncResponse, AlwaysEncodes, from_bytes, announce_request}
use rust_proof.Host.Errors.{io_other, fallback_sync_response_failed}
use rust_proof.Host.Hello.{
  NodeHello, VerifiedPeer, from_signing_key, local_transcript, signed_hello, build_local_node_hello,
  verify_hello, some_or,
}
use rust_proof.Host.Hello.Verify.{
  IsBound, verify_hello-IsBound, verify_hello-build_local_node_hello,
}
use rust_proof.Host.Contract.{peer_connected, frame_received, broadcast_frame}
use rust_proof.Host.Network.{
  NetworkManager, NetworkEffect, event_sent, publish_announce, announce_request_sent,
  clamp_sync_request, send_sync_response, handle_command,
}
use rust_proof.Host.Network
use rust_proof.Host.Network.Events.{
  request_message, response_message, gossip_message, SwarmEvent, node_hello_event, gossipsub_event,
  sync_event, bind, register_verified_peer, remove_previous, handle_gossipsub_event,
}
use rust_proof.Host.Network.Handlers.{handle_swarm_event, handle_node_hello_event}
use rust_proof.Host.Network.Session.{IsConsistent, AreInSession, note_all}
use rust_proof.Host.Network.Run.{starts, on_swarm_event, Reach-AreInSession}
use rust_proof.Host.Network.Requests.{clamp_sync_request-bounds}
use rust_proof.Host.Network.Broadcast.{announcements, handle_command-announcements}
use rust_proof.Host.Network.Failures.{FailsBy}
use rust_proof.Host.Network.Unanswered.{
  Cause, handle_swarm_event-FailsBy, handle_swarm_event-fails_iff, IsUnanswered,
}
use rust_proof.Tests.Toy.{bob, alice, toy}
use rust_proof.Tests.Desktop.{
  toy_signing, toy_libp2p, toy_postcard, toy_sled, toy_block_codec, announced,
}

abbrev alice_transport : Bytes
alice_transport = 40 ∷ 41 ∷ []

abbrev bob_transport : Bytes
bob_transport = 50 ∷ 51 ∷ []

abbrev bob_hello : NodeHello
bob_hello =
    signed_hello (from_signing_key bob)
      (local_transcript (from_signing_key bob) bob_transport 65536 8)
      (1 ∷ 8 ∷ (from_signing_key bob).peer_id ++ bob_transport)

abbrev bob_peer : VerifiedPeer
bob_peer = record { node_peer_id = (from_signing_key bob).peer_id; max_blocks_per_chunk = 8 }

bob_builds : build_local_node_hello (from_signing_key bob) bob_transport 65536 8 ≡ ok bob_hello
unfolding build_local_node_hello some_or
bob_builds = refl

verify_hello-build_local_node_hello_example : verify_hello bob_hello bob_transport ≡ ok bob_peer
verify_hello-build_local_node_hello_example =
    verify_hello-build_local_node_hello bob bob_transport 65536 8 bob_hello bob_builds

bob_verifies : verify_hello bob_hello bob_transport ≡ ok bob_peer
bob_verifies = verify_hello-build_local_node_hello bob bob_transport 65536 8 bob_hello bob_builds

verify_hello-IsBound_example : IsBound bob_hello bob_transport bob_peer
verify_hello-IsBound_example = verify_hello-IsBound bob_hello bob_transport bob_peer bob_verifies

abbrev manager : NetworkManager
manager = Network.new 65536 8 (from_signing_key alice) alice_transport 0

manager-IsConsistent : IsConsistent manager []
unfolding BTreeMap.get
manager-IsConsistent = record {
  paired = record { xs_ordered = tt; ys_ordered = tt; forth = λ x y e. cc; back = λ x y e. cc };
  vouched = λ t p e. absurd cc;
  in_session = λ p t e. absurd cc;
  requested = tt;
}

abbrev bob_bound : NetworkManager
bob_bound = bind manager bob_transport bob_peer

abbrev bob_accepts : SwarmEvent
bob_accepts = node_hello_event (
    response_message bob_transport (0 ∷ [])
      (record { accepted = true; remote = bob_hello; reject_reason = none }))

abbrev bob_gossips : SwarmEvent
bob_gossips = gossipsub_event (gossip_message bob_transport (9 ∷ []))

bob_registered :
    register_verified_peer true manager bob_transport bob_peer
    ≡ ok (bob_bound, event_sent (peer_connected bob_peer.node_peer_id) ∷ [])
unfolding register_verified_peer BTreeMap.get
bob_registered = refl

bob_registers :
    handle_swarm_event true manager bob_accepts
    ≡ ok (bob_bound, event_sent (peer_connected bob_peer.node_peer_id) ∷ [])
unfolding handle_swarm_event handle_node_hello_event
bob_registers = rw (bob_verifies, handle_node_hello_event) bob_registered

bob_heard :
    handle_swarm_event true bob_bound bob_gossips
    ≡ ok (bob_bound, event_sent (frame_received bob_peer.node_peer_id (9 ∷ [])) ∷ [])
unfolding handle_swarm_event handle_gossipsub_event BTreeMap.get remove_previous BTreeMap.insert
    cmp_bytes
bob_heard = refl

abbrev heard : List NetworkEffect
heard =
    event_sent (peer_connected bob_peer.node_peer_id)
    ∷ event_sent (frame_received bob_peer.node_peer_id (9 ∷ []))
    ∷ []

Reach-AreInSession_example : IsConsistent bob_bound (note_all [] heard) × AreInSession [] heard
Reach-AreInSession_example = Reach-AreInSession manager bob_bound heard manager-IsConsistent (
    on_swarm_event true bob_gossips (on_swarm_event true bob_accepts starts bob_registers)
      bob_heard)

abbrev two_waiting : NetworkManager
two_waiting = record bob_bound {
  pending_sync_responses = BTreeMap.insert bob_peer.node_peer_id (5 ∷ 6 ∷ []) [];
}

abbrev no_blocks : SyncResponse
no_blocks = record { blocks = []; has_more = false; next_height = none }

abbrev asked : SyncRequest
asked = record { from_height = 3; to_height = 100 }

eight_blocks : BTreeMap.get bob_peer.node_peer_id bob_bound.peer_max_blocks_per_chunk ≡ some 8
eight_blocks = get-insert_self bob_peer.node_peer_id 8 []

clamp_sync_request-bounds_example :
    ((clamp_sync_request bob_bound bob_peer.node_peer_id asked).from_height ≡ 3)
    × ((clamp_sync_request bob_bound bob_peer.node_peer_id asked).to_height ≤ 100)
    × (3 ≤ (clamp_sync_request bob_bound bob_peer.node_peer_id asked).to_height)
    × ((clamp_sync_request bob_bound bob_peer.node_peer_id asked).to_height < 3 + 8)
clamp_sync_request-bounds_example =
    clamp_sync_request-bounds bob_bound bob_peer.node_peer_id asked 8 eight_blocks
      (λ e. absurd (omega (arith, e))) (omega arith) (omega arith)

-- Two node peers, the first on another host.
abbrev with_host : NetworkManager
with_host = record manager {
  peer_by_node = (1 ∷ [], 10 ∷ []) ∷ (2 ∷ [], 20 ∷ []) ∷ [];
  host_transport_peers = (10 ∷ [], tt) ∷ [];
}

two-IsSorted : BTreeMap.IsSorted with_host.peer_by_node
unfolding cmp_bytes
two-IsSorted = (refl, (tt, tt))

read_announced : from_bytes (9 ∷ []) ≡ some (announce_request announced)
unfolding from_bytes
read_announced = refl

handle_command-announcements_example :
    handle_command with_host (broadcast_frame (9 ∷ []))
    ≡ ok (
      with_host,
      publish_announce (9 ∷ [])
          ∷ announcements announced with_host.host_transport_peers with_host.peer_by_node,
    )
handle_command-announcements_example =
    handle_command-announcements with_host (9 ∷ []) announced read_announced two-IsSorted

sends_to_one :
    announcements announced with_host.host_transport_peers with_host.peer_by_node
    ≡ announce_request_sent (20 ∷ []) announced ∷ []
unfolding contains_key BTreeMap.get cmp_bytes
sends_to_one = refl

abbrev stray_request : SwarmEvent
stray_request = sync_event (request_message bob_transport asked 500)

always_encodes : AlwaysEncodes
always_encodes message = (9 ∷ [], refl)

handle_swarm_event-FailsBy_example :
    FailsBy (Cause true manager stray_request) (handle_swarm_event true manager stray_request)
handle_swarm_event-FailsBy_example =
    handle_swarm_event-FailsBy true manager stray_request always_encodes

handle_swarm_event-fails_iff_example :
    (handle_swarm_event true manager stray_request ≡ err (io_other fallback_sync_response_failed))
    ↔ IsUnanswered manager stray_request (io_other fallback_sync_response_failed)
handle_swarm_event-fails_iff_example =
    handle_swarm_event-fails_iff manager stray_request (io_other fallback_sync_response_failed)
      always_encodes
