-- ===== src/Tests/Sessions.antt =====
-- The embedded runtime's network manager at concrete inputs.
use rust_proof.Base.{ℕ, ◌≡◌, refl, true, false, none, some, List, [], ◌∷◌, ok, arith, sym, ap}
use rust_proof.BTreeMap
use rust_proof.BTreeSet.{retain}
use rust_proof.Host.Contract.{peer_connected}
use rust_proof.Runtime.PeerRegistry
use rust_proof.Runtime.PeerRegistry.{
  PeerRegistry, PeerSession, fresh_session, session_at, set_slot, alloc, free_slot,
  register_node_peer, peer_of_another_session,
}
use rust_proof.Runtime.PeerRegistry.Index.{IsIndexed}
use rust_proof.Runtime.Network.{
  VerifiedPeer, ready, World, NetworkManager, NetworkEffect, event_sent, worker_spawned,
  handle_session_event, spawn_session, readied,
}
use rust_proof.Runtime.Network.Sessions.{handle_session_event-IsIndexed, spawn_session-IsIndexed}
use rust_proof.Tests.Toy.{toy}

abbrev world : World
world = record {
  hears_events = true;
  hears_commands = λ id. true;
  spawns = true;
  to_socket_addrs = λ host port. none;
  connects = λ address. true;
}

abbrev manager : NetworkManager
manager = record {
  max_outbound_dials = 4;
  bootstrap_peers = [];
  peers = PeerRegistry.new 2;
  session_commands = [];
}

empty-IsIndexed : IsIndexed manager.peers
unfolding BTreeMap.get session_at
empty-IsIndexed = record {
  ordered = tt;
  named = λ q j e. absurd (ground arith);
  found = λ q j s e name. absurd (ground arith);
}

abbrev spawned : ℕ → List NetworkEffect
spawned id = worker_spawned id false none ∷ []

abbrev one_session : NetworkManager
one_session = record manager {
  peers = record manager.peers { sessions = some (fresh_session 0 [] false none) ∷ [] };
  session_commands = 0 ∷ [];
}

spawns_first : spawn_session world manager false none none ≡ ok (one_session, spawned 0)
unfolding spawn_session alloc free_slot retain
spawns_first = refl

abbrev verified : VerifiedPeer
verified = record {
  node_peer_id = 7 ∷ [];
  transport_peer_id = 8 ∷ [];
  max_frame_len = 65536;
  max_blocks_per_chunk = 8;
}

abbrev ready_session : PeerSession
ready_session = record (readied (fresh_session 0 [] false none) verified) {
  node_peer_id = some (7 ∷ []);
}

abbrev one_ready : NetworkManager
one_ready = record one_session {
  peers = record one_session.peers {
    sessions = some ready_session ∷ [];
    by_node_peer = (7 ∷ [], 0) ∷ [];
  };
}

gets_ready :
    handle_session_event world one_session (ready 0 verified)
    ≡ ok (one_ready, event_sent (peer_connected (7 ∷ [])) ∷ [])
unfolding handle_session_event PeerRegistry.get session_at set_slot register_node_peer BTreeMap.get
    BTreeMap.insert
gets_ready = refl

one_session-IsIndexed : IsIndexed one_session.peers
one_session-IsIndexed =
    (spawn_session-IsIndexed world manager one_session false none none (spawned 0) empty-IsIndexed
      (omega arith) spawns_first).5

fresh_unnamed :
    (session : PeerSession)
    → session_at 0 one_session.peers.sessions ≡ some session
    → session.node_peer_id ≡ none
unfolding session_at
fresh_unnamed session e =
    let same : fresh_session 0 [] false none ≡ session = cc in
    sym (ap (λ (x : PeerSession). x.node_peer_id) same)

handle_session_event-IsIndexed_example : IsIndexed one_ready.peers
handle_session_event-IsIndexed_example =
    handle_session_event-IsIndexed world one_session one_ready (ready 0 verified)
      (event_sent (peer_connected (7 ∷ [])) ∷ []) one_session-IsIndexed fresh_unnamed gets_ready

one_ready-IsIndexed : IsIndexed one_ready.peers
one_ready-IsIndexed =
    handle_session_event-IsIndexed world one_session one_ready (ready 0 verified)
      (event_sent (peer_connected (7 ∷ [])) ∷ []) one_session-IsIndexed fresh_unnamed gets_ready

abbrev two_sessions : NetworkManager
two_sessions = record one_ready {
  peers = record one_ready.peers {
    sessions = some ready_session ∷ some (fresh_session 1 [] false none) ∷ [];
  };
  session_commands = 1 ∷ 0 ∷ [];
}

spawns_second : spawn_session world one_ready false none none ≡ ok (two_sessions, spawned 1)
unfolding spawn_session alloc free_slot retain
spawns_second = refl

two_sessions-IsIndexed : IsIndexed two_sessions.peers
two_sessions-IsIndexed =
    (spawn_session-IsIndexed world one_ready two_sessions false none none (spawned 1)
      one_ready-IsIndexed (omega arith) spawns_second).5

there_first : session_at 0 two_sessions.peers.sessions ≡ some ready_session
unfolding session_at
there_first = refl

there_second : session_at 1 two_sessions.peers.sessions ≡ some (fresh_session 1 [] false none)
unfolding session_at
there_second = refl
