-- ===== src/Host/Network/Run.antt =====
-- rp-runtime/src/network/manager.rs: the manager along any run. What a run sends keeps to the
-- sessions of node peers, and the two maps of peers stay inverse to each other.
use rust_proof.Base.{
  ◌≡◌, subst, refl, inl, inr, Bool, not, ◌&&◌, List, [], ◌∷◌, ◌++◌, Bytes, ℕ, ok, map, Bool-cases,
  Outcome-cases,
}
use rust_proof.BTreeMap.{contains_key}
use rust_proof.Core.Crypto.{Crypto}
use rust_proof.Node.Network.{Postcard}
use rust_proof.Host.Hello.{
  NodeHello, NodeHelloResponse, VerifiedPeer, Signing, verify_hello, build_local_node_hello,
}
use rust_proof.Host.Hello.Verify.{verify_hello-returns, build_local_node_hello-returns}
use rust_proof.Host.Contract.{NetworkCommand}
use rust_proof.Host.Network.{
  Libp2p, NetworkManager, NetworkEffect, Handled, add_address, handle_command,
}
use rust_proof.Host.Network.Events.{
  RequestResponseEvent, request_message, response_message, outbound_failure, inbound_failure,
  response_sent, IdentifyEvent, identify_received, identify_error, identify_other, SwarmEvent,
  new_listen_addr, incoming_connection, incoming_connection_error, connection_established,
  connection_closed, outgoing_connection_error, identify_event, ping_event, gossipsub_event,
  kademlia_event, node_hello_event, sync_event, announce_event, other_event,
}
use rust_proof.Host.Network.Handlers.{
  with_local_node_hello, identified, handle_identify_event, accept, handle_node_hello_event,
  handle_swarm_event,
}
use rust_proof.Host.Network.Session.{
  IsConsistent, KeepsSessions, AreInSession, note_all, after-KeepsSessions, note_all-append,
  AreInSession-append, consistent_after,
}
use rust_proof.Host.Network.Bindings.{
  register_verified_peer-KeepsSessions, unregister_transport_peer-KeepsSessions,
}
use rust_proof.Host.Network.Steps.{
  unmoved, on_connection_established-KeepsSessions, handle_ping_event-KeepsSessions,
  handle_gossipsub_event-KeepsSessions,
}
use rust_proof.Host.Network.Protocols.{
  handle_sync_event-KeepsSessions, handle_announce_event-KeepsSessions,
  handle_command-KeepsSessions,
}

module _ ⦃c : Crypto⦄ ⦃s : Signing⦄ ⦃l : Libp2p⦄ where
  with_local_node_hello-KeepsSessions :
      (m : NetworkManager) (view : List Bytes) (peer : Bytes) (rest : NodeHello → Handled)
      → IsConsistent m view
      → ((hello : NodeHello) → KeepsSessions view (rest hello))
      → KeepsSessions view (with_local_node_hello m peer rest)
  unfolding with_local_node_hello
  with_local_node_hello-KeepsSessions m view peer rest i step =
      let local =
        build_local_node_hello m.node_identity m.transport_peer_id m.max_frame_len
          m.max_blocks_per_chunk in
      elim (Outcome-cases local) [
        | inl (hello, e) ↦ rw (e, with_local_node_hello) (step hello)
        | inr (inl (why, e)) ↦ rw (e, with_local_node_hello) (i, (tt, tt))
        | inr (inr e) ↦ absurd (build_local_node_hello-returns _ _ _ _ e)
      ]

  adds_no_event :
      (peer : Bytes) (addresses : List Bytes) (m : NetworkManager) (view : List Bytes)
      → IsConsistent m view
      → KeepsSessions view (ok (m, map (add_address peer) addresses))
  adds_no_event peer [] m view i = (i, tt)
  adds_no_event peer (a ∷ addresses) m view i =
      let rest = adds_no_event peer addresses m view i in (rest.0, (tt, rest.1))

  handle_identify_event-KeepsSessions :
      (m : NetworkManager) (view : List Bytes) (event : IdentifyEvent)
      → IsConsistent m view
      → KeepsSessions view (handle_identify_event m event)
  unfolding handle_identify_event
  handle_identify_event-KeepsSessions m view (identify_received peer addresses agent) i =
      let first =
        adds_no_event peer addresses (identified m peer agent) view
          (unmoved m _ view refl refl refl i) in
      after-KeepsSessions view _ _ first (λ m1 sent e.
        let i1 = consistent_after view _ m1 sent first e in
        elim (Bool-cases
          (contains_key peer m.pending_node_hello && not (contains_key peer m.node_by_transport))) [
            | inr known ↦ rw known (i1, tt)
            | inl waits ↦ rw waits (
                with_local_node_hello-KeepsSessions m1 (note_all view sent) peer _ i1
                  (λ hello. (i1, (tt, tt))))
          ])
  handle_identify_event-KeepsSessions m view identify_error i = (i, tt)
  handle_identify_event-KeepsSessions m view identify_other i = (i, tt)

  accept-KeepsSessions :
      (is_open : Bool) (m : NetworkManager) (view : List Bytes) (peer : Bytes) (channel : ℕ)
      (hello : NodeHello) (verified : VerifiedPeer)
      → verify_hello hello peer ≡ ok verified
      → IsConsistent m view
      → KeepsSessions view (accept is_open m peer channel verified)
  accept-KeepsSessions is_open m view peer channel hello verified e i =
      with_local_node_hello-KeepsSessions m view peer _ i (λ remote.
        elim (Bool-cases (l.delivers m.swarm channel)) [
          | inr lost ↦ rw lost (i, (tt, (tt, tt)))
          | inl reached ↦ rw reached (
              after-KeepsSessions view (ok (m, _ ∷ [])) _ (i, (tt, tt))
                (λ m1 sent q.
                  register_verified_peer-KeepsSessions is_open m1 (note_all view sent) peer hello
                    verified e (consistent_after view (ok (m, _ ∷ [])) m1 sent (i, (tt, tt)) q)))
        ])

  handle_node_hello_event-KeepsSessions :
      (is_open : Bool) (m : NetworkManager) (view : List Bytes)
      (event : RequestResponseEvent NodeHello NodeHelloResponse)
      → IsConsistent m view
      → KeepsSessions view (handle_node_hello_event is_open m event)
  unfolding handle_node_hello_event
  handle_node_hello_event-KeepsSessions is_open m view (request_message peer request channel) i =
      elim (Outcome-cases (verify_hello request peer)) [
        | inl (verified, e) ↦
            rw (e, handle_node_hello_event)
              (accept-KeepsSessions is_open m view peer channel request verified e i)
        | inr (inl (why, e)) ↦
            rw (e, handle_node_hello_event)
              (with_local_node_hello-KeepsSessions m view peer _ i (λ remote. (i, (tt, (tt, tt)))))
        | inr (inr e) ↦ absurd (verify_hello-returns request peer e)
      ]
  handle_node_hello_event-KeepsSessions is_open m view (response_message peer id response) i =
      elim (Bool-cases response.accepted) [
        | inr refused ↦ rw (refused, handle_node_hello_event) (i, (tt, tt))
        | inl accepted ↦ elim (Outcome-cases (verify_hello response.remote peer)) [
          | inl (verified, e) ↦
              rw (accepted, e, handle_node_hello_event)
                (register_verified_peer-KeepsSessions is_open m view peer response.remote verified e
                  i)
          | inr (inl (why, e)) ↦ rw (accepted, e, handle_node_hello_event) (i, (tt, tt))
          | inr (inr e) ↦ absurd (verify_hello-returns response.remote peer e)
        ]
      ]
  handle_node_hello_event-KeepsSessions is_open m view (outbound_failure _ _) i = (i, tt)
  handle_node_hello_event-KeepsSessions is_open m view (inbound_failure _) i = (i, tt)
  handle_node_hello_event-KeepsSessions is_open m view (response_sent _) i = (i, tt)

module _ ⦃c : Crypto⦄ ⦃s : Signing⦄ ⦃p : Postcard⦄ ⦃l : Libp2p⦄ where
  -- On a consistent manager no report of the swarm makes the handler panic. If it succeeds, the
  -- manager is still consistent with the view that its effects leave of the sessions, and it has
  -- reported frames and ends of sessions only for node peers in session.
  pub handle_swarm_event-KeepsSessions :
      (is_open : Bool) (m : NetworkManager) (view : List Bytes) (event : SwarmEvent)
      → IsConsistent m view
      → KeepsSessions view (handle_swarm_event is_open m event)
  unfolding handle_swarm_event
  handle_swarm_event-KeepsSessions is_open m view new_listen_addr i = (i, tt)
  handle_swarm_event-KeepsSessions is_open m view incoming_connection i = (i, tt)
  handle_swarm_event-KeepsSessions is_open m view incoming_connection_error i = (i, tt)
  handle_swarm_event-KeepsSessions is_open m view (connection_established peer dialer address) i =
      on_connection_established-KeepsSessions m view peer dialer address i
  handle_swarm_event-KeepsSessions is_open m view (connection_closed peer) i =
      unregister_transport_peer-KeepsSessions is_open m view peer i
  handle_swarm_event-KeepsSessions is_open m view outgoing_connection_error i = (i, tt)
  handle_swarm_event-KeepsSessions is_open m view (identify_event event) i =
      handle_identify_event-KeepsSessions m view event i
  handle_swarm_event-KeepsSessions is_open m view (ping_event peer is_answered) i =
      handle_ping_event-KeepsSessions m view peer is_answered i
  handle_swarm_event-KeepsSessions is_open m view (gossipsub_event event) i =
      handle_gossipsub_event-KeepsSessions is_open m view event i
  handle_swarm_event-KeepsSessions is_open m view kademlia_event i = (i, tt)
  handle_swarm_event-KeepsSessions is_open m view (node_hello_event event) i =
      handle_node_hello_event-KeepsSessions is_open m view event i
  handle_swarm_event-KeepsSessions is_open m view (sync_event event) i =
      handle_sync_event-KeepsSessions is_open m view event i
  handle_swarm_event-KeepsSessions is_open m view (announce_event event) i =
      handle_announce_event-KeepsSessions is_open m view event i
  handle_swarm_event-KeepsSessions is_open m view other_event i = (i, tt)

  -- A run of the loop of `NetworkManager::run` that has not failed: the manager that it has come
  -- to and the effects so far. Between two turns the receiver of the events may go.
  pub data Reach (start : NetworkManager) : NetworkManager → List NetworkEffect → Type 0 where
    starts : Reach start start []
    on_command :
        {m m' : NetworkManager} {trace effects : List NetworkEffect} (command : NetworkCommand)
        → Reach start m trace
        → handle_command m command ≡ ok (m', effects)
        → Reach start m' (trace ++ effects)
    on_swarm_event :
        {m m' : NetworkManager} {trace effects : List NetworkEffect} (is_open : Bool)
        (event : SwarmEvent)
        → Reach start m trace
        → handle_swarm_event is_open m event ≡ ok (m', effects)
        → Reach start m' (trace ++ effects)

  turn :
      (m' : NetworkManager) (trace effects : List NetworkEffect) (handled : Handled)
      → AreInSession [] trace
      → KeepsSessions (note_all [] trace) handled
      → handled ≡ ok (m', effects)
      → IsConsistent m' (note_all [] (trace ++ effects)) × AreInSession [] (trace ++ effects)
  turn m' trace effects handled before k e =
      let done : KeepsSessions (note_all [] trace) (ok (m', effects)) =
        subst (KeepsSessions (note_all [] trace)) e k in
      (
        rw (note_all-append trace effects []) done.0,
        AreInSession-append trace effects [] before done.1,
      )

  -- Along every run from a consistent manager with no session, such as a new one, the maps of peers
  -- stay inverse to each other; each node peer that the manager has is in session by the events that
  -- it has sent, and a hello that verifies over its transport peer has named it; and the manager has
  -- sent a frame, or the end of a session, only of a node peer that was in session then:
  -- reported connected, and not disconnected since.
  pub Reach-AreInSession :
      (start m : NetworkManager) (trace : List NetworkEffect)
      → IsConsistent start []
      → Reach start m trace
      → IsConsistent m (note_all [] trace) × AreInSession [] trace
  Reach-AreInSession start m trace i starts = (i, tt)
  Reach-AreInSession start m trace i (on_command command run e) =
      let before = Reach-AreInSession start _ _ i run in
      turn m _ _ _ before.1 (handle_command-KeepsSessions _ _ command before.0) e
  Reach-AreInSession start m trace i (on_swarm_event is_open event run e) =
      let before = Reach-AreInSession start _ _ i run in
      turn m _ _ _ before.1 (handle_swarm_event-KeepsSessions is_open _ _ event before.0) e
