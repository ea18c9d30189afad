-- ===== src/Host/Network/Failures.antt =====
-- rp-runtime/src/network/manager.rs: the errors by which the handlers of the network manager fail.
use rust_proof.Base.{
  ◌≡◌, refl, inl, inr, Bool, true, false, not, ◌&&◌, ◌||◌, List, Bytes, ok, err, panic, Bool-cases,
  Option-cases, Outcome-cases,
}
use rust_proof.BTreeMap
use rust_proof.BTreeMap.{BTreeMap, contains_key}
use rust_proof.Core.Crypto.{Crypto}
use rust_proof.Host.Errors.{RuntimeError, event_send}
use rust_proof.Host.Hello.{
  NodeHello, NodeHelloResponse, VerifiedPeer, Signing, verify_hello, build_local_node_hello,
}
use rust_proof.Host.Hello.Verify.{verify_hello-returns, build_local_node_hello-returns}
use rust_proof.Host.Contract.{RuntimeEvent}
use rust_proof.Host.Network.{Libp2p, NetworkManager, NetworkEffect, Handled, after}
use rust_proof.Host.Network.Events.{
  RequestResponseEvent, request_message, response_message, outbound_failure, inbound_failure,
  response_sent, IdentifyEvent, identify_received, identify_error, identify_other, GossipsubEvent,
  gossip_message, gossip_other, emit, is_same, register_verified_peer, unregister_transport_peer,
  handle_gossipsub_event,
}
use rust_proof.Host.Network.Handlers.{
  with_local_node_hello, identified, handle_identify_event, handle_node_hello_event,
}

module _ ⦃c : Crypto⦄ ⦃l : Libp2p⦄ where
  -- A handler succeeds, or fails for one of the reasons.
  abbrev pub FailsBy : (RuntimeError → Type 0) → Handled → Type 0
  FailsBy Reason (ok done) = Unit
  FailsBy Reason (err why) = Reason why
  FailsBy Reason panic = ⊥

  pub after-FailsBy :
      (Reason : RuntimeError → Type 0) (first : Handled) (rest : NetworkManager → Handled)
      → FailsBy Reason first
      → ((m : NetworkManager) (effects : List NetworkEffect)
          → first ≡ ok (m, effects)
          → FailsBy Reason (rest m))
      → FailsBy Reason (after first rest)
  unfolding after
  after-FailsBy Reason (err why) rest k step = k
  after-FailsBy Reason panic rest k step = k
  after-FailsBy Reason (ok (m, effects)) rest k step =
      let now = step m effects refl in
      elim (Outcome-cases (rest m)) [
        | inl (done, e) ↦ rw e tt
        | inr (inl (why, e)) ↦ rw e (rw e at now)
        | inr (inr e) ↦ absurd (rw e at now)
      ]

  -- The receiver of the events has gone.
  abbrev pub EventsGone : Bool → RuntimeError → Type 0
  EventsGone is_open why = (why ≡ event_send) × (is_open ≡ false)

  pub emit-FailsBy :
      (is_open : Bool) (event : RuntimeEvent) (m : NetworkManager)
      → FailsBy (EventsGone is_open) (emit is_open event m)
  emit-FailsBy true event m = tt
  emit-FailsBy false event m = (refl, refl)

  register_verified_peer-FailsBy :
      (is_open : Bool) (m : NetworkManager) (transport : Bytes) (verified : VerifiedPeer)
      → FailsBy (EventsGone is_open) (register_verified_peer is_open m transport verified)
  unfolding register_verified_peer
  register_verified_peer-FailsBy is_open m transport verified =
      let node = verified.node_peer_id in
      elim (Bool-cases (
        not (is_same transport (BTreeMap.get node m.peer_by_node))
        || not (is_same node (BTreeMap.get transport m.node_by_transport)))) [
          | inl fresh ↦ rw (fresh, register_verified_peer) (emit-FailsBy is_open _ _)
          | inr same ↦ rw (same, register_verified_peer) tt
        ]

  pub unregister_transport_peer-FailsBy :
      (is_open : Bool) (m : NetworkManager) (transport : Bytes)
      → FailsBy (EventsGone is_open) (unregister_transport_peer is_open m transport)
  unfolding unregister_transport_peer
  unregister_transport_peer-FailsBy is_open m transport =
      elim (Option-cases (BTreeMap.get transport m.node_by_transport)) [
        | inl e ↦ rw (e, unregister_transport_peer) tt
        | inr (node, e) ↦ rw (e, unregister_transport_peer) (emit-FailsBy is_open _ _)
      ]

  pub handle_gossipsub_event-FailsBy :
      (is_open : Bool) (m : NetworkManager) (event : GossipsubEvent)
      → FailsBy (EventsGone is_open) (handle_gossipsub_event is_open m event)
  unfolding handle_gossipsub_event
  handle_gossipsub_event-FailsBy is_open m gossip_other = tt
  handle_gossipsub_event-FailsBy is_open m (gossip_message source frame) =
      elim (Option-cases (BTreeMap.get source m.node_by_transport)) [
        | inl e ↦ rw (e, handle_gossipsub_event) tt
        | inr (node, e) ↦ rw (e, handle_gossipsub_event) (emit-FailsBy is_open _ _)
      ]

module _ ⦃c : Crypto⦄ ⦃s : Signing⦄ ⦃l : Libp2p⦄ where
  with_local_node_hello-FailsBy :
      (Reason : RuntimeError → Type 0) (m : NetworkManager) (peer : Bytes)
      (rest : NodeHello → Handled)
      → ((hello : NodeHello) → FailsBy Reason (rest hello))
      → FailsBy Reason (with_local_node_hello m peer rest)
  unfolding with_local_node_hello
  with_local_node_hello-FailsBy Reason m peer rest step =
      let local =
        build_local_node_hello m.node_identity m.transport_peer_id m.max_frame_len
          m.max_blocks_per_chunk in
      elim (Outcome-cases local) [
        | inl (hello, e) ↦ rw (e, with_local_node_hello) (step hello)
        | inr (inl (why, e)) ↦ rw (e, with_local_node_hello) tt
        | inr (inr e) ↦ absurd (build_local_node_hello-returns _ _ _ _ e)
      ]

  pub handle_identify_event-FailsBy :
      (is_open : Bool) (m : NetworkManager) (event : IdentifyEvent)
      → FailsBy (EventsGone is_open) (handle_identify_event m event)
  unfolding handle_identify_event
  handle_identify_event-FailsBy is_open m (identify_received peer addresses agent) =
      after-FailsBy (EventsGone is_open) (ok (identified m peer agent, _)) _ tt (λ m1 sent e.
        elim (Bool-cases
          (contains_key peer m.pending_node_hello && not (contains_key peer m.node_by_transport))) [
            | inr known ↦ rw known tt
            | inl waits ↦
                rw waits
                  (with_local_node_hello-FailsBy (EventsGone is_open) m1 peer _ (λ hello. tt))
          ])
  handle_identify_event-FailsBy is_open m identify_error = tt
  handle_identify_event-FailsBy is_open m identify_other = tt

  pub handle_node_hello_event-FailsBy :
      (is_open : Bool) (m : NetworkManager)
      (event : RequestResponseEvent NodeHello NodeHelloResponse)
      → FailsBy (EventsGone is_open) (handle_node_hello_event is_open m event)
  unfolding handle_node_hello_event
  handle_node_hello_event-FailsBy is_open m (request_message peer request channel) =
      elim (Outcome-cases (verify_hello request peer)) [
        | inr (inr e) ↦ absurd (verify_hello-returns request peer e)
        | inr (inl (why, e)) ↦
            rw (e, handle_node_hello_event)
              (with_local_node_hello-FailsBy (EventsGone is_open) m peer _ (λ remote. tt))
        | inl (verified, e) ↦
            rw (e, handle_node_hello_event)
              (with_local_node_hello-FailsBy (EventsGone is_open) m peer _ (λ remote.
                elim (Bool-cases (l.delivers m.swarm channel)) [
                  | inr lost ↦ rw lost tt
                  | inl reached ↦ rw reached (
                      after-FailsBy (EventsGone is_open) (ok (m, _)) _ tt
                        (λ m1 sent q. register_verified_peer-FailsBy is_open m1 peer verified))
                ]))
      ]
  handle_node_hello_event-FailsBy is_open m (response_message peer id response) =
      elim (Bool-cases response.accepted) [
        | inr refused ↦ rw (refused, handle_node_hello_event) tt
        | inl accepted ↦ elim (Outcome-cases (verify_hello response.remote peer)) [
          | inl (verified, e) ↦
              rw (accepted, e, handle_node_hello_event)
                (register_verified_peer-FailsBy is_open m peer verified)
          | inr (inl (why, e)) ↦ rw (accepted, e, handle_node_hello_event) tt
          | inr (inr e) ↦ absurd (verify_hello-returns response.remote peer e)
        ]
      ]
  handle_node_hello_event-FailsBy is_open m (outbound_failure _ _) = tt
  handle_node_hello_event-FailsBy is_open m (inbound_failure _) = tt
  handle_node_hello_event-FailsBy is_open m (response_sent _) = tt
