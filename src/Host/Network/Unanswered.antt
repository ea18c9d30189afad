-- ===== src/Host/Network/Unanswered.antt =====
-- rp-runtime/src/network/manager.rs: requests that cannot be answered, and what `handle_swarm_event`
-- fails by.
use rust_proof.Base.{
  ◌≡◌, refl, sym, subst, inl, inr, ◌⊎◌, Bool, true, false, none, List, Bytes, ℕ, arith, ok, err,
  panic, ◌↔◌, >>=-eq-ok, Bool-cases, Option-cases,
}
use rust_proof.BTreeMap
use rust_proof.BTreeMap.{BTreeMap, contains_key}
use rust_proof.Core.Crypto.{Crypto}
use rust_proof.Node.Network.{
  Postcard, NetworkMessage, SyncRequest, SyncResponse, AnnounceRequest, AnnounceResponse,
  announce_request, to_bytes, AlwaysEncodes, to_bytes-returns,
}
use rust_proof.Host.Errors.{
  RuntimeError, io_other, fallback_sync_response_failed, announce_response_failed,
}
use rust_proof.Host.Hello.{Signing}
use rust_proof.Host.Contract.{RuntimeEvent, frame_received}
use rust_proof.Host.Network.{Libp2p, NetworkManager, NetworkEffect, Handled, after}
use rust_proof.Host.Network.Events.{
  RequestResponseEvent, request_message, response_message, outbound_failure, inbound_failure,
  response_sent, SwarmEvent, new_listen_addr, incoming_connection, incoming_connection_error,
  connection_established, connection_closed, outgoing_connection_error, identify_event, ping_event,
  gossipsub_event, kademlia_event, node_hello_event, sync_event, announce_event, other_event, emit,
  on_connection_established, handle_ping_event,
}
use rust_proof.Host.Network.Handlers.{
  handle_sync_event, announce_answer, emit_message, handle_announce_event, handle_swarm_event,
}
use rust_proof.Host.Network.Failures.{
  FailsBy, after-FailsBy, EventsGone, emit-FailsBy, unregister_transport_peer-FailsBy,
  handle_gossipsub_event-FailsBy, handle_identify_event-FailsBy, handle_node_hello_event-FailsBy,
}

module _ ⦃c : Crypto⦄ ⦃s : Signing⦄ ⦃p : Postcard⦄ ⦃l : Libp2p⦄ where
  -- A request for blocks of a transport peer without a node peer, or an announcement, has come on a
  -- channel that no answer can be given on any more.
  pub data IsUnanswered (m : NetworkManager) : SwarmEvent → RuntimeError → Type 0 where
    unanswered_sync :
        {peer : Bytes} {request : SyncRequest} {channel : ℕ}
        → BTreeMap.get peer m.node_by_transport ≡ none
        → l.delivers m.swarm channel ≡ false
        → IsUnanswered m
            (sync_event (request_message peer request channel))
            (io_other fallback_sync_response_failed)
    unanswered_announce :
        {peer : Bytes} {request : AnnounceRequest} {channel : ℕ}
        → l.delivers m.swarm channel ≡ false
        → IsUnanswered m
            (announce_event (request_message peer request channel))
            (io_other announce_response_failed)

  abbrev pub Cause : Bool → NetworkManager → SwarmEvent → RuntimeError → Type 0
  Cause is_open m event why = EventsGone is_open why ⊎ IsUnanswered m event why

  wider :
      (is_open : Bool) (m : NetworkManager) (event : SwarmEvent) (handled : Handled)
      → FailsBy (EventsGone is_open) handled
      → FailsBy (Cause is_open m event) handled
  wider is_open m event (ok done) k = tt
  wider is_open m event (err why) k = inl k
  wider is_open m event panic k = k

  -- A failing handler, by its equation.
  fails_with :
      (Reason : RuntimeError → Type 0) (handled : Handled) (why : RuntimeError)
      → handled ≡ err why
      → Reason why
      → FailsBy Reason handled
  fails_with Reason handled why e reason = rw e reason

  emit_message-FailsBy :
      (is_open : Bool) (node : Bytes) (message : NetworkMessage) (m : NetworkManager)
      → AlwaysEncodes
      → FailsBy (EventsGone is_open) (emit_message is_open node message m)
  unfolding emit_message
  emit_message-FailsBy is_open node message m encodes =
      let (frame, e) = to_bytes-returns {E = RuntimeError} message encodes in
      rw (e, emit_message) (emit-FailsBy is_open (frame_received node frame) m)

  sync_unanswered :
      (is_open : Bool) (m : NetworkManager) (peer : Bytes) (request : SyncRequest) (channel : ℕ)
      → BTreeMap.get peer m.node_by_transport ≡ none
      → l.delivers m.swarm channel ≡ false
      → handle_sync_event is_open m (request_message peer request channel)
        ≡ err (io_other fallback_sync_response_failed)
  unfolding handle_sync_event
  sync_unanswered is_open m peer request channel e lost = rw (e, lost, handle_sync_event) refl

  handle_sync_event-FailsBy :
      (is_open : Bool) (m : NetworkManager) (event : RequestResponseEvent SyncRequest SyncResponse)
      → AlwaysEncodes
      → FailsBy (Cause is_open m (sync_event event)) (handle_sync_event is_open m event)
  unfolding handle_sync_event
  handle_sync_event-FailsBy is_open m (request_message peer request channel) encodes =
      elim (Option-cases (BTreeMap.get peer m.node_by_transport)) [
        | inr (node, e) ↦
            rw (e, handle_sync_event)
              (wider is_open m (sync_event (request_message peer request channel)) _
                (emit_message-FailsBy is_open _ _ _ encodes))
        | inl e ↦ elim (Bool-cases (l.delivers m.swarm channel)) [
          | inl reached ↦ rw (e, reached, handle_sync_event) tt
          | inr lost ↦
              fails_with (Cause is_open m (sync_event (request_message peer request channel))) _ _
                (sync_unanswered is_open m peer request channel e lost)
                (inr (unanswered_sync e lost))
        ]
      ]
  handle_sync_event-FailsBy is_open m (response_message peer request_id response) encodes =
      elim (Option-cases (BTreeMap.get request_id m.outbound_sync_requests)) [
        | inl e ↦ rw (e, handle_sync_event) tt
        | inr (node, e) ↦
            rw (e, handle_sync_event)
              (wider is_open m (sync_event (response_message peer request_id response)) _
                (emit_message-FailsBy is_open _ _ _ encodes))
      ]
  handle_sync_event-FailsBy is_open m (outbound_failure _ _) encodes = tt
  handle_sync_event-FailsBy is_open m (inbound_failure _) encodes = tt
  handle_sync_event-FailsBy is_open m (response_sent _) encodes = tt

  -- What an announcement is answered with.
  announce_answer-FailsBy :
      (is_open : Bool) (m : NetworkManager) (peer : Bytes) (request : AnnounceRequest) (channel : ℕ)
      (accepted : Bool)
      → FailsBy
          (Cause is_open m (announce_event (request_message peer request channel)))
          (announce_answer channel accepted m)
  announce_answer-FailsBy is_open m peer request channel accepted =
      elim (Bool-cases (l.delivers m.swarm channel)) [
        | inl reached ↦ rw reached tt
        | inr lost ↦
            fails_with (Cause is_open m (announce_event (request_message peer request channel))) _ _
              (rw lost refl) (inr (unanswered_announce lost))
      ]

  emit_same :
      (is_open : Bool) (event : RuntimeEvent) (m m' : NetworkManager) (effects : List NetworkEffect)
      → emit is_open event m ≡ ok (m', effects)
      → m' ≡ m
  emit_same true event m m' effects h = ground (arith, h)
  emit_same false event m m' effects h = absurd (ground (arith, h))

  emit_message_same :
      (is_open : Bool) (node : Bytes) (message : NetworkMessage) (m m' : NetworkManager)
      (effects : List NetworkEffect)
      → emit_message is_open node message m ≡ ok (m', effects)
      → m' ≡ m
  unfolding emit_message
  emit_message_same is_open node message m m' effects h =
      let (frame, e, go) = >>=-eq-ok (to_bytes message) _ h in
      emit_same is_open (frame_received node frame) m m' effects go

  handle_announce_event-FailsBy :
      (is_open : Bool) (m : NetworkManager)
      (event : RequestResponseEvent AnnounceRequest AnnounceResponse)
      → AlwaysEncodes
      → FailsBy (Cause is_open m (announce_event event)) (handle_announce_event is_open m event)
  unfolding handle_announce_event
  handle_announce_event-FailsBy is_open m (request_message peer request channel) encodes =
      let whole = announce_event (request_message peer request channel) in
      elim (Option-cases (BTreeMap.get peer m.node_by_transport)) [
        | inl e ↦
            rw (e, handle_announce_event)
              (announce_answer-FailsBy is_open m peer request channel false)
        | inr (node, e) ↦
            rw (e, handle_announce_event)
              (after-FailsBy (Cause is_open m whole) _ _
                (wider is_open m whole _ (emit_message-FailsBy is_open node _ m encodes))
                (λ m1 sent q.
                  subst (λ x. FailsBy (Cause is_open m whole) (announce_answer channel true x))
                    (sym (emit_message_same is_open node _ m m1 sent q))
                    (announce_answer-FailsBy is_open m peer request channel true)))
      ]
  handle_announce_event-FailsBy is_open m (response_message peer request_id response) encodes =
      elim (Option-cases (BTreeMap.get peer m.node_by_transport)) [
        | inl e ↦ rw (e, handle_announce_event) tt
        | inr (node, e) ↦
            rw (e, handle_announce_event)
              (wider is_open m (announce_event (response_message peer request_id response)) _
                (emit_message-FailsBy is_open _ _ _ encodes))
      ]
  handle_announce_event-FailsBy is_open m (outbound_failure _ _) encodes = tt
  handle_announce_event-FailsBy is_open m (inbound_failure _) encodes = tt
  handle_announce_event-FailsBy is_open m (response_sent _) encodes = tt

  -- If all messages can be encoded, the handler does not panic, whatever the swarm reports. It fails only if it has an event to send
  -- and the receiver has gone, or if it cannot answer an announcement, or a request for blocks of a
  -- transport peer without a node peer.
  pub handle_swarm_event-FailsBy :
      (is_open : Bool) (m : NetworkManager) (event : SwarmEvent)
      → AlwaysEncodes
      → FailsBy (Cause is_open m event) (handle_swarm_event is_open m event)
  unfolding handle_swarm_event on_connection_established handle_ping_event
  handle_swarm_event-FailsBy is_open m new_listen_addr encodes = tt
  handle_swarm_event-FailsBy is_open m incoming_connection encodes = tt
  handle_swarm_event-FailsBy is_open m incoming_connection_error encodes = tt
  handle_swarm_event-FailsBy is_open m (connection_established peer dialer address) encodes = tt
  handle_swarm_event-FailsBy is_open m (connection_closed peer) encodes =
      wider is_open m (connection_closed peer) _ (unregister_transport_peer-FailsBy is_open m peer)
  handle_swarm_event-FailsBy is_open m outgoing_connection_error encodes = tt
  handle_swarm_event-FailsBy is_open m (identify_event event) encodes =
      wider is_open m (identify_event event) _ (handle_identify_event-FailsBy is_open m event)
  handle_swarm_event-FailsBy is_open m (ping_event peer true) encodes = tt
  handle_swarm_event-FailsBy is_open m (ping_event peer false) encodes = tt
  handle_swarm_event-FailsBy is_open m (gossipsub_event event) encodes =
      wider is_open m (gossipsub_event event) _ (handle_gossipsub_event-FailsBy is_open m event)
  handle_swarm_event-FailsBy is_open m kademlia_event encodes = tt
  handle_swarm_event-FailsBy is_open m (node_hello_event event) encodes =
      wider is_open m (node_hello_event event) _ (handle_node_hello_event-FailsBy is_open m event)
  handle_swarm_event-FailsBy is_open m (sync_event event) encodes =
      handle_sync_event-FailsBy is_open m event encodes
  handle_swarm_event-FailsBy is_open m (announce_event event) encodes =
      handle_announce_event-FailsBy is_open m event encodes
  handle_swarm_event-FailsBy is_open m other_event encodes = tt

  answers_fail :
      (m : NetworkManager) (event : SwarmEvent) (why : RuntimeError)
      → AlwaysEncodes
      → IsUnanswered m event why
      → handle_swarm_event true m event ≡ err why
  unfolding handle_swarm_event handle_announce_event after emit_message
  answers_fail m event why encodes (unanswered_sync {peer} {request} {channel} e lost) =
      sync_unanswered true m peer request channel e lost
  answers_fail m event why encodes (unanswered_announce {peer} {request} {channel} lost) =
      elim (Option-cases (BTreeMap.get peer m.node_by_transport)) [
        | inl e ↦ rw (e, lost, handle_announce_event) refl
        | inr (node, e) ↦
            let (frame, f) =
              to_bytes-returns {E = RuntimeError} (announce_request request) encodes in
            rw (e, f, lost, handle_announce_event, emit_message) refl
      ]

  -- If all messages can be encoded, then while its events are received `handle_swarm_event` fails
  -- exactly on an announcement, or on a request for blocks of a transport peer without a node peer,
  -- that has come on a channel that no answer can be given on, and with the error of that answer.
  pub handle_swarm_event-fails_iff :
      (m : NetworkManager) (event : SwarmEvent) (why : RuntimeError)
      → AlwaysEncodes
      → (handle_swarm_event true m event ≡ err why) ↔ IsUnanswered m event why
  handle_swarm_event-fails_iff m event why encodes = (
    λ h.
        let cause : Cause true m event why =
          subst (FailsBy (Cause true m event)) h
            (handle_swarm_event-FailsBy true m event encodes) in
        elim cause [ inl (_, gone) ↦ absurd cc | inr unanswered ↦ unanswered ],
    answers_fail m event why encodes,
  )
