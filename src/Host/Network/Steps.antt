-- ===== src/Host/Network/Steps.antt =====
-- rp-runtime/src/network/manager.rs: what each handler does to the sessions of node peers.
use rust_proof.Base.{
  ◌≡◌, refl, inl, inr, Bool, true, false, not, ◌&&◌, some, List, [], ◌∷◌, Bytes, ℕ, Bool-cases,
  Option-cases,
}
use rust_proof.BTreeMap
use rust_proof.BTreeMap.{BTreeMap, contains_key}
use rust_proof.Core.Crypto.{Crypto}
use rust_proof.Node.Network.{SyncRequest, SyncResponse}
use rust_proof.Host.Hello.{Signing}
use rust_proof.Host.Contract.{RuntimeEvent, frame_received}
use rust_proof.Host.Network.{
  Libp2p, NetworkManager, event_sent, send_sync_request, send_sync_response, answer_first,
}
use rust_proof.Host.Network.Events.{
  GossipsubEvent, gossip_message, gossip_other, emit, on_connection_established, handle_ping_event,
  handle_gossipsub_event,
}
use rust_proof.Host.Network.Session.{knows, IsConsistent, IsInSession, KeepsSessions, note}
use rust_proof.Host.Network.Bindings.{AllKnown-insert}

module _ ⦃c : Crypto⦄ ⦃s : Signing⦄ ⦃l : Libp2p⦄ where
  pub unmoved :
      (m m' : NetworkManager) (view : List Bytes)
      → m'.peer_by_node ≡ m.peer_by_node
      → m'.node_by_transport ≡ m.node_by_transport
      → m'.outbound_sync_requests ≡ m.outbound_sync_requests
      → IsConsistent m view
      → IsConsistent m' view
  unmoved m m' view nodes transports requests i = record {
    paired = rw (nodes, transports) i.paired;
    vouched = rw transports i.vouched;
    in_session = rw nodes i.in_session;
    requested = rw requests i.requested;
  }

  pub emit-KeepsSessions :
      (is_open : Bool) (event : RuntimeEvent) (m : NetworkManager) (view : List Bytes)
      → IsInSession view (event_sent event)
      → IsConsistent m (note view (event_sent event))
      → KeepsSessions view (emit is_open event m)
  emit-KeepsSessions true event m view h i = (i, (h, tt))
  emit-KeepsSessions false event m view h i = tt

  -- A node peer that is on a transport peer is in session.
  pub of_transport :
      (m : NetworkManager) (view : List Bytes) (transport peer : Bytes)
      → IsConsistent m view
      → BTreeMap.get transport m.node_by_transport ≡ some peer
      → knows view peer ≡ true
  of_transport m view transport peer i e =
      i.in_session peer transport (i.paired.back transport peer e)

  pub on_connection_established-KeepsSessions :
      (m : NetworkManager) (view : List Bytes) (peer : Bytes) (is_dialer : Bool) (address : Bytes)
      → IsConsistent m view
      → KeepsSessions view (on_connection_established m peer is_dialer address)
  unfolding on_connection_established
  on_connection_established-KeepsSessions m view peer is_dialer address i =
      elim (Bool-cases (is_dialer && not (contains_key peer m.node_by_transport))) [
        | inl new ↦
            rw (new, on_connection_established) (unmoved m _ view refl refl refl i, (tt, tt))
        | inr known ↦ rw (known, on_connection_established) (i, (tt, tt))
      ]

  pub handle_ping_event-KeepsSessions :
      (m : NetworkManager) (view : List Bytes) (peer : Bytes) (is_answered : Bool)
      → IsConsistent m view
      → KeepsSessions view (handle_ping_event m peer is_answered)
  unfolding handle_ping_event
  handle_ping_event-KeepsSessions m view peer true i = (i, tt)
  handle_ping_event-KeepsSessions m view peer false i = (i, (tt, tt))

  pub handle_gossipsub_event-KeepsSessions :
      (is_open : Bool) (m : NetworkManager) (view : List Bytes) (event : GossipsubEvent)
      → IsConsistent m view
      → KeepsSessions view (handle_gossipsub_event is_open m event)
  unfolding handle_gossipsub_event
  handle_gossipsub_event-KeepsSessions is_open m view gossip_other i = (i, tt)
  handle_gossipsub_event-KeepsSessions is_open m view (gossip_message source frame) i =
      elim (Option-cases (BTreeMap.get source m.node_by_transport)) [
        | inl e ↦ rw (e, handle_gossipsub_event) (i, tt)
        | inr (peer, e) ↦
            rw (e, handle_gossipsub_event)
              (emit-KeepsSessions is_open (frame_received peer frame) m view
                (of_transport m view source peer i e) i)
      ]

  pub send_sync_request-KeepsSessions :
      (m : NetworkManager) (view : List Bytes) (peer : Bytes) (request : SyncRequest)
      → IsConsistent m view
      → KeepsSessions view (send_sync_request m peer request)
  unfolding send_sync_request
  send_sync_request-KeepsSessions m view peer request i =
      elim (Option-cases (BTreeMap.get peer m.peer_by_node)) [
        | inl e ↦ rw (e, send_sync_request) (i, tt)
        | inr (transport, e) ↦
            rw (e, send_sync_request)
              (
                record {
                  paired = i.paired;
                  vouched = i.vouched;
                  in_session = i.in_session;
                  requested =
                      AllKnown-insert view _ peer m.outbound_sync_requests
                        (i.in_session peer transport e) i.requested;
                },
                (tt, tt),
              )
      ]

  answer_first-KeepsSessions :
      (m : NetworkManager) (view : List Bytes) (peer : Bytes) (queue : List ℕ)
      (response : SyncResponse)
      → IsConsistent m view
      → KeepsSessions view (answer_first m peer queue response)
  answer_first-KeepsSessions m view peer [] response i = (i, tt)
  answer_first-KeepsSessions m view peer (channel ∷ channels) response i =
      elim (Bool-cases (l.delivers m.swarm channel)) [
        | inl reached ↦ rw reached (unmoved m _ view refl refl refl i, (tt, tt))
        | inr lost ↦ rw lost tt
      ]

  pub send_sync_response-KeepsSessions :
      (m : NetworkManager) (view : List Bytes) (peer : Bytes) (response : SyncResponse)
      → IsConsistent m view
      → KeepsSessions view (send_sync_response m peer response)
  unfolding send_sync_response
  send_sync_response-KeepsSessions m view peer response i =
      elim (Option-cases (BTreeMap.get peer m.pending_sync_responses)) [
        | inl e ↦ rw (e, send_sync_response) (i, tt)
        | inr (queue, e) ↦
            rw (e, send_sync_response) (answer_first-KeepsSessions m view peer queue response i)
      ]
