-- ===== src/Host/Network/Protocols.antt =====
-- rp-runtime/src/network/manager.rs: what the commands, and the events of the three protocols, do to
-- the sessions of node peers.
use rust_proof.Base.{
  refl, ◌≡◌, true, inl, inr, Bool, Option, none, some, List, [], ◌∷◌, Bytes, ℕ, if◌then◌else◌, ok,
  Bool-cases, Option-cases, Outcome-cases,
}
use rust_proof.BTreeMap
use rust_proof.BTreeMap.{BTreeMap, contains_key}
use rust_proof.Core.Crypto.{Crypto}
use rust_proof.Node.Network.{
  Postcard, NetworkMessage, SyncRequest, SyncResponse, AnnounceRequest, AnnounceResponse,
  announce_request, announce_response, sync_request, sync_response, from_bytes, to_bytes,
}
use rust_proof.Host.Errors.{RuntimeError}
use rust_proof.Host.Hello.{Signing}
use rust_proof.Host.Contract.{
  frame_received, NetworkCommand, send_frame, broadcast_frame, disconnect_peer, request_blocks,
}
use rust_proof.Host.Network.{
  Libp2p, NetworkManager, NetworkEffect, send_frame_to, send_message, send_to_each, is_on_host,
  keys, published, handle_command,
}
use rust_proof.Host.Network.Events.{
  RequestResponseEvent, request_message, response_message, outbound_failure, inbound_failure,
  response_sent,
}
use rust_proof.Host.Network.Handlers.{
  respond, without_request, emit_message, handle_sync_event, handle_announce_event,
}
use rust_proof.Host.Network.Session.{
  IsConsistent, KeepsSessions, knows, note_all, after-KeepsSessions, consistent_after,
}
use rust_proof.Host.Network.Bindings.{AllKnown-remove, AllKnown-get}
use rust_proof.Host.Network.Steps.{
  unmoved, emit-KeepsSessions, of_transport, send_sync_request-KeepsSessions,
  send_sync_response-KeepsSessions,
}

module _ ⦃c : Crypto⦄ ⦃s : Signing⦄ ⦃p : Postcard⦄ ⦃l : Libp2p⦄ where
  respond-KeepsSessions :
      (channel : ℕ) (answer : NetworkEffect) (why : RuntimeError) (m : NetworkManager)
      (view : List Bytes)
      → KeepsSessions view (ok (m, answer ∷ []))
      → KeepsSessions view (respond channel answer why m)
  respond-KeepsSessions channel answer why m view k =
      elim (Bool-cases (l.delivers m.swarm channel)) [
        | inl reached ↦ rw reached k
        | inr lost ↦ rw lost tt
      ]

  without_request-IsConsistent :
      (m : NetworkManager) (view : List Bytes) (request_id : Bytes)
      → IsConsistent m view
      → IsConsistent (without_request m request_id) view
  without_request-IsConsistent m view request_id i = record {
    paired = i.paired;
    vouched = i.vouched;
    in_session = i.in_session;
    requested = AllKnown-remove view request_id m.outbound_sync_requests i.requested;
  }

  emit_message-KeepsSessions :
      (is_open : Bool) (node : Bytes) (message : NetworkMessage) (m : NetworkManager)
      (view : List Bytes)
      → knows view node ≡ true
      → IsConsistent m view
      → KeepsSessions view (emit_message is_open node message m)
  unfolding emit_message
  emit_message-KeepsSessions is_open node message m view known i =
      elim (Outcome-cases (to_bytes {E = RuntimeError} message)) [
        | inl (frame, e) ↦
            rw (e, emit_message)
              (emit-KeepsSessions is_open (frame_received node frame) m view known i)
        | inr (inl (why, e)) ↦ rw (e, emit_message) tt
        | inr (inr e) ↦ rw (e, emit_message) tt
      ]

  pub handle_sync_event-KeepsSessions :
      (is_open : Bool) (m : NetworkManager) (view : List Bytes)
      (event : RequestResponseEvent SyncRequest SyncResponse)
      → IsConsistent m view
      → KeepsSessions view (handle_sync_event is_open m event)
  unfolding handle_sync_event
  handle_sync_event-KeepsSessions is_open m view (request_message peer request channel) i =
      elim (Option-cases (BTreeMap.get peer m.node_by_transport)) [
        | inl e ↦ rw (e, handle_sync_event) (respond-KeepsSessions channel _ _ m view (i, (tt, tt)))
        | inr (node, e) ↦
            rw (e, handle_sync_event)
              (emit_message-KeepsSessions is_open node _ _ view (of_transport m view peer node i e)
                (unmoved m _ view refl refl refl i))
      ]
  handle_sync_event-KeepsSessions is_open m view (response_message peer request_id response) i =
      elim (Option-cases (BTreeMap.get request_id m.outbound_sync_requests)) [
        | inl e ↦ rw (e, handle_sync_event) (i, tt)
        | inr (node, e) ↦
            rw (e, handle_sync_event)
              (emit_message-KeepsSessions is_open node _ _ view
                (AllKnown-get view request_id node m.outbound_sync_requests i.requested e)
                (without_request-IsConsistent m view request_id i))
      ]
  handle_sync_event-KeepsSessions is_open m view (outbound_failure peer request_id) i =
      (without_request-IsConsistent m view request_id i, tt)
  handle_sync_event-KeepsSessions is_open m view (inbound_failure _) i = (i, tt)
  handle_sync_event-KeepsSessions is_open m view (response_sent _) i = (i, tt)

  pub handle_announce_event-KeepsSessions :
      (is_open : Bool) (m : NetworkManager) (view : List Bytes)
      (event : RequestResponseEvent AnnounceRequest AnnounceResponse)
      → IsConsistent m view
      → KeepsSessions view (handle_announce_event is_open m event)
  unfolding handle_announce_event
  handle_announce_event-KeepsSessions is_open m view (request_message peer request channel) i =
      elim (Option-cases (BTreeMap.get peer m.node_by_transport)) [
        | inl e ↦
            rw (e, handle_announce_event) (respond-KeepsSessions channel _ _ m view (i, (tt, tt)))
        | inr (node, e) ↦
            rw (e, handle_announce_event)
              (after-KeepsSessions view _ _
                (emit_message-KeepsSessions is_open node (announce_request request) m view
                  (of_transport m view peer node i e) i)
                (λ m1 sent q. respond-KeepsSessions channel _ _ m1 (note_all view sent) (
                  consistent_after view (emit_message is_open node (announce_request request) m) m1
                      sent
                      (emit_message-KeepsSessions is_open node (announce_request request) m view
                        (of_transport m view peer node i e) i)
                      q,
                  (tt, tt),
                )))
      ]
  handle_announce_event-KeepsSessions is_open m view (response_message peer request_id response) i =
      elim (Option-cases (BTreeMap.get peer m.node_by_transport)) [
        | inl e ↦ rw (e, handle_announce_event) (i, tt)
        | inr (node, e) ↦
            rw (e, handle_announce_event)
              (emit_message-KeepsSessions is_open node _ m view (of_transport m view peer node i e)
                i)
      ]
  handle_announce_event-KeepsSessions is_open m view (outbound_failure _ _) i = (i, tt)
  handle_announce_event-KeepsSessions is_open m view (inbound_failure _) i = (i, tt)
  handle_announce_event-KeepsSessions is_open m view (response_sent _) i = (i, tt)

  send_message-KeepsSessions :
      (m : NetworkManager) (view : List Bytes) (peer transport : Bytes) (message : NetworkMessage)
      → IsConsistent m view
      → KeepsSessions view (send_message m peer transport message)
  send_message-KeepsSessions m view peer transport (announce_request request) i = (i, (tt, tt))
  send_message-KeepsSessions m view peer transport (sync_request request) i =
      send_sync_request-KeepsSessions m view peer request i
  send_message-KeepsSessions m view peer transport (sync_response response) i =
      send_sync_response-KeepsSessions m view peer response i
  send_message-KeepsSessions m view peer transport (announce_response response) i = (i, tt)

  send_frame_to-KeepsSessions :
      (m : NetworkManager) (view : List Bytes) (peer frame : Bytes)
      → IsConsistent m view
      → KeepsSessions view (send_frame_to m peer frame)
  unfolding send_frame_to
  send_frame_to-KeepsSessions m view peer frame i =
      elim (Option-cases (BTreeMap.get peer m.peer_by_node)) [
        | inl e ↦ rw (e, send_frame_to) (i, tt)
        | inr (transport, e) ↦ elim (Option-cases (from_bytes frame)) [
          | inl unread ↦ rw (e, unread, send_frame_to) tt
          | inr (message, read) ↦
              rw (e, read, send_frame_to)
                (send_message-KeepsSessions m view peer transport message i)
        ]
      ]

  send_to_each-KeepsSessions :
      (peers : List Bytes) (m : NetworkManager) (view : List Bytes) (frame : Bytes)
      → IsConsistent m view
      → KeepsSessions view (send_to_each m frame peers)
  unfolding send_to_each
  send_to_each-KeepsSessions [] m view frame i = (i, tt)
  send_to_each-KeepsSessions (peer ∷ peers) m view frame i =
      let first : KeepsSessions view
          (if is_on_host m peer then ok (m, []) else send_frame_to m peer frame) =
        elim (Bool-cases (is_on_host m peer)) [
          | inl host ↦ rw host (i, tt)
          | inr other ↦ rw other (send_frame_to-KeepsSessions m view peer frame i)
        ] in
      after-KeepsSessions view _ _ first (λ m1 sent e.
        send_to_each-KeepsSessions peers m1 (note_all view sent) frame
          (consistent_after view _ m1 sent first e))

  published-KeepsSessions :
      (m : NetworkManager) (view : List Bytes) (frame : Bytes) (read : Option NetworkMessage)
      → IsConsistent m view
      → KeepsSessions view (ok (m, published frame read))
  published-KeepsSessions m view frame none i = (i, tt)
  published-KeepsSessions m view frame (some (announce_request request)) i = (i, (tt, tt))
  published-KeepsSessions m view frame (some (sync_request request)) i = (i, tt)
  published-KeepsSessions m view frame (some (sync_response response)) i = (i, tt)
  published-KeepsSessions m view frame (some (announce_response response)) i = (i, tt)

  pub handle_command-KeepsSessions :
      (m : NetworkManager) (view : List Bytes) (command : NetworkCommand)
      → IsConsistent m view
      → KeepsSessions view (handle_command m command)
  unfolding handle_command
  handle_command-KeepsSessions m view (send_frame peer frame) i =
      send_frame_to-KeepsSessions m view peer frame i
  handle_command-KeepsSessions m view (broadcast_frame frame) i =
      let first = published-KeepsSessions m view frame (from_bytes frame) i in
      after-KeepsSessions view _ _ first (λ m1 sent e.
        send_to_each-KeepsSessions (keys m1.peer_by_node) m1 (note_all view sent) frame
          (consistent_after view _ m1 sent first e))
  handle_command-KeepsSessions m view (disconnect_peer peer) i =
      elim (Option-cases (BTreeMap.get peer m.peer_by_node)) [
        | inl e ↦ rw (e, handle_command) (i, tt)
        | inr (transport, e) ↦ rw (e, handle_command) (i, (tt, tt))
      ]
  handle_command-KeepsSessions m view (request_blocks peer from_height to_height) i =
      send_sync_request-KeepsSessions m view peer _ i
