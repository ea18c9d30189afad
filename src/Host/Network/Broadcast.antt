-- ===== src/Host/Network/Broadcast.antt =====
-- rp-runtime/src/network/manager.rs: a frame that is broadcast.
use rust_proof.Base.{
  ◌≡◌, refl, inl, inr, some, List, [], ◌∷◌, Bytes, arith, cmp_bytes_refl, cmp_bytes-swap,
  if◌then◌else◌, ok, All, Bool-cases,
}
use rust_proof.BTreeMap
use rust_proof.BTreeMap.{BTreeMap, IsSorted, Above, contains_key}
use rust_proof.BTreeMap.Laws.{Above-trans}
use rust_proof.Core.Crypto.{Crypto}
use rust_proof.Node.Network.{Postcard, AnnounceRequest, announce_request, from_bytes}
use rust_proof.Host.Contract.{broadcast_frame}
use rust_proof.Host.Network.{
  Libp2p, NetworkManager, NetworkEffect, PeerSet, after, publish_announce, announce_request_sent,
  is_on_host, send_frame_to, send_to_each, keys, handle_command,
}

-- The entry is found under its key.
abbrev IsFoundIn : BTreeMap Bytes → Bytes × Bytes → Type 0
IsFoundIn entries (k, v) = BTreeMap.get k entries ≡ some v

found_behind :
    (j w : Bytes) (rest entries : BTreeMap Bytes)
    → Above j entries
    → IsSorted entries
    → All (IsFoundIn rest) entries
    → All (IsFoundIn ((j, w) ∷ rest)) entries
unfolding BTreeMap.get
found_behind j w rest [] a s h = tt
found_behind j w rest ((k, v) ∷ entries) a s h = (
  ground (arith, h.0, a, cmp_bytes-swap j k),
  found_behind j w rest entries (Above-trans j k entries a s.0) s.1 h.1,
)

-- Every entry of a map is found under its key.
all_found : (entries : BTreeMap Bytes) → IsSorted entries → All (IsFoundIn entries) entries
unfolding BTreeMap.get
all_found [] s = tt
all_found ((j, w) ∷ entries) s = (
  ground (arith, cmp_bytes_refl j),
  found_behind j w entries entries s.0 s.1 (all_found entries s.1),
)

module _ ⦃c : Crypto⦄ where
  -- An announcement to every node peer that is not on another host.
  abbrev pub announcements : AnnounceRequest → PeerSet → BTreeMap Bytes → List NetworkEffect
  announcements request hosts [] = []
  announcements request hosts ((peer, transport) ∷ entries) =
      let rest = announcements request hosts entries in
      if contains_key transport hosts then rest else announce_request_sent transport request ∷ rest

module _ ⦃c : Crypto⦄ ⦃p : Postcard⦄ ⦃l : Libp2p⦄ where
  is_on_host_found :
      (m : NetworkManager) (peer transport : Bytes)
      → BTreeMap.get peer m.peer_by_node ≡ some transport
      → is_on_host m peer ≡ contains_key transport m.host_transport_peers
  unfolding is_on_host
  is_on_host_found m peer transport e = rw (e, is_on_host) refl

  send_frame_to_found :
      (m : NetworkManager) (peer transport frame : Bytes) (request : AnnounceRequest)
      → BTreeMap.get peer m.peer_by_node ≡ some transport
      → from_bytes frame ≡ some (announce_request request)
      → send_frame_to m peer frame ≡ ok (m, announce_request_sent transport request ∷ [])
  unfolding send_frame_to
  send_frame_to_found m peer transport frame request e read = rw (e, read, send_frame_to) refl

  send_to_each-announcements :
      (m : NetworkManager) (frame : Bytes) (request : AnnounceRequest) (entries : BTreeMap Bytes)
      → from_bytes frame ≡ some (announce_request request)
      → All (IsFoundIn m.peer_by_node) entries
      → send_to_each m frame (keys entries)
        ≡ ok (m, announcements request m.host_transport_peers entries)
  unfolding send_to_each after
  send_to_each-announcements m frame request [] read found = refl
  send_to_each-announcements m frame request ((peer, transport) ∷ entries) read found =
      let rest = send_to_each-announcements m frame request entries read found.1 in
      elim (Bool-cases (contains_key transport m.host_transport_peers)) [
        | inl host ↦ rw (is_on_host_found m peer transport found.0, host, rest) refl
        | inr other ↦
            rw
              (
                is_on_host_found m peer transport found.0,
                other,
                send_frame_to_found m peer transport frame request found.0 read,
                rest,
              )
              refl
      ]

  -- A frame that reads as an announcement, broadcast by a manager whose node peers are in order, is
  -- published once, and then sent once to each node peer that is not on the transport peer of
  -- another host. The manager is left as it was.
  pub handle_command-announcements :
      (m : NetworkManager) (frame : Bytes) (request : AnnounceRequest)
      → from_bytes frame ≡ some (announce_request request)
      → IsSorted m.peer_by_node
      → handle_command m (broadcast_frame frame)
        ≡ ok (
          m,
          publish_announce frame ∷ announcements request m.host_transport_peers m.peer_by_node,
        )
  unfolding handle_command after
  handle_command-announcements m frame request read s =
      rw
        (
          read,
          send_to_each-announcements m frame request m.peer_by_node read
              (all_found m.peer_by_node s),
        )
        refl
