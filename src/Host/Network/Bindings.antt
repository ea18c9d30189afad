-- ===== src/Host/Network/Bindings.antt =====
-- rp-runtime/src/network/manager.rs: a peer that is registered, and one that is unregistered.
use rust_proof.Base.{
  ◌≡◌, refl, sym, ap, inl, inr, Bool, true, not, ◌||◌, Option, none, some, List, [], ◌∷◌, Bytes,
  arith, eq_bytes, eq_bytes_iff, All, ok, Bool-cases, Option-cases,
}
use rust_proof.BTreeMap
use rust_proof.BTreeMap.{BTreeMap, contains_key}
use rust_proof.BTreeMap.Laws.{get-remove}
use rust_proof.BTreeSet.{retain}
use rust_proof.Core.Crypto.{Crypto}
use rust_proof.Host.Hello.{NodeHello, VerifiedPeer, Signing, verify_hello}
use rust_proof.Host.Network.{Libp2p, NetworkManager}
use rust_proof.Host.Network.Events.{
  bind, unbind, is_same, is_not_of, register_verified_peer, unregister_transport_peer,
}
use rust_proof.Host.Network.Pairs.{
  rebound-IsPaired, removed-IsPaired, get-rebound_before, get-rebound_same, get-remove_before,
}
use rust_proof.Host.Network.Session.{
  knows, forget, knows-forget, IsConsistent, IsVouched, KeepsSessions,
}

abbrev pub AllKnown : List Bytes → BTreeMap Bytes → Type 0
AllKnown view requests = All (λ (request : Bytes × Bytes). knows view request.1 ≡ true) requests

AllKnown-wider :
    (view view' : List Bytes)
    → ((q : Bytes) → knows view q ≡ true → knows view' q ≡ true)
    → (requests : BTreeMap Bytes) → AllKnown view requests
    → AllKnown view' requests
AllKnown-wider view view' wider [] h = tt
AllKnown-wider view view' wider (r ∷ rs) h = (wider r.1 h.0, AllKnown-wider view view' wider rs h.1)

AllKnown-retain :
    (view : List Bytes) (peer : Bytes) (requests : BTreeMap Bytes)
    → AllKnown view requests
    → AllKnown (forget peer view) (retain (is_not_of peer) requests)
unfolding retain
AllKnown-retain view peer [] h = tt
AllKnown-retain view peer (r ∷ rs) h =
    let rest = AllKnown-retain view peer rs h.1 in
    elim (Bool-cases (eq_bytes r.1 peer)) [
      | inl same ↦ rw (same, retain) rest
      | inr other ↦ rw (other, retain) (knows-forget view peer r.1 other h.0, rest)
    ]

pub AllKnown-remove :
    (view : List Bytes) (key : Bytes) (requests : BTreeMap Bytes)
    → AllKnown view requests
    → AllKnown view (BTreeMap.remove key requests)
unfolding BTreeMap.remove
AllKnown-remove view key [] h = tt
AllKnown-remove view key (r ∷ rs) h = ground (arith, h, AllKnown-remove view key rs h.1)

pub AllKnown-insert :
    (view : List Bytes) (key peer : Bytes) (requests : BTreeMap Bytes)
    → knows view peer ≡ true
    → AllKnown view requests
    → AllKnown view (BTreeMap.insert key peer requests)
unfolding BTreeMap.insert
AllKnown-insert view key peer [] k h = (k, tt)
AllKnown-insert view key peer (r ∷ rs) k h =
    ground (arith, h, AllKnown-insert view key peer rs k h.1)

pub AllKnown-get :
    (view : List Bytes) (key peer : Bytes) (requests : BTreeMap Bytes)
    → AllKnown view requests
    → BTreeMap.get key requests ≡ some peer
    → knows view peer ≡ true
unfolding BTreeMap.get
AllKnown-get view key peer [] h e = cc
AllKnown-get view key peer (r ∷ rs) h e = ground (arith, h, AllKnown-get view key peer rs h.1)

is_same_there : (x : Bytes) (found : Option Bytes) → is_same x found ≡ true → found ≡ some x
is_same_there x none h = cc
is_same_there x (some y) h = ap some ((eq_bytes_iff y x).0 h)

module _ ⦃c : Crypto⦄ ⦃s : Signing⦄ ⦃l : Libp2p⦄ where
  bind-IsConsistent :
      (m : NetworkManager) (view view' : List Bytes) (transport : Bytes) (verified : VerifiedPeer)
      → IsVouched transport verified.node_peer_id
      → knows view' verified.node_peer_id ≡ true
      → ((q : Bytes) → knows view q ≡ true → knows view' q ≡ true)
      → IsConsistent m view
      → IsConsistent (bind m transport verified) view'
  bind-IsConsistent m view view' transport verified voucher here wider i =
      let node = verified.node_peer_id in
      record {
        paired = rebound-IsPaired node transport m.peer_by_node m.node_by_transport i.paired;
        vouched = λ t q e. elim (Bool-cases (eq_bytes t transport)) [
          | inl same ↦
              let at_t : t ≡ transport = (eq_bytes_iff t transport).0 same in
              let renamed : node ≡ q =
                get-rebound_same transport node t q m.node_by_transport m.peer_by_node
                  i.paired.ys_ordered e same in
              rw (sym at_t, renamed) at voucher
          | inr other ↦ i.vouched t q (
              get-rebound_before transport node t q m.node_by_transport m.peer_by_node
                i.paired.ys_ordered e other)
        ];
        in_session = λ q t e. elim (Bool-cases (eq_bytes q node)) [
          | inl same ↦ rw (sym ((eq_bytes_iff q node).0 same)) at here
          | inr other ↦ wider q (
              i.in_session q t (
                get-rebound_before node transport q t m.peer_by_node m.node_by_transport
                  i.paired.xs_ordered e other))
        ];
        requested = AllKnown-wider view view' wider m.outbound_sync_requests i.requested;
      }

  unbind-IsConsistent :
      (m : NetworkManager) (view : List Bytes) (transport node : Bytes)
      → BTreeMap.get transport m.node_by_transport ≡ some node
      → IsConsistent m view
      → IsConsistent (unbind m transport node) (forget node view)
  unbind-IsConsistent m view transport node e i =
      let there = i.paired.back transport node e in
      record {
        paired = removed-IsPaired node transport m.peer_by_node m.node_by_transport i.paired there;
        vouched = λ t q h.
            i.vouched t q
              (get-remove_before transport t q m.node_by_transport i.paired.ys_ordered h);
        in_session = λ q t h.
            let at_q = get-remove node q m.peer_by_node i.paired.xs_ordered in
            elim (Bool-cases (eq_bytes q node)) [
              | inl same ↦ absurd (ground (arith, at_q, same, h))
              | inr other ↦
                  knows-forget view node q other (i.in_session q t (ground (arith, at_q, other, h)))
            ];
        requested = AllKnown-retain view node m.outbound_sync_requests i.requested;
      }

  pub register_verified_peer-KeepsSessions :
      (is_open : Bool) (m : NetworkManager) (view : List Bytes) (transport : Bytes)
      (hello : NodeHello) (verified : VerifiedPeer)
      → verify_hello hello transport ≡ ok verified
      → IsConsistent m view
      → KeepsSessions view (register_verified_peer is_open m transport verified)
  unfolding register_verified_peer
  register_verified_peer-KeepsSessions is_open m view transport hello verified accepted i =
      let node = verified.node_peer_id in
      let voucher : IsVouched transport node = record {
        hello = hello;
        verified = verified;
        accepted = accepted;
        named = refl;
      } in
      let on_transport = is_same transport (BTreeMap.get node m.peer_by_node) in
      let was_node = is_same node (BTreeMap.get transport m.node_by_transport) in
      elim (Bool-cases (not on_transport || not was_node)) [
        | inl fresh ↦ elim (Bool-cases is_open) [
          | inr shut ↦ rw (fresh, shut, register_verified_peer) tt
          | inl there ↦
              let here = (eq_bytes_iff node node).1 refl in
              rw (fresh, there, register_verified_peer)
                (
                  bind-IsConsistent m view (node ∷ view) transport verified voucher
                      (ground (arith, here)) (λ q k. ground (arith, k)) i,
                  (tt, tt),
                )
        ]
        | inr same ↦
            let placed : on_transport ≡ true = ground (arith, same) in
            let there = is_same_there transport (BTreeMap.get node m.peer_by_node) placed in
            rw (same, register_verified_peer)
              (
                bind-IsConsistent m view view transport verified voucher
                    (i.in_session node transport there) (λ q k. k) i,
                tt,
              )
      ]

  pub unregister_transport_peer-KeepsSessions :
      (is_open : Bool) (m : NetworkManager) (view : List Bytes) (transport : Bytes)
      → IsConsistent m view
      → KeepsSessions view (unregister_transport_peer is_open m transport)
  unfolding unregister_transport_peer
  unregister_transport_peer-KeepsSessions is_open m view transport i =
      elim (Option-cases (BTreeMap.get transport m.node_by_transport)) [
        | inl e ↦ rw (e, unregister_transport_peer) (i, tt)
        | inr (node, e) ↦ elim (Bool-cases is_open) [
          | inr shut ↦ rw (e, shut, unregister_transport_peer) tt
          | inl there ↦
              rw (e, there, unregister_transport_peer)
                (
                  unbind-IsConsistent m view transport node e i,
                  (i.in_session node transport (i.paired.back transport node e), tt),
                )
        ]
      ]
