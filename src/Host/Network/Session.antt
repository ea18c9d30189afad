-- ===== src/Host/Network/Session.antt =====
-- rp-runtime/src/network/manager.rs: the events that the manager sends, as sessions of node peers.
use rust_proof.Base.{
  ◌≡◌, subst, refl, inl, inr, Bool, true, false, not, ◌||◌, some, List, [], ◌∷◌, ◌++◌, Bytes, arith,
  eq_bytes, eq_bytes_iff, All, ok, err, panic, Outcome-cases,
}
use rust_proof.BTreeMap
use rust_proof.BTreeMap.{BTreeMap}
use rust_proof.BTreeSet.{retain}
use rust_proof.Core.Crypto.{Crypto}
use rust_proof.Host.Hello.{NodeHello, VerifiedPeer, Signing, verify_hello}
use rust_proof.Host.Contract.{peer_connected, peer_disconnected, frame_received}
use rust_proof.Host.Network.{Libp2p, NetworkManager, NetworkEffect, Handled, after, event_sent}
use rust_proof.Host.Network.Pairs.{IsPaired}

-- The node peers that have been reported connected, and not disconnected since.
abbrev pub knows : List Bytes → Bytes → Bool
knows [] peer = false
knows (p ∷ view) peer = eq_bytes p peer || knows view peer

abbrev pub forget : Bytes → List Bytes → List Bytes
forget peer view = retain (λ p. not (eq_bytes p peer)) view

pub knows-forget :
    (view : List Bytes) (peer q : Bytes)
    → eq_bytes q peer ≡ false
    → knows view q ≡ true
    → knows (forget peer view) q ≡ true
unfolding retain
knows-forget [] peer q other h = h
knows-forget (p ∷ view) peer q other h = ground (
  arith,
  knows-forget view peer q other,
  eq_bytes_iff p q,
  eq_bytes_iff p peer,
  eq_bytes_iff q peer,
)

module _ ⦃c : Crypto⦄ where
  -- The view after an effect, and after several.
  abbrev pub note : List Bytes → NetworkEffect → List Bytes
  note view (event_sent (peer_connected peer)) = peer ∷ view
  note view (event_sent (peer_disconnected peer)) = forget peer view
  note view _ = view

  abbrev pub note_all : List Bytes → List NetworkEffect → List Bytes
  note_all view [] = view
  note_all view (x ∷ xs) = note_all (note view x) xs

  -- A frame or the end of a session is reported for a node peer that is in session.
  abbrev pub IsInSession : List Bytes → NetworkEffect → Type 0
  IsInSession view (event_sent (frame_received peer frame)) = knows view peer ≡ true
  IsInSession view (event_sent (peer_disconnected peer)) = knows view peer ≡ true
  IsInSession view _ = Unit

  -- So does every effect of a list, at its place.
  abbrev pub AreInSession : List Bytes → List NetworkEffect → Type 0
  AreInSession view [] = Unit
  AreInSession view (x ∷ xs) = IsInSession view x × AreInSession (note view x) xs

  pub note_all-append :
      (xs ys : List NetworkEffect) (view : List Bytes)
      → note_all view (xs ++ ys) ≡ note_all (note_all view xs) ys
  note_all-append [] ys view = refl
  note_all-append (x ∷ xs) ys view = note_all-append xs ys (note view x)

  pub AreInSession-append :
      (xs ys : List NetworkEffect) (view : List Bytes)
      → AreInSession view xs
      → AreInSession (note_all view xs) ys
      → AreInSession view (xs ++ ys)
  AreInSession-append [] ys view h k = k
  AreInSession-append (x ∷ xs) ys view h k = (h.0, AreInSession-append xs ys (note view x) h.1 k)

module _ ⦃c : Crypto⦄ ⦃s : Signing⦄ ⦃l : Libp2p⦄ where
  -- A hello that verifies over the transport peer has named the node peer.
  pub record IsVouched (transport peer : Bytes) : Type 0 where
    pub hello : NodeHello
    pub verified : VerifiedPeer
    pub accepted : verify_hello hello transport ≡ ok verified
    pub named : verified.node_peer_id ≡ peer

  -- The maps of peers are inverse to each other; their node peers, and those that requests have
  -- been sent to, are in session; and a transport peer has vouched for its node peer.
  pub record IsConsistent (m : NetworkManager) (view : List Bytes) : Type 0 where
    pub paired : IsPaired m.peer_by_node m.node_by_transport
    pub vouched :
        (transport peer : Bytes)
        → BTreeMap.get transport m.node_by_transport ≡ some peer
        → IsVouched transport peer
    pub in_session :
        (peer transport : Bytes)
        → BTreeMap.get peer m.peer_by_node ≡ some transport
        → knows view peer ≡ true
    pub requested :
        All (λ (request : Bytes × Bytes). knows view request.1 ≡ true) m.outbound_sync_requests

  -- A call of a handler does not panic; if it succeeds, it leaves a consistent manager, and what it
  -- has sent is in session.
  abbrev pub KeepsSessions : List Bytes → Handled → Type 0
  KeepsSessions view (ok (m, effects)) =
      IsConsistent m (note_all view effects) × AreInSession view effects
  KeepsSessions view (err why) = Unit
  KeepsSessions view panic = Unit

  pub after-KeepsSessions :
      (view : List Bytes) (first : Handled) (rest : NetworkManager → Handled)
      → KeepsSessions view first
      → ((m : NetworkManager) (effects : List NetworkEffect)
          → first ≡ ok (m, effects)
          → KeepsSessions (note_all view effects) (rest m))
      → KeepsSessions view (after first rest)
  unfolding after
  after-KeepsSessions view (ok (m, effects)) rest k step =
      let now = step m effects refl in
      elim (Outcome-cases (rest m)) [
        | inl ((m1, more), e) ↦
            let done : KeepsSessions (note_all view effects) (ok (m1, more)) = rw e at now in
            rw e (
              rw (note_all-append effects more view) done.0,
              AreInSession-append effects more view k.1 done.1,
            )
        | inr (inl (why, e)) ↦ rw e tt
        | inr (inr e) ↦ rw e tt
      ]
  after-KeepsSessions view (err why) rest k step = tt
  after-KeepsSessions view panic rest k step = k

  pub consistent_after :
      (view : List Bytes) (first : Handled) (m : NetworkManager) (effects : List NetworkEffect)
      → KeepsSessions view first
      → first ≡ ok (m, effects)
      → IsConsistent m (note_all view effects)
  consistent_after view first m effects k e =
      let k' : KeepsSessions view (ok (m, effects)) = subst (KeepsSessions view) e k in k'.0
