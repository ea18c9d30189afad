-- ===== src/Runtime/Network/Sessions.antt =====
-- erp-runtime/src/network/manager.rs: the registry of peers behind the events of sessions.
use rust_proof.Base.{
  ℕ, ◌≤◌, ◌≡◌, sym, ap, ◌∙◌, subst, inl, inr, Bool, true, Option, none, some, List, [], ◌∷◌, Bytes,
  Outcome, ok, err, panic, >>=-eq-ok, ok-injective, map_err, arith, ◌==◌, ==_iff, length,
  Bool-cases, Option-cases,
}
use rust_proof.BTreeMap
use rust_proof.BTreeMap.{BTreeMap}
use rust_proof.Core.Crypto.{Crypto}
use rust_proof.Host.Contract.{RuntimeEvent, peer_connected, peer_disconnected}
use rust_proof.Runtime.PeerRegistry
use rust_proof.Runtime.PeerRegistry.{
  PeerRegistry, PeerSession, SocketAddr, RegistryError, registry_full, peer_of_another_session,
  session_at, set_slot, alloc, register_node_peer, free_slot,
}
use rust_proof.Runtime.PeerRegistry.Index.{
  IsIndexed, session_at-set_slot, register_node_peer-IsIndexed, remove-IsIndexed, alloc-IsIndexed,
}
use rust_proof.Runtime.Network.{
  VerifiedPeer, SessionEvent, ready, closed, registry, World, NetworkManager, NetworkEffect, emit,
  readied, with_session, announce_end, handle_session_event, spawn_session, worker_spawned,
  has_worker,
}

map_err_ok :
    {A : Type 0} (call : Outcome RegistryError A) (value : A)
    → map_err registry call ≡ ok value
    → call ≡ ok value
map_err_ok (ok x) value h = ap ok (ok-injective h)
map_err_ok (err why) value h = absurd cc
map_err_ok panic value h = absurd cc

-- A session that keeps its node peer keeps the index exact.
with_session-IsIndexed :
    (r : PeerRegistry) (id : ℕ) (session : PeerSession) (verified : VerifiedPeer)
    → IsIndexed r
    → session_at id r.sessions ≡ some session
    → IsIndexed (with_session r id (readied session verified))
with_session-IsIndexed r id session verified i known =
    let new : PeerSession = readied session verified in
    let at_slot = λ (j : ℕ). session_at-set_slot id j (some new) session r.sessions known in
    record {
      ordered = i.ordered;
      named = λ q j e.
          let (s, there, name) = i.named q j e in
          elim (Bool-cases (j == id)) [
            | inl same ↦
                let here : session_at id r.sessions ≡ some s = rw ((==_iff j id).0 same) at there in
                let old : session ≡ s = ground (arith, known, here) in
                (
                  new,
                  ground (arith, at_slot j, same),
                  ap (λ (x : PeerSession). x.node_peer_id) old ∙ name,
                )
            | inr other ↦ (s, ground (arith, at_slot j, other, there), name)
          ];
      found = λ q j s e name. elim (Bool-cases (j == id)) [
        | inl same ↦
            let replaced : new ≡ s = ground (arith, at_slot j, same, e) in
            let before : session.node_peer_id ≡ some q =
              ap (λ (x : PeerSession). x.node_peer_id) replaced ∙ name in
            let indexed = i.found q id session known before in
            subst (λ x. BTreeMap.get q r.by_node_peer ≡ some x) (sym ((==_iff j id).0 same)) indexed
        | inr other ↦ i.found q j s (ground (arith, at_slot j, other, e)) name
      ];
    }

-- A session that gets ready has no node peer yet.
abbrev pub IsFirstReady : NetworkManager → SessionEvent → Type 0
IsFirstReady m (ready id verified) =
    (session : PeerSession)
    → session_at id m.peers.sessions ≡ some session
    → session.node_peer_id ≡ none
IsFirstReady m (closed id node_peer_id) = Unit

module _ ⦃c : Crypto⦄ where
  emit_keeps :
      (w : World) (event : RuntimeEvent) (m : NetworkManager)
      (done : NetworkManager × List NetworkEffect)
      → emit w event m ≡ ok done
      → done.0 ≡ m
  emit_keeps w event m done h = elim (Bool-cases w.hears_events) [
    | inl there ↦ ground (arith, there, h)
    | inr gone ↦ absurd (ground (arith, gone, h))
  ]

  announce_end_keeps :
      (w : World) (node : Option Bytes) (m : NetworkManager)
      (done : NetworkManager × List NetworkEffect)
      → announce_end w node m ≡ ok done
      → done.0 ≡ m
  announce_end_keeps w none m done h = ground (arith, h)
  announce_end_keeps w (some node) m done h = emit_keeps w (peer_disconnected node) m done h

  -- An event of a session that the manager gets through keeps an exact index of node peers exact, if
  -- a session that gets ready has no node peer yet.
  pub handle_session_event-IsIndexed :
      (w : World) (m m' : NetworkManager) (event : SessionEvent) (effects : List NetworkEffect)
      → IsIndexed m.peers
      → IsFirstReady m event
      → handle_session_event w m event ≡ ok (m', effects)
      → IsIndexed m'.peers
  unfolding handle_session_event PeerRegistry.get
  handle_session_event-IsIndexed w m m' (closed id node) effects i first h =
      let same = announce_end_keeps w node _ (m', effects) h in
      rw same (remove-IsIndexed m.peers id i)
  handle_session_event-IsIndexed w m m' (ready id verified) effects i first h =
      elim (Option-cases (session_at id m.peers.sessions)) [
        | inl e ↦ absurd (ground (arith, e, h))
        | inr (session, e) ↦
            let r = with_session m.peers id (readied session verified) in
            let opened = rw (e, handle_session_event) at h in
            let (peers, called, go) =
              >>=-eq-ok (map_err registry (register_node_peer r id verified.node_peer_id)) _
                opened in
            let done : register_node_peer r id verified.node_peer_id ≡ ok peers =
              map_err_ok _ peers called in
            let same = emit_keeps w (peer_connected verified.node_peer_id) _ (m', effects) go in
            let there : session_at id r.sessions ≡ some (readied session verified) = ground (
              arith,
              session_at-set_slot id id (some (readied session verified)) session m.peers.sessions
                  e,
            ) in
            rw same (
              register_node_peer-IsIndexed r peers id verified.node_peer_id
                (readied session verified) (with_session-IsIndexed m.peers id session verified i e)
                there (first session e) done)
      ]

  -- A session that is spawned, if that succeeds, takes a slot that was free for a session without a
  -- node peer, has a worker, and keeps an exact index exact and the registry within its limit.
  pub spawn_session-IsIndexed :
      (w : World) (m m' : NetworkManager) (is_outbound : Bool) (outbound_addr : Option SocketAddr)
      (expected : Option Bytes) (effects : List NetworkEffect)
      → IsIndexed m.peers
      → length m.peers.sessions ≤ m.peers.max_peers
      → spawn_session w m is_outbound outbound_addr expected ≡ ok (m', effects)
      → (id : ℕ) × (effects ≡ worker_spawned id is_outbound expected ∷ [])
        × (session_at id m.peers.sessions ≡ none)
        × (has_worker id m'.session_commands ≡ true)
        × (length m'.peers.sessions ≤ m'.peers.max_peers)
        × IsIndexed m'.peers
  unfolding spawn_session
  spawn_session-IsIndexed w m m' is_outbound outbound_addr expected effects i room h =
      let ((peers, id), called, go) =
        >>=-eq-ok (map_err registry (alloc m.peers [] is_outbound outbound_addr)) _ h in
      let done = map_err_ok _ (peers, id) called in
      let (free, _, fits, indexed) =
        alloc-IsIndexed m.peers peers [] is_outbound outbound_addr id i room done in
      elim (Bool-cases w.spawns) [
        | inr refused ↦ absurd (ground (arith, refused, go))
        | inl spawned ↦
            let same : m'.peers ≡ peers = ground (arith, spawned, go) in
            (
              id,
              ground (arith, spawned, go),
              free,
              ground (arith, spawned, go),
              rw same fits,
              rw same indexed,
            )
      ]
