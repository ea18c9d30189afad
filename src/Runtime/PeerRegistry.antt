-- ===== src/Runtime/PeerRegistry.antt =====
-- erp-runtime/src/network/peer_registry.rs: the sessions with peers, in slots that are used again.
pub mod Index
use rust_proof.Base.{
  ℕ, zero, suc, ◌+◌, Bool, true, false, not, ◌&&◌, Option, none, some, List, [], ◌∷◌, ◌++◌, Bytes,
  Outcome, ok, err, panic, leb, ◌==◌, eq_bytes, if◌then◌else◌, length,
}
use rust_proof.BTreeMap
use rust_proof.BTreeMap.{BTreeMap}

-- `std::net::SocketAddr`: address and port, with the flow and the scope of IPv6.
pub data SocketAddr : Type 0 where
  v4 : Bytes → ℕ → SocketAddr
  v6 : Bytes → ℕ → ℕ → ℕ → SocketAddr

abbrev pub eq_addr : SocketAddr → SocketAddr → Bool
eq_addr (v4 a p) (v4 b q) = eq_bytes a b && p == q
eq_addr (v6 a p f s) (v6 b q g t) = eq_bytes a b && p == q && f == g && s == t
eq_addr _ _ = false

pub data SessionState : Type 0 where
  tcp_connected noise_ready yamux_ready identified node_ready closing : SessionState

pub record PeerSession : Type 0 where
  pub id : ℕ
  pub is_outbound : Bool
  pub outbound_addr : Option SocketAddr
  pub node_peer_id : Option Bytes
  pub transport_peer_id : Bytes
  pub state : SessionState
  pub max_frame_len : ℕ
  pub max_blocks_per_chunk : ℕ
  pub last_seen_ms : ℕ

pub record PeerRegistry : Type 0 where
  pub sessions : List (Option PeerSession)
  pub by_node_peer : BTreeMap ℕ
  pub max_peers : ℕ

pub data RegistryError : Type 0 where
  registry_full peer_of_another_session unknown_session : RegistryError

-- `PeerRegistry::new`
abbrev pub new : ℕ → PeerRegistry
new max_peers = record { sessions = []; by_node_peer = []; max_peers = max_peers }

abbrev pub fresh_session : ℕ → Bytes → Bool → Option SocketAddr → PeerSession
fresh_session session_id transport_peer_id is_outbound outbound_addr = record {
  id = session_id;
  is_outbound = is_outbound;
  outbound_addr = outbound_addr;
  node_peer_id = none;
  transport_peer_id = transport_peer_id;
  state = tcp_connected;
  max_frame_len = 0;
  max_blocks_per_chunk = 0;
  last_seen_ms = 0;
}

-- `.iter_mut().enumerate().find(|(_, slot)| slot.is_none())`, counted from `n`.
unfoldable pub free_slot : ℕ → List (Option PeerSession) → Option ℕ
free_slot n [] = none
free_slot n (none ∷ slots) = some n
free_slot n (some session ∷ slots) = free_slot (suc n) slots

-- `sessions.get(id)`, flattened.
unfoldable pub session_at : ℕ → List (Option PeerSession) → Option PeerSession
session_at n [] = none
session_at zero (slot ∷ slots) = slot
session_at (suc n) (slot ∷ slots) = session_at n slots

-- `*slot = value`, for a slot that is there.
unfoldable pub set_slot :
    ℕ → Option PeerSession → List (Option PeerSession) → List (Option PeerSession)
set_slot n value [] = []
set_slot zero value (slot ∷ slots) = value ∷ slots
set_slot (suc n) value (slot ∷ slots) = slot ∷ set_slot n value slots

unfoldable pub alloc :
    PeerRegistry → Bytes → Bool → Option SocketAddr → Outcome RegistryError (PeerRegistry × ℕ)
alloc r transport_peer_id is_outbound outbound_addr = elim (free_slot 0 r.sessions) [
  | some session_id ↦
      let session = fresh_session session_id transport_peer_id is_outbound outbound_addr in
      ok (record r { sessions = set_slot session_id (some session) r.sessions }, session_id)
  | none ↦
      let session_id = length r.sessions in
      let session = fresh_session session_id transport_peer_id is_outbound outbound_addr in
      if leb r.max_peers session_id
      then err registry_full
      else ok (record r { sessions = r.sessions ++ some session ∷ [] }, session_id)
]

unfoldable pub get : PeerRegistry → ℕ → Option PeerSession
get r id = session_at id r.sessions

-- The node peer is that of another session.
abbrev pub taken_by_another : Option ℕ → ℕ → Bool
taken_by_another none id = false
taken_by_another (some existing) id = not (existing == id)

unfoldable pub register_node_peer : PeerRegistry → ℕ → Bytes → Outcome RegistryError PeerRegistry
register_node_peer r id node_peer_id =
    if taken_by_another (BTreeMap.get node_peer_id r.by_node_peer) id
    then err peer_of_another_session
    else elim (session_at id r.sessions) [
      | none ↦ err unknown_session
      | some session ↦ ok (record r {
        sessions =
            set_slot id (some (record session { node_peer_id = some node_peer_id })) r.sessions;
        by_node_peer = BTreeMap.insert node_peer_id id r.by_node_peer;
      })
    ]

unfoldable pub session_for_node : PeerRegistry → Bytes → Option ℕ
session_for_node r peer = BTreeMap.get peer r.by_node_peer

abbrev pub is_ready : SessionState → Bool
is_ready node_ready = true
is_ready _ = false

unfoldable pub ready_from : ℕ → List (Option PeerSession) → List ℕ
ready_from n [] = []
ready_from n (none ∷ slots) = ready_from (suc n) slots
ready_from n (some session ∷ slots) =
    let rest = ready_from (suc n) slots in if is_ready session.state then n ∷ rest else rest

unfoldable pub ready_sessions : PeerRegistry → List ℕ
ready_sessions r = ready_from 0 r.sessions

unfoldable pub outbound_in : List (Option PeerSession) → ℕ
outbound_in [] = 0
outbound_in (none ∷ slots) = outbound_in slots
outbound_in (some session ∷ slots) =
    let rest = outbound_in slots in if session.is_outbound then suc rest else rest

unfoldable pub outbound_session_count : PeerRegistry → ℕ
outbound_session_count r = outbound_in r.sessions

abbrev pub is_for : SocketAddr → Option SocketAddr → Bool
is_for address none = false
is_for address (some outbound_addr) = eq_addr outbound_addr address

unfoldable pub any_outbound_for : SocketAddr → List (Option PeerSession) → Bool
any_outbound_for address [] = false
any_outbound_for address (none ∷ slots) = any_outbound_for address slots
any_outbound_for address (some session ∷ slots) =
    let rest = any_outbound_for address slots in
    if is_for address session.outbound_addr then true else rest

unfoldable pub has_outbound_session_for : PeerRegistry → SocketAddr → Bool
has_outbound_session_for r address = any_outbound_for address r.sessions

-- The index without the node peer of a session that ends.
unfoldable pub unindex : Option Bytes → BTreeMap ℕ → BTreeMap ℕ
unindex none by_node_peer = by_node_peer
unindex (some node_peer_id) by_node_peer = BTreeMap.remove node_peer_id by_node_peer

unfoldable pub remove : PeerRegistry → ℕ → PeerRegistry × Option PeerSession
remove r id = elim (session_at id r.sessions) [
  | none ↦ (r, none)
  | some session ↦ (
    record r {
      sessions = set_slot id none r.sessions;
      by_node_peer = unindex session.node_peer_id r.by_node_peer;
    },
    some session,
  )
]
