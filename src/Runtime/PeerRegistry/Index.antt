-- ===== src/Runtime/PeerRegistry/Index.antt =====
-- erp-runtime/src/network/peer_registry.rs: the slots and the index of node peers.
use rust_proof.Base.{
  ℕ, zero, suc, ◌+◌, ◌≤◌, ◌<◌, ◌≡◌, ◌↔◌, refl, ap, inl, inr, Bool, true, false, Option, none, some,
  List, [], ◌∷◌, ◌++◌, Bytes, ok, arith, ◌==◌, eq_bytes, eq_bytes_iff, if◌then◌else◌, length,
  length-append, Option-cases, Bool-cases,
}
use rust_proof.BTreeMap
use rust_proof.BTreeMap.{BTreeMap, IsSorted}
use rust_proof.BTreeMap.Laws.{get-insert, get-remove, insert-IsSorted, remove-IsSorted}
use rust_proof.Runtime.PeerRegistry.{
  PeerSession, PeerRegistry, SocketAddr, free_slot, session_at, set_slot, alloc, fresh_session,
  register_node_peer, remove, unindex, taken_by_another,
}

pub session_at-set_slot :
    (n i : ℕ) (value : Option PeerSession) (old : PeerSession) (slots : List (Option PeerSession))
    → session_at n slots ≡ some old
    → session_at i (set_slot n value slots) ≡ (if i == n then value else session_at i slots)
unfolding session_at set_slot
session_at-set_slot n i value old [] h = absurd (ground arith)
session_at-set_slot zero zero value old (slot ∷ slots) h = refl
session_at-set_slot zero (suc i) value old (slot ∷ slots) h = ground arith
session_at-set_slot (suc n) zero value old (slot ∷ slots) h = ground arith
session_at-set_slot (suc n) (suc i) value old (slot ∷ slots) h =
    ground (arith, session_at-set_slot n i value old slots h)

-- A node peer is indexed exactly for the session that names it, and the keys are in order.
pub record IsIndexed (r : PeerRegistry) : Type 0 where
  pub ordered : IsSorted r.by_node_peer
  pub named :
      (peer : Bytes) (id : ℕ)
      → BTreeMap.get peer r.by_node_peer ≡ some id
      → (session : PeerSession) × (session_at id r.sessions ≡ some session)
        × (session.node_peer_id ≡ some peer)
  pub found :
      (peer : Bytes) (id : ℕ) (session : PeerSession)
      → session_at id r.sessions ≡ some session
      → session.node_peer_id ≡ some peer
      → BTreeMap.get peer r.by_node_peer ≡ some id

-- What a successful registration has checked and done.
record Registered (r r' : PeerRegistry) (id : ℕ) (peer : Bytes) (session : PeerSession)
    : Type 0 where
  slots : r'.sessions ≡ set_slot id (some (record session { node_peer_id = some peer })) r.sessions
  index : r'.by_node_peer ≡ BTreeMap.insert peer id r.by_node_peer
  untaken : taken_by_another (BTreeMap.get peer r.by_node_peer) id ≡ false

register_node_peer-Registered :
    (r r' : PeerRegistry) (id : ℕ) (peer : Bytes) (session : PeerSession)
    → session_at id r.sessions ≡ some session
    → register_node_peer r id peer ≡ ok r'
    → Registered r r' id peer session
unfolding register_node_peer
register_node_peer-Registered r r' id peer session known h = record {
  slots = ground arith;
  index = ground arith;
  untaken = ground arith;
}

-- Registering the node peer of a session that had none, if it succeeds, keeps an exact index
-- exact.
pub register_node_peer-IsIndexed :
    (r r' : PeerRegistry) (id : ℕ) (peer : Bytes) (session : PeerSession)
    → IsIndexed r
    → session_at id r.sessions ≡ some session
    → session.node_peer_id ≡ none
    → register_node_peer r id peer ≡ ok r'
    → IsIndexed r'
register_node_peer-IsIndexed r r' id peer session i known unnamed h =
    let done = register_node_peer-Registered r r' id peer session known h in
    let renamed : PeerSession = record session { node_peer_id = some peer } in
    let at_slot = λ (j : ℕ). session_at-set_slot id j (some renamed) session r.sessions known in
    let at_key = λ (q : Bytes). get-insert peer q id r.by_node_peer in
    record {
      ordered = rw done.index (insert-IsSorted peer id r.by_node_peer i.ordered);
      named = λ q j e.
          let e' : BTreeMap.get q (BTreeMap.insert peer id r.by_node_peer) ≡ some j =
            rw done.index at e in
          elim (Bool-cases (eq_bytes q peer)) [
            | inl same ↦ (
              renamed,
              rw done.slots (ground (arith, at_slot j, at_key q)),
              ground (arith, eq_bytes_iff q peer),
            )
            | inr other ↦
                let (s, there, name) = i.named q j (ground (arith, at_key q)) in
                (s, rw done.slots (ground (arith, at_slot j)), name)
          ];
      found = λ q j s e name.
          let e' : session_at j (set_slot id (some renamed) r.sessions) ≡ some s =
            rw done.slots at e in
          elim (Bool-cases (j == id)) [
            | inl same ↦ rw done.index (ground (arith, at_slot j, at_key q, eq_bytes_iff q peer))
            | inr other ↦
                let before = i.found q j s (ground (arith, at_slot j)) name in
                rw done.index (ground (arith, at_key q, before, done.untaken, eq_bytes_iff q peer))
          ];
    }

abbrev is_named : Bytes → Option Bytes → Bool
is_named q none = false
is_named q (some p) = eq_bytes q p

is_named_iff : (q : Bytes) (name : Option Bytes) → (is_named q name ≡ true) ↔ (name ≡ some q)
is_named_iff q none = ground arith
is_named_iff q (some p) = ground (arith, eq_bytes_iff q p)

get-unindex :
    (name : Option Bytes) (q : Bytes) (index : BTreeMap ℕ)
    → IsSorted index
    → BTreeMap.get q (unindex name index) ≡ (if is_named q name then none else BTreeMap.get q index)
unfolding unindex
get-unindex none q index s = refl
get-unindex (some p) q index s = get-remove p q index s

unindex-IsSorted :
    (name : Option Bytes) (index : BTreeMap ℕ) → IsSorted index → IsSorted (unindex name index)
unfolding unindex
unindex-IsSorted none index s = s
unindex-IsSorted (some p) index s = remove-IsSorted p index s

-- The registry without the session of a slot.
without-IsIndexed :
    (r : PeerRegistry) (id : ℕ) (session : PeerSession)
    → IsIndexed r
    → session_at id r.sessions ≡ some session
    → IsIndexed (record r {
      sessions = set_slot id none r.sessions;
      by_node_peer = unindex session.node_peer_id r.by_node_peer;
    })
without-IsIndexed r id session i e =
    let at_slot = λ (j : ℕ). session_at-set_slot id j none session r.sessions e in
    let at_key = λ (q : Bytes). get-unindex session.node_peer_id q r.by_node_peer i.ordered in
    record {
      ordered = unindex-IsSorted session.node_peer_id r.by_node_peer i.ordered;
      named = λ q j h.
          let before : BTreeMap.get q r.by_node_peer ≡ some j = ground (arith, at_key q) in
          let (s, there, name) = i.named q j before in
          let kept : is_named q session.node_peer_id ≡ false = ground (arith, at_key q) in
          (s, ground (arith, at_slot j, is_named_iff q session.node_peer_id), name);
      found = λ q j s h name.
          let there : session_at j r.sessions ≡ some s = ground (arith, at_slot j) in
          let elsewhere : (j == id) ≡ false = ground (arith, at_slot j) in
          let before = i.found q j s there name in
          ground (arith, at_key q, is_named_iff q session.node_peer_id, i.found q id session e);
    }

-- Removing a session keeps an exact index exact: no node peer is left that points to the free
-- slot.
pub remove-IsIndexed : (r : PeerRegistry) (id : ℕ) → IsIndexed r → IsIndexed (remove r id).0
unfolding remove
remove-IsIndexed r id i = elim (Option-cases (session_at id r.sessions)) [
  | inl e ↦ rw (e, remove) i
  | inr (session, e) ↦ rw (e, remove) (without-IsIndexed r id session i e)
]

session_at-append :
    (j : ℕ) (value : Option PeerSession) (slots : List (Option PeerSession))
    → session_at j (slots ++ value ∷ []) ≡ (if j == length slots then value else session_at j slots)
unfolding session_at
session_at-append zero value [] = refl
session_at-append (suc j) value [] = ground arith
session_at-append zero value (slot ∷ slots) = ground arith
session_at-append (suc j) value (slot ∷ slots) = ground (arith, session_at-append j value slots)

session_at_end : (slots : List (Option PeerSession)) → session_at (length slots) slots ≡ none
unfolding session_at
session_at_end [] = refl
session_at_end (slot ∷ slots) = session_at_end slots

session_at-set_slot_free :
    (n i : ℕ) (value : Option PeerSession) (slots : List (Option PeerSession))
    → n < length slots
    → session_at i (set_slot n value slots) ≡ (if i == n then value else session_at i slots)
unfolding session_at set_slot
session_at-set_slot_free n i value [] h = absurd (omega arith)
session_at-set_slot_free zero zero value (slot ∷ slots) h = refl
session_at-set_slot_free zero (suc i) value (slot ∷ slots) h = ground arith
session_at-set_slot_free (suc n) zero value (slot ∷ slots) h = ground arith
session_at-set_slot_free (suc n) (suc i) value (slot ∷ slots) h =
    ground (arith, session_at-set_slot_free n i value slots (omega arith))

length-set_slot :
    (n : ℕ) (value : Option PeerSession) (slots : List (Option PeerSession))
    → length (set_slot n value slots) ≡ length slots
unfolding set_slot
length-set_slot n value [] = refl
length-set_slot zero value (slot ∷ slots) = refl
length-set_slot (suc n) value (slot ∷ slots) = ap suc (length-set_slot n value slots)

free_slot-free :
    (start m : ℕ) (slots : List (Option PeerSession))
    → free_slot start slots ≡ some m
    → (k : ℕ) × (m ≡ start + k) × (k < length slots) × (session_at k slots ≡ none)
unfolding free_slot session_at
free_slot-free start m [] h = cc
free_slot-free start m (none ∷ slots) h = (0, ground arith, omega arith, refl)
free_slot-free start m (some session ∷ slots) h =
    let (k, e, lt, free) = free_slot-free (suc start) m slots h in
    (suc k, omega (arith, e), omega (arith, lt), free)

-- A slot that was free is taken by a session without a node peer.
record Taken (r r' : PeerRegistry) (id : ℕ) (session : PeerSession) : Type 0 where
  free : session_at id r.sessions ≡ none
  slots :
      (j : ℕ)
      → session_at j r'.sessions ≡ (if j == id then some session else session_at j r.sessions)
  index : r'.by_node_peer ≡ r.by_node_peer
  limit : r'.max_peers ≡ r.max_peers
  fits : length r.sessions ≤ r.max_peers → length r'.sessions ≤ r'.max_peers

alloc-Taken :
    (r r' : PeerRegistry) (transport : Bytes) (outbound : Bool) (addr : Option SocketAddr) (id : ℕ)
    → alloc r transport outbound addr ≡ ok (r', id)
    → Taken r r' id (fresh_session id transport outbound addr)
unfolding alloc
alloc-Taken r r' transport outbound addr id h = elim (Option-cases (free_slot 0 r.sessions)) [
  | inr (m, e) ↦
      let (k, at_k, lt, free) = free_slot-free 0 m r.sessions e in
      let same : id ≡ m = ground arith in
      let session = fresh_session m transport outbound addr in
      let slots : r'.sessions ≡ set_slot m (some session) r.sessions = ground arith in
      record {
        free = ground (arith, free);
        slots = λ j.
            rw (slots, same)
              (session_at-set_slot_free m j (some session) r.sessions (omega (arith, lt, at_k)));
        index = ground arith;
        limit = ground arith;
        fits = λ room. ground (arith, length-set_slot m (some session) r.sessions);
      }
  | inl e ↦
      let same : id ≡ length r.sessions = ground arith in
      let session = fresh_session (length r.sessions) transport outbound addr in
      let slots : r'.sessions ≡ r.sessions ++ some session ∷ [] = ground arith in
      record {
        free = ground (arith, session_at_end r.sessions);
        slots = λ j. rw (slots, same) (session_at-append j (some session) r.sessions);
        index = ground arith;
        limit = ground arith;
        fits = λ room. ground (arith, length-append r.sessions (some session ∷ []));
      }
]

-- A successful allocation, in a registry with an exact index and no more slots than the maximal
-- number of peers, takes a slot that was free for a session without a node peer, and keeps the
-- registry so.
pub alloc-IsIndexed :
    (r r' : PeerRegistry) (transport : Bytes) (outbound : Bool) (addr : Option SocketAddr) (id : ℕ)
    → IsIndexed r
    → length r.sessions ≤ r.max_peers
    → alloc r transport outbound addr ≡ ok (r', id)
    → (session_at id r.sessions ≡ none)
      × (session_at id r'.sessions ≡ some (fresh_session id transport outbound addr))
      × (length r'.sessions ≤ r'.max_peers)
      × IsIndexed r'
alloc-IsIndexed r r' transport outbound addr id i room h =
    let t = alloc-Taken r r' transport outbound addr id h in
    (
      t.free,
      ground (arith, t.slots id),
      t.fits room,
      record {
        ordered = rw t.index i.ordered;
        named = λ q j e.
            let (s, there, name) = i.named q j (rw t.index at e) in
            (s, ground (arith, t.slots j, t.free), name);
        found = λ q j s e name. rw t.index (i.found q j s (ground (arith, t.slots j)) name);
      },
    )
