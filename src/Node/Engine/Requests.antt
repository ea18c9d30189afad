-- ===== src/Node/Engine/Requests.antt =====
-- rp-node/src/node_engine.rs: which requests are pending behind a tick and behind a disconnect.
use mathlib.Core.List.{Memᴰ}
use rust_proof.Base.{
  ℕ, ◌<◌, ◌≡◌, ◌≢◌, refl, not, none, some, List, [], ◌∷◌, Bytes, ok, arith, ltb, eq_bytes,
  eq_bytes_iff, All, subst, sym,
}
use rust_proof.BTreeMap
use rust_proof.BTreeMap.{IsSorted}
use rust_proof.BTreeMap.Laws.{get-remove}
use rust_proof.BTreeSet.{retain}
use rust_proof.Core.Crypto.{Crypto}
use rust_proof.Node.Network.{Postcard}
use rust_proof.Node.Contract.{tick, disconnected, NodeAction}
use rust_proof.Node.Engine.{PendingRequest, NodeEngine, prune_expired_requests}
use rust_proof.Node.Engine.Step.{
  step, handle, with_wake, on_tick, on_peer_disconnected, drop_requests,
}
use rust_proof.Node.Engine.Wake.{
  IsBefore, IsTimerFor, IsFirstDeadline, first_deadline, with_wake-keeps,
}
use rust_proof.Node.Engine.Timer.{step-timer}

module _ ⦃c : Crypto⦄ where
  IsBefore-retain :
      (now : ℕ) (requests : List PendingRequest)
      → IsBefore now (retain (λ r. ltb now r.deadline_ms) requests)
  unfolding retain
  IsBefore-retain now [] = tt
  IsBefore-retain now (r ∷ rs) = ground (arith, IsBefore-retain now rs)

  All-Memᴰ :
      (t : ℕ) (r : PendingRequest) (requests : List PendingRequest)
      → Memᴰ r requests
      → IsBefore t requests
      → t < r.deadline_ms
  All-Memᴰ t r [] known b = elim known [ ]
  All-Memᴰ t r (x ∷ xs) (Memᴰ.head e) b = rw e b.0
  All-Memᴰ t r (x ∷ xs) (Memᴰ.tail known) b = All-Memᴰ t r xs known b.1

  pub first-IsBefore :
      (now d : ℕ) (requests : List PendingRequest)
      → IsBefore now requests
      → IsFirstDeadline d requests
      → now < d
  first-IsBefore now d requests b (first_deadline r known e a) =
      omega (arith, e, All-Memᴰ now r requests known b)

  other_peers :
      (peer : Bytes) (requests : List PendingRequest)
      → All (λ r. r.peer ≢ peer) (retain (λ r. not (eq_bytes r.peer peer)) requests)
  unfolding retain
  other_peers peer [] = tt
  other_peers peer (r ∷ rs) = ground (arith, other_peers peer rs, eq_bytes_iff r.peer peer)

module _ ⦃c : Crypto⦄ ⦃p : Postcard⦄ where
  -- A tick returns; behind it the engine has the new time, no request is pending whose deadline has
  -- come, and a wake-up that is scheduled lies in the future.
  pub step-tick :
      (e : NodeEngine) (now_ms : ℕ)
      → (e' : NodeEngine) × (actions : List NodeAction) × (step e (tick now_ms) ≡ ok (e', actions))
        × (e'.current_time_ms ≡ now_ms)
        × IsBefore now_ms e'.pending_requests
        × ((at_ms : ℕ) → e'.scheduled_wake_at_ms ≡ some at_ms → now_ms < at_ms)
  unfolding step handle on_tick prune_expired_requests
  step-tick e now_ms =
      let e1 = (on_tick e now_ms).0 in
      let (same_requests, same_time, _, _, _) = with_wake-keeps e1 [] in
      let pruned = IsBefore-retain now_ms e.pending_requests in
      let timer = step-timer e _ (tick now_ms) _ e.scheduled_wake_at_ms refl refl in
      let before : IsBefore now_ms (with_wake (e1, [])).0.pending_requests =
        subst (IsBefore now_ms) (sym same_requests) pruned in
      (
        (with_wake (e1, [])).0,
        (with_wake (e1, [])).1,
        refl,
        same_time,
        before,
        λ at_ms q.
            first-IsBefore now_ms at_ms _ before
              (subst (λ t. IsTimerFor t (with_wake (e1, [])).0.pending_requests) q timer.1),
      )

  -- If the peers are in order, a disconnect returns; behind it the peer is not known, no request
  -- to it is pending, and the parked blocks stay.
  pub step-disconnected :
      (e : NodeEngine) (peer : Bytes)
      → IsSorted e.peers
      → (e' : NodeEngine) × (actions : List NodeAction) × (step e (disconnected peer)
          ≡ ok (e', actions))
        × (BTreeMap.get peer e'.peers ≡ none)
        × All (λ r. r.peer ≢ peer) e'.pending_requests
        × (e'.pending_blocks ≡ e.pending_blocks)
  unfolding step handle on_peer_disconnected drop_requests
  step-disconnected e peer sorted =
      let e1 = (on_peer_disconnected e peer).0 in
      let xs = (on_peer_disconnected e peer).1 in
      let (same_requests, _, same_peers, same_blocks, _) = with_wake-keeps e1 xs in
      (
        (with_wake (e1, xs)).0,
        (with_wake (e1, xs)).1,
        refl,
        ground (arith, get-remove peer peer e.peers sorted, eq_bytes_iff peer peer),
        subst (All (λ r. r.peer ≢ peer)) (sym same_requests) (other_peers peer e.pending_requests),
        same_blocks,
      )
