-- ===== src/Host/Network/Requests.antt =====
-- rp-runtime/src/network/manager.rs: requests for blocks, and the channels that answers go to.
use rust_proof.Base.{
  ℕ, ◌+◌, ◌≤◌, ◌<◌, ◌≡◌, ◌≢◌, some, List, [], ◌∷◌, Bytes, arith, eq_bytes, if◌then◌else◌, ok,
}
use rust_proof.U64.{u64_limit, saturating_add, saturating_sub}
use rust_proof.BTreeMap
use rust_proof.BTreeMap.{BTreeMap, IsSorted, get_or, update}
use rust_proof.Core.Crypto.{Crypto}
use rust_proof.Node.Network.{SyncRequest, SyncResponse}
use rust_proof.Host.Network.{
  Libp2p, NetworkManager, NetworkEffect, Handled, after, clamp_sync_request, send_sync_response,
  sync_response_sent,
}

module _ ⦃c : Crypto⦄ ⦃l : Libp2p⦄ where
  -- If the peer's limit of blocks is known and not zero, a request from a height up to a height that
  -- is not below it, and that is a `u64`, is sent with the same first height, a last height that is
  -- not above the one asked for and not below the first, and for at most as many blocks as the limit.
  pub clamp_sync_request-bounds :
      (m : NetworkManager) (peer : Bytes) (request : SyncRequest) (limit : ℕ)
      → BTreeMap.get peer m.peer_max_blocks_per_chunk ≡ some limit
      → limit ≢ 0
      → request.from_height ≤ request.to_height
      → request.to_height < u64_limit
      → ((clamp_sync_request m peer request).from_height ≡ request.from_height)
        × ((clamp_sync_request m peer request).to_height ≤ request.to_height)
        × (request.from_height ≤ (clamp_sync_request m peer request).to_height)
        × ((clamp_sync_request m peer request).to_height < request.from_height + limit)
  unfolding clamp_sync_request saturating_add saturating_sub
  clamp_sync_request-bounds m peer request limit e positive order small =
      (ground (arith, e), ground (arith, e), ground (arith, e), ground (arith, e))

  -- The channels on which the peer waits for blocks, in the order of its requests.
  abbrev pub waiting : NetworkManager → Bytes → List ℕ
  waiting m peer = get_or peer [] m.pending_sync_responses

  -- What has become of a manager that has answered a peer's first request.
  pub record HasAnswered (m : NetworkManager) (peer : Bytes) (channels : List ℕ)
      (sent : List NetworkEffect) (handled : Handled) : Type 0 where
    pub after_it : NetworkManager
    pub result : handled ≡ ok (after_it, sent)
    pub ordered : IsSorted after_it.pending_sync_responses
    pub swarm : after_it.swarm ≡ m.swarm
    pub left :
        (q : Bytes) → waiting after_it q ≡ (if eq_bytes q peer then channels else waiting m q)

  -- The node answers a peer several times.
  unfoldable pub send_sync_responses : NetworkManager → Bytes → List SyncResponse → Handled
  send_sync_responses m peer [] = ok (m, [])
  send_sync_responses m peer (response ∷ responses) =
      after (send_sync_response m peer response) (λ m'. send_sync_responses m' peer responses)

  -- The first channel gets the first answer, and so on.
  abbrev pub in_turn : List ℕ → List SyncResponse → List NetworkEffect
  in_turn [] responses = []
  in_turn (channel ∷ channels) [] = []
  in_turn (channel ∷ channels) (response ∷ responses) =
      sync_response_sent channel response ∷ in_turn channels responses
