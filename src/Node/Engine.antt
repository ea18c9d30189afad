-- ===== src/Node/Engine.antt =====
-- rp-node/src/node_engine.rs: the engine's state and its helpers. `Step` puts the inputs to them.
pub mod Step
pub mod Parked
pub mod Wake
pub mod Quiet
pub mod Timer
pub mod Total
pub mod Restore
pub mod Requests
use Prim.Native.Nat.{min}
use rust_proof.Base.{
  ℕ, zero, suc, ◌+◌, Bool, true, false, not, ◌&&◌, Option, none, some, List, [], ◌∷◌, ◌++◌, Bytes,
  Outcome, ok, err, panic, ◌>>=◌, ltb, leb, ◌==◌, eq_bytes, if◌then◌else◌, length,
}
use rust_proof.U64.{saturating_add, saturating_sub}
use rust_proof.BTreeMap
use rust_proof.BTreeMap.{BTreeMap}
use rust_proof.BTreeSet.{retain}
use rust_proof.Core.Crypto.{Crypto}
use rust_proof.Core.Models.{Block, Transaction}
use rust_proof.Core.Block
use rust_proof.Core.State.{State}
use rust_proof.Core.State.Codec.{to_bytes}
use rust_proof.Node.Report.{
  Report, parent_snapshot_missing, failed_importing_parked_block, failed_importing_block,
  block_added,
}
use rust_proof.Node.Network.{Postcard, NetworkMessage, announce_request, announce_transaction}
use rust_proof.Node.Network
use rust_proof.Node.Contract.{
  NodeAction, send_frame, persist_block, persist_snapshot, request_blocks, schedule_wake,
  cancel_wake, report_event, load_snapshot,
}
use rust_proof.Node.Blockchain.{Blockchain, ImportedBlock, NodeError, add_block}

abbrev pub request_timeout_ms : ℕ
request_timeout_ms = 30000

pub record PeerState : Type 0 where
  pub is_connected : Bool
  pub last_seen_ms : ℕ

pub record PendingRequest : Type 0 where
  pub peer : Bytes
  pub from_height : ℕ
  pub to_height : ℕ
  pub deadline_ms : ℕ

module _ ⦃c : Crypto⦄ where
  pub record ParkedBlock : Type 0 where
    pub peer : Bytes
    pub block : Block

  pub record NodeEngine : Type 0 where
    pub blockchain : Blockchain
    pub peers : BTreeMap PeerState
    pub pending_requests : List PendingRequest
    pub pending_blocks : BTreeMap (List ParkedBlock)
    pub current_time_ms : ℕ
    pub scheduled_wake_at_ms : Option ℕ

  -- `NodeEngine::new`
  abbrev pub new : Blockchain → NodeEngine
  new blockchain = record {
    blockchain = blockchain;
    peers = [];
    pending_requests = [];
    pending_blocks = [];
    current_time_ms = 0;
    scheduled_wake_at_ms = none;
  }

  -- What a call that cannot fail returns, unless it does not return.
  abbrev pub Run : Type 0 → Type 0
  Run A = Outcome ⊥ A

  abbrev pub Effect : Type 0
  Effect = NodeEngine × List NodeAction

  unfoldable pub prune_expired_requests : NodeEngine → ℕ → NodeEngine
  prune_expired_requests e now_ms = record e {
    pending_requests = retain (λ request. ltb now_ms request.deadline_ms) e.pending_requests;
  }

  -- `.map(|request| request.deadline_ms).min()`
  unfoldable pub next_deadline : List PendingRequest → Option ℕ
  next_deadline [] = none
  next_deadline (r ∷ rs) = elim (next_deadline rs) [
    | none ↦ some r.deadline_ms
    | some d ↦ some (min r.deadline_ms d)
  ]

  abbrev pub same_time : Option ℕ → Option ℕ → Bool
  same_time none none = true
  same_time (some a) (some b) = a == b
  same_time _ _ = false

  abbrev pub wake_action : Option ℕ → NodeAction
  wake_action none = cancel_wake
  wake_action (some at_ms) = schedule_wake at_ms

  unfoldable pub sync_wake_action : NodeEngine → NodeEngine × Option NodeAction
  sync_wake_action e =
      let next_wake_at_ms = next_deadline e.pending_requests in
      if same_time next_wake_at_ms e.scheduled_wake_at_ms
      then (e, none)
      else (record e { scheduled_wake_at_ms = next_wake_at_ms }, some (wake_action next_wake_at_ms))

  unfoldable pub queue_block_request : NodeEngine → Bytes → ℕ → ℕ → NodeEngine × NodeAction
  queue_block_request e peer from_height to_height = (
    record e {
      pending_requests =
          e.pending_requests
          ++ record {
            peer = peer;
            from_height = from_height;
            to_height = to_height;
            deadline_ms = saturating_add e.current_time_ms request_timeout_ms;
          }
            ∷ [];
    },
    request_blocks peer from_height to_height,
  )

  unfoldable pub request_parent_block : NodeEngine → Bytes → ℕ → Effect
  unfolding queue_block_request
  request_parent_block e peer parent_height =
      let (e', action) = queue_block_request e peer parent_height parent_height in
      (e', report_event parent_snapshot_missing ∷ action ∷ [])

  unfoldable pub continue_request : NodeEngine → PendingRequest → ℕ → NodeEngine × Option NodeAction
  unfolding queue_block_request
  continue_request e request next_height =
      let span = saturating_sub request.to_height request.from_height in
      let next_to_height =
        if leb next_height request.to_height
        then request.to_height
        else saturating_add next_height span in
      let (e', action) = queue_block_request e request.peer next_height next_to_height in
      if next_height == 0 then (e, none) else (e', some action)

  -- The actions for a block that has been imported.
  abbrev pub persist : Block → ImportedBlock → List NodeAction
  persist b imported =
      persist_block b ∷ persist_snapshot (Block.hash b) (to_bytes imported.next_state) ∷ []

  -- The loop of `import_parked_blocks`, given the call that it makes of that function.
  unfoldable pub import_each :
      (NodeEngine → Bytes → State → Run Effect)
      → NodeEngine
      → State
      → List ParkedBlock
      → List NodeAction
      → Run Effect
  import_each recur e parent_state [] actions = ok (e, actions)
  import_each recur e parent_state (parked ∷ rest) actions =
      elim (add_block e.blockchain parked.block parent_state) [
        | panic ↦ panic
        | err error ↦
            import_each recur e parent_state rest
              (actions ++ report_event failed_importing_parked_block ∷ [])
        | ok (blockchain, imported) ↦
            let e' = record e { blockchain = blockchain } in
            let actions' = actions ++ persist parked.block imported in
            elim imported.became_head [
              | true ↦ recur e' (Block.hash parked.block) imported.next_state >>= λ (e'', more).
                  import_each recur e'' parent_state rest (actions' ++ more)
              | false ↦ import_each recur e' parent_state rest actions'
            ]
      ]

  -- On fuel, since a call takes a key out of `pending_blocks` before it calls itself.
  unfoldable pub import_parked_loop : ℕ → NodeEngine → Bytes → State → Run Effect
  import_parked_loop zero e parent_hash parent_state = panic
  import_parked_loop (suc fuel) e parent_hash parent_state =
      elim (BTreeMap.get parent_hash e.pending_blocks) [
        | none ↦ ok (e, [])
        | some parked_blocks ↦
            import_each (import_parked_loop fuel)
              (record e { pending_blocks = BTreeMap.remove parent_hash e.pending_blocks })
              parent_state parked_blocks []
      ]

  unfoldable pub import_parked_blocks : NodeEngine → Bytes → State → Run Effect
  import_parked_blocks e = import_parked_loop (suc (length e.pending_blocks)) e

  unfoldable pub ingest_block : NodeEngine → Bytes → Block → Run Effect
  ingest_block e peer b =
      if eq_bytes e.blockchain.head_hash (Block.previous_hash b)
      then elim (add_block e.blockchain b e.blockchain.state) [
        | panic ↦ panic
        | err error ↦ ok (e, report_event failed_importing_block ∷ [])
        | ok (blockchain, imported) ↦
            let e' = record e { blockchain = blockchain } in
            let actions = persist b imported ++ report_event block_added ∷ [] in
            if imported.became_head
            then (import_parked_blocks e' (Block.hash b) imported.next_state >>= λ (e'', more).
                ok (e'', actions ++ more))
            else ok (e', actions)
      ]
      else ok (
        record e {
          pending_blocks =
              BTreeMap.update (Block.previous_hash b) []
                (λ parked. parked ++ record { peer = peer; block = b } ∷ []) e.pending_blocks;
        },
        load_snapshot (Block.previous_hash b) ∷ [],
      )

module _ ⦃c : Crypto⦄ ⦃p : Postcard⦄ where
  -- One frame for every connected peer but the one that the transaction came from.
  unfoldable pub relay_to : Bytes → Bytes → BTreeMap PeerState → List NodeAction
  relay_to source_peer frame [] = []
  relay_to source_peer frame ((peer, state) ∷ peers) =
      let rest = relay_to source_peer frame peers in
      if not (eq_bytes peer source_peer) && state.is_connected
      then send_frame peer frame ∷ rest
      else rest

  unfoldable pub relay_transaction : NodeEngine → Bytes → Transaction → Run (List NodeAction)
  relay_transaction e source_peer tx =
      Network.to_bytes (announce_request (announce_transaction tx)) >>= λ frame.
      ok (relay_to source_peer frame e.peers)
