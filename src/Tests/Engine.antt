-- ===== src/Tests/Engine.antt =====
-- The engine at concrete inputs.
use rust_proof.Base.{
  ◌≡◌, ◌≢◌, refl, none, some, Option, List, [], ◌∷◌, Bytes, ok, eq_bytes_iff, ◌⊎◌, ◌++◌,
}
use rust_proof.U64.{saturating_add}
use rust_proof.Core.Block
use rust_proof.Node.Network.{
  Postcard, NetworkMessage, announce_request, sync_request, sync_response, announce_response,
}
use rust_proof.Node.Contract.{
  frame_received, import_requested, NodeAction, request_blocks, schedule_wake,
}
use rust_proof.Node.Engine.{
  NodeEngine, new, import_parked_blocks, queue_block_request, sync_wake_action, next_deadline,
}
use rust_proof.Node.Engine.Step.{step, handle, with_wake, on_import_requested}
use rust_proof.Node.Engine.Wake.{timer_after, IsTimerFor}
use rust_proof.Node.Engine.Timer.{step-timer}
use rust_proof.Node.Engine.Parked.{Returns, import_parked_blocks-Returns}
use rust_proof.Node.Engine.Total.{step-returns}
use rust_proof.Node.Blockchain.Returns.{HasHead, IsChain-HasHead}
use rust_proof.Tests.Toy.{toy}
use rust_proof.Tests.Data.{funded, genesis, first}
use rust_proof.Tests.Node.{base, base_is_chain}
use rust_proof.Core.Models.{Block, no_transactions}
use rust_proof.Core.State.Merkle.{compute_state_root}
use rust_proof.Core.State.Codec.{to_bytes, from_bytes}
use rust_proof.Core.State.Codec.Roundtrip.{from_bytes-to_bytes}
use rust_proof.Node.Report.{startup_restored}
use rust_proof.Node.Blockchain.{rooted, restore_head}
use rust_proof.Node.Engine.Step.{restore_latest_snapshot, reported}
use rust_proof.Node.Engine.Restore.{IsRestored, restore_latest_snapshot-IsRestored}
use rust_proof.Tests.Data.{block_of, zeros}
use rust_proof.Tests.State.{funded-IsOrdered, funded-Fits}

-- A stand-in for `postcard` that reads a request for blocks only.
abbrev write_message : NetworkMessage → Bytes
write_message (announce_request _) = 0 ∷ []
write_message (sync_request request) = 1 ∷ request.from_height ∷ request.to_height ∷ []
write_message (sync_response _) = 2 ∷ []
write_message (announce_response _) = 3 ∷ []

abbrev read_message : Bytes → Option NetworkMessage
read_message (tag ∷ from_height ∷ to_height ∷ []) =
    some (sync_request (record { from_height = from_height; to_height = to_height }))
read_message _ = none

instance abbrev toy_postcard : Postcard
toy_postcard = record {
  to_allocvec = λ message. some (write_message message);
  from_bytes = read_message;
}

abbrev engine : NodeEngine
engine = new base

abbrev peer_one : Bytes
peer_one = 1 ∷ []

-- The engine behind a request to the peer for the blocks from 1 to 5.
abbrev asking : NodeEngine
asking = record engine {
  pending_requests =
      record { peer = peer_one; from_height = 1; to_height = 5; deadline_ms = 30000 } ∷ [];
  scheduled_wake_at_ms = some 30000;
}

asks :
    step engine (import_requested peer_one 1 5)
    ≡ ok (asking, request_blocks peer_one 1 5 ∷ schedule_wake 30000 ∷ [])
unfolding step handle on_import_requested queue_block_request saturating_add with_wake
    sync_wake_action next_deadline
asks = refl

step-timer_example :
    (timer_after none (request_blocks peer_one 1 5 ∷ schedule_wake 30000 ∷ []) ≡ some 30000)
    × IsTimerFor (some 30000) asking.pending_requests
step-timer_example =
    step-timer engine asking (import_requested peer_one 1 5)
      (request_blocks peer_one 1 5 ∷ schedule_wake 30000 ∷ []) none refl asks

-- The first block waits for the genesis.
abbrev waiting : NodeEngine
waiting = record engine {
  pending_blocks = (Block.hash genesis, record { peer = peer_one; block = first } ∷ []) ∷ [];
}

import_parked_blocks-Returns_example :
    Returns 1 (import_parked_blocks waiting (Block.hash genesis) funded)
import_parked_blocks-Returns_example =
    import_parked_blocks-Returns waiting (Block.hash genesis) funded
      (IsChain-HasHead base base_is_chain)

step-returns_example :
    (e' : NodeEngine) × (actions : List NodeAction) × (step engine
        (frame_received peer_one (1 ∷ 0 ∷ 5 ∷ []))
      ≡ ok (e', actions))
    × HasHead e'.blockchain
step-returns_example =
    step-returns engine (frame_received peer_one (1 ∷ 0 ∷ 5 ∷ []))
      (λ message. (write_message message, refl)) base_is_chain tt

-- A block with the state root of the funded state, and that state as a snapshot.
abbrev stored : Block
stored = block_of 3 3 zeros no_transactions (compute_state_root funded)

abbrev snapshot_bytes : Bytes
snapshot_bytes = to_bytes funded ++ []

abbrev restored : NodeEngine
restored = record engine { blockchain = rooted stored funded }

snapshot_read : from_bytes snapshot_bytes ≡ ok funded
snapshot_read = from_bytes-to_bytes funded [] funded-IsOrdered funded-Fits

starts :
    restore_latest_snapshot engine (some stored) (some snapshot_bytes)
    ≡ ok (restored, reported startup_restored)
unfolding restore_latest_snapshot restore_head
starts =
    rw
      (
        snapshot_read,
        (eq_bytes_iff (compute_state_root funded) (compute_state_root funded)).1 refl,
        restore_latest_snapshot,
      )
      refl

restore_latest_snapshot-IsRestored_example :
    ((reported startup_restored ≡ reported startup_restored)
      × IsRestored restored stored snapshot_bytes)
    ⊎ ((restored ≡ engine) × (reported startup_restored ≢ reported startup_restored))
restore_latest_snapshot-IsRestored_example =
    restore_latest_snapshot-IsRestored engine restored stored snapshot_bytes
      (reported startup_restored) starts
