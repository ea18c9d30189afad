-- ===== src/Tests/Restart.antt =====
-- The desktop runtime's storage, node manager and wake loop at concrete inputs.
use rust_proof.Base.{
  ◌≡◌, ◌⊎◌, refl, Bool, true, none, some, List, [], ◌∷◌, Bytes, ok, err, ◌++◌, arith,
}
use rust_proof.BTreeMap
use rust_proof.U64.{saturating_add}
use rust_proof.Core.Block
use rust_proof.Core.Models.{Block, block, no_transactions, no_proofs}
use rust_proof.Core.State.Merkle.{compute_state_root}
use rust_proof.Core.State.Codec.{to_bytes}
use rust_proof.Node.Report.{startup_restored}
use rust_proof.Node.Blockchain.{rooted, get_latest_block}
use rust_proof.Node.Engine.{
  NodeEngine, new, PendingRequest, queue_block_request, sync_wake_action, next_deadline,
}
use rust_proof.Node.Engine.Step.{step, handle, on_peer_connected, with_wake, reported}
use rust_proof.Host.Errors.{contract, storage, ChannelKind}
use rust_proof.Host.Contract.{
  RuntimeEvent, tick, load_latest_snapshot, persist_block, persist_snapshot, peer_connected,
  request_blocks, schedule,
}
use rust_proof.Host.Nodes.{
  SentCommand, to_network, to_wake, take_event, turn, turns, handle_action, handle_actions,
}
use rust_proof.Host.Wake.{wake_turn, first_tick_at_ms, command_received, slept_until}
use rust_proof.Host.Wake.Live.{Reach, starts, arrives, takes_event, takes_command, runs_off}
use rust_proof.Host.Contract.{schedule}
use rust_proof.Host.Storage.{
  storage_turn, latest_snapshot_key, blocks, snapshots, meta, save_block, save_snapshot,
  map_storage_error, flush,
}
use rust_proof.Host.Storage.Restart.{storage_turn-restores}
use rust_proof.Tests.Toy.{alice, toy}
use rust_proof.Tests.Data.{funded, zeros}
use rust_proof.Tests.Node.{base, genesis_known}
use rust_proof.Tests.State.{funded-IsOrdered, funded-Fits}
use rust_proof.Tests.Desktop.{toy_postcard, toy_sled, toy_block_codec, Trees, empty_db, write}

abbrev stored : Block
stored = block 3 3 zeros alice no_transactions none no_proofs (compute_state_root funded)

abbrev with_block : Trees
with_block =
    write empty_db blocks (Block.hash stored) (3 ∷ 3 ∷ 2 ∷ 32 ∷ zeros ++ compute_state_root funded)

abbrev with_both : Trees
with_both =
    write (write with_block snapshots (Block.hash stored) (to_bytes funded)) meta
      latest_snapshot_key (Block.hash stored)

saves_block : storage_turn true empty_db (persist_block stored) ≡ ok (with_block, [])
unfolding storage_turn save_block map_storage_error flush
saves_block = refl

saves_snapshot :
    storage_turn true with_block (persist_snapshot (Block.hash stored) (to_bytes funded))
    ≡ ok (with_both, [])
unfolding storage_turn save_snapshot map_storage_error flush
saves_snapshot = refl

storage_turn-restores_example :
    (storage_turn true with_both load_latest_snapshot ≡ err (contract storage))
    ⊎ ((event : RuntimeEvent) × (storage_turn true with_both load_latest_snapshot
          ≡ ok (with_both, event ∷ []))
        × (take_event (new base) event
            ≡ ok (
              record (new base) { blockchain = rooted stored funded },
              reported startup_restored,
            )))
storage_turn-restores_example =
    storage_turn-restores true empty_db with_block with_both (new base) stored funded saves_block
      saves_snapshot funded-IsOrdered funded-Fits refl

abbrev peer_one : Bytes
peer_one = 1 ∷ []

abbrev request : PendingRequest
request = record { peer = peer_one; from_height = 1; to_height = 100; deadline_ms = 30000 }

-- The engine behind the connection of a peer, from which it has asked for blocks.
abbrev asking : NodeEngine
asking = record (new base) {
  peers = (peer_one, record { is_connected = true; last_seen_ms = 0 }) ∷ [];
  pending_requests = request ∷ [];
  scheduled_wake_at_ms = some 30000;
}

abbrev all_open : ChannelKind → Bool
all_open channel = true

abbrev connects : RuntimeEvent
connects = peer_connected peer_one

abbrev sent_first : List SentCommand
sent_first = to_network (request_blocks peer_one 1 100) ∷ to_wake (schedule 30000) ∷ []

turn_first : turn all_open (new base) connects ≡ ok (asking, sent_first)
unfolding turn take_event step handle on_peer_connected get_latest_block queue_block_request
    saturating_add with_wake sync_wake_action next_deadline handle_actions handle_action
    BTreeMap.insert
turn_first = rw (genesis_known, turn) refl

turns_first : turns all_open (new base) (connects ∷ []) ≡ ok (asking, sent_first)
unfolding turns
turns_first = rw turn_first refl

command_taken :
    wake_turn true (first_tick_at_ms 5) (command_received (schedule 30000)) ≡ ok (some 30000, [])
unfolding wake_turn
command_taken = refl

-- A peer connects, the node manager asks it for blocks, the wake loop takes the command, and its
-- timer runs off.
abbrev asked_run : Reach (new base) (some 30000) asking [] []
asked_run =
    takes_command (takes_event all_open (arrives connects (starts 5)) turn_first) command_taken

ran_off : wake_turn true (some 30000) (slept_until 30002) ≡ ok (none, tick 30002 ∷ [])
unfolding wake_turn
ran_off = refl

abbrev ticking_run : Reach (new base) none asking (tick 30002 ∷ []) []
ticking_run = runs_off 30002 asked_run ran_off (omega arith)
