-- ===== src/Host/Contract.antt =====
-- rp-runtime/src/runtime/manager.rs: what the managers of the runtime tell each other.
use rust_proof.Base.{ℕ, Option, Bytes}
use rust_proof.Core.Crypto.{Crypto}
use rust_proof.Core.Models.{Block}

-- peer, from height, to height
pub data NetworkCommand : Type 0 where
  send_frame : Bytes → Bytes → NetworkCommand
  broadcast_frame : Bytes → NetworkCommand
  disconnect_peer : Bytes → NetworkCommand
  request_blocks : Bytes → ℕ → ℕ → NetworkCommand

pub data WakeCommand : Type 0 where
  schedule : ℕ → WakeCommand
  cancel : WakeCommand

module _ ⦃c : Crypto⦄ where
  pub data RuntimeEvent : Type 0 where
    tick : ℕ → RuntimeEvent
    peer_connected peer_disconnected : Bytes → RuntimeEvent
    -- peer, frame
    frame_received : Bytes → Bytes → RuntimeEvent
    -- block hash, state bytes
    storage_loaded : Bytes → Option Bytes → RuntimeEvent
    latest_snapshot_loaded : Option Block → Option Bytes → RuntimeEvent

  pub data StorageCommand : Type 0 where
    load_latest_snapshot : StorageCommand
    persist_block : Block → StorageCommand
    -- block hash, state bytes
    persist_snapshot : Bytes → Bytes → StorageCommand
    load_snapshot : Bytes → StorageCommand
