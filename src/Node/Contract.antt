-- ===== src/Node/Contract.antt =====
-- rp-node/src/contract.rs: what the engine is told, and what it asks its runtime to do.
use rust_proof.Base.{ℕ, Option, Bytes}
use rust_proof.Core.Crypto.{Crypto}
use rust_proof.Core.Models.{Block, Transaction}
use rust_proof.Node.Report.{Report}

pub data PersistCompletedType : Type 0 where
  snapshot block : PersistCompletedType

module _ ⦃c : Crypto⦄ where
  pub data NodeInput : Type 0 where
    tick : ℕ → NodeInput
    connected disconnected : Bytes → NodeInput
    -- peer, frame
    frame_received : Bytes → Bytes → NodeInput
    local_transaction : Transaction → NodeInput
    -- block hash, state bytes
    storage_loaded : Bytes → Option Bytes → NodeInput
    persist_completed : PersistCompletedType → NodeInput
    -- peer, from height, to height
    import_requested : Bytes → ℕ → ℕ → NodeInput

  pub data NodeAction : Type 0 where
    -- peer, frame
    send_frame : Bytes → Bytes → NodeAction
    broadcast_frame : Bytes → NodeAction
    persist_block : Block → NodeAction
    -- block hash, state bytes
    persist_snapshot : Bytes → Bytes → NodeAction
    -- peer, from height, to height
    request_blocks : Bytes → ℕ → ℕ → NodeAction
    schedule_wake : ℕ → NodeAction
    cancel_wake : NodeAction
    disconnect_peer : Bytes → NodeAction
    report_event : Report → NodeAction
    frame_seen : Bytes → NodeAction
    persist_seen : PersistCompletedType → NodeAction
    load_snapshot : Bytes → NodeAction
