-- ===== src/Node/Report.antt =====
-- The messages of rp-node: a `&'static str` of the source is a constructor that is named after it.
pub data Report : Type 0 where
  -- mempool.rs and blockchain.rs, as errors
  fee_too_low failed_to_evict invalid_pool_transaction : Report
  -- node_engine.rs
  no_snapshot_restored invalid_startup_snapshot startup_root_mismatch startup_restored : Report
  parent_snapshot_missing failed_importing_parked_block failed_importing_block block_added : Report
  peer_connected peer_disconnected invalid_frame invalid_transaction : Report
  invalid_snapshot unexpected_snapshot_result : Report
