-- ===== src/Node.antt =====
-- rp-node: the pool of pending transactions, the tree of blocks, and the engine that turns inputs
-- into actions.
pub mod Report
pub mod Mempool
pub mod Blockchain
pub mod Network
pub mod Contract
pub mod Engine
