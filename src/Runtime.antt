-- ===== src/Runtime.antt =====
-- erp-runtime and rp-codec: what the runtimes keep beside the node engine.
pub mod Frame
pub mod PeerRegistry
pub mod Network
pub mod Wake
pub mod Utf8
pub mod Multistream
pub mod Session
