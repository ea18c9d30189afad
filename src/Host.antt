-- ===== src/Host.antt =====
-- rp-runtime: the runtime of a host.
pub mod Errors
pub mod Hello
pub mod Contract
pub mod Network
pub mod Nodes
pub mod Wake
pub mod Storage
