-- ===== src/Tests.antt =====
-- Concrete inputs: the theorems at them, and runs of the code.
mod Toy
mod Data
mod State
mod Rules
mod Node
mod Engine
mod Runtime
mod Desktop
mod Host
mod Restart
mod Sessions
mod Sync
mod Handshake
mod Identify
