-- ===== src/Handlers.antt =====
-- The event handlers of eth/pbft-core.go, each a function of the node's state, the message and the
-- time.
pub mod Txs
pub mod Transfer
pub mod Request
pub mod PrePrepare
pub mod Prepare
pub mod Commit
pub mod Checkpoint
