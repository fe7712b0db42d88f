-- ===== src/Network.antt =====
-- The protocol of eth/handler.go and eth/peer.go: what goes over the wire, how it is signed, who the
-- peers are, and how a packet that comes in reaches the node.
pub mod Wire
pub mod Envelope
pub mod Peers
pub mod Manager
pub mod Broadcast
pub mod Dispatch
pub mod Agreement
pub mod Sessions
