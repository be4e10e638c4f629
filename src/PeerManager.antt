-- ===== src/PeerManager.antt =====
-- The peer manager of spectrum-network/src/peer_manager.rs and its modules.
pub mod Data
pub mod Index
pub mod Ranking
pub mod Handles
pub mod Repo
pub mod Manager
pub mod Protocols
pub mod Events
pub mod Poll
pub mod Soundness
pub mod Invariant
pub mod Incoming
pub mod Reports
pub mod Backoff
pub mod Selection
pub mod Allocation
mod Examples
