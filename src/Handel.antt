-- ===== src/Handel.antt =====
-- The Handel aggregation of spectrum-handel/src.
pub mod Partitioning
pub mod Overlay
pub mod Orders
pub mod State
pub mod Aggregation
pub mod Sending
pub mod Round
pub mod Verified
pub mod Contributions
pub mod Choice
pub mod Progress
mod Examples
