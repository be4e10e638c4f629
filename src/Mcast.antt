-- ===== src/Mcast.antt =====
-- The multicasting of spectrum-mcast/src.
pub mod Overlay
pub mod Heap
pub mod Occurrences
pub mod Symmetry
pub mod Agreement
pub mod Multicasting
pub mod Broadcast
mod Examples
