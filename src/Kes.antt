-- ===== src/Kes.antt =====
-- The key-evolving signatures of spectrum-kes/src.
pub mod Utils
pub mod Scheme
pub mod Update
pub mod Sign
pub mod Tree
pub mod Bits
pub mod Generation
pub mod Anchor
pub mod Copying
pub mod Evolution
pub mod Signing
mod Examples
