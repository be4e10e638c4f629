-- ===== src/Diffusion.antt =====
-- The diffusion of blocks: spectrum-diffusion/src.
pub mod Service
pub mod Behaviour
pub mod Verdicts
pub mod Sync
mod Examples
