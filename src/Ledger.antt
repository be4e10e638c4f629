-- ===== src/Ledger.antt =====
-- Transactions of spectrum-ledger/src and their linking and evaluation in spectrum-view/src/state.
pub mod Cells
pub mod Linking
pub mod Evaluation
pub mod Linked
pub mod Checked
pub mod Pipeline
mod Examples
