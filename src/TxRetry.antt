-- ===== src/TxRetry.antt =====
-- The retry scheduler of spectrum-ergo-connector/src/rocksdb/tx_retry_scheduler.rs.
pub mod Scheduler
pub mod Retries
mod Examples
