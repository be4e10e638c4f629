-- ===== src/Connection.antt =====
-- The handler of a connection: spectrum-network/src/peer_conn_handler.rs.
pub mod Handler
pub mod Substreams
pub mod Transitions
pub mod Opening
mod Examples
