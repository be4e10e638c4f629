-- ===== src/Network.antt =====
-- The network controller: spectrum-network/src/network_controller.rs.
pub mod State
pub mod Controller
pub mod HandlerEvents
pub mod Instructions
pub mod Requests
pub mod Polling
pub mod Connecting
pub mod Invariant
pub mod Handling
pub mod EventHandling
pub mod Answers
pub mod Runs
pub mod Away
pub mod AwayPolling
pub mod Waiting
pub mod Dialling
pub mod Rejection
pub mod Delivery
pub mod Incoming
pub mod Surplus
mod Examples
