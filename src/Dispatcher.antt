-- ===== src/Dispatcher.antt =====
-- core/src/dispatcher.rs: the dispatch of the events in the outbox table of a module to a delivery
-- port, by workers that lease one event at a time.
pub mod Types
pub mod Delivery
pub mod Table
pub mod Operations
pub mod Dispatch
pub mod Rows
pub mod Invariant
pub mod Selection
pub mod Steps
pub mod Order
pub mod Lease
pub mod Effects
pub mod Holders
pub mod Claim
pub mod Grants
pub mod Progress
pub mod Acceptance
pub mod Outcomes
pub mod Samples
mod Tests
