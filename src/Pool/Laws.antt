-- ===== src/Pool/Laws.antt =====
-- What is proved of the pool service, by subject.
pub mod Positions
pub mod Requests
pub mod Sharing
pub mod Returns
pub mod Fields
pub mod Addresses
pub mod Invariant
pub mod Size
pub mod Replenish
pub mod Stall
pub mod Stops
pub mod Destroyed
pub mod Lifecycle
