-- ===== src/Pool.antt =====
-- The backend pool: cowrie/src/backend_pool and cowrie/src/cowrie/pool_interface.
pub mod Guest
pub mod Backend
pub mod State
pub mod Producer
pub mod Consumer
pub mod Service
pub mod Steps
pub mod Laws
pub mod Nat
pub mod Server
pub mod Client
pub mod Wire
mod Examples
