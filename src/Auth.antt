-- ===== src/Auth.antt =====
-- Logins: cowrie/src/cowrie/core/auth.py.
pub mod UserDb
pub mod Policy
pub mod Random
pub mod Attempts
pub mod Turns
pub mod Cache
mod Examples
