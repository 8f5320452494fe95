-- ===== src/Telnet.antt =====
-- The Telnet proxy, cowrie/src/cowrie/telnet_proxy/handler.py, and the terminal logs,
-- cowrie/src/cowrie/core/ttylog.py.
pub mod Bytes
pub mod Handler
pub mod Typed
pub mod Checked
pub mod Password
pub mod Ttylog
pub mod Hashed
mod Runs
