-- ===== src/SshProxy.antt =====
-- The protocol watchers of the SSH proxy, cowrie/src/cowrie/ssh_proxy/protocols.
pub mod Term
pub mod Loops
pub mod Editor
pub mod Halves
pub mod Follows
pub mod Fuel
pub mod Ascii
pub mod Typing
pub mod Cursor
pub mod Completion
pub mod BaseProtocol
pub mod Reassembly
pub mod Pieces
pub mod Sftp
pub mod Transfers
mod Examples
mod Watched
