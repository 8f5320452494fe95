-- ===== src/Sip.antt =====
-- The SIP trunk of the honeypot.
pub mod Udp
pub mod OneEach
pub mod Idle
pub mod Sticky
pub mod Message
pub mod Session
pub mod Calls
pub mod Headers
pub mod Invite
pub mod Worker
pub mod Secret
pub mod OnlyInvite
pub mod Reported
pub mod RoundTrip
mod Runs
mod Examples
