-- ===== src/Handshake.antt =====
-- src/usmp/_handshake.py: the limiter of failed handshakes, the resolution of the pre-shared key,
-- and both sides of the handshake; the other children prove.
pub mod Limiter
pub mod Psk
pub mod State
pub mod Server
pub mod Client
pub mod Steps
pub mod Runs
pub mod Setting
pub mod Honest
pub mod Agree
pub mod Proof
pub mod Verified
mod Tests
