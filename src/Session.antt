-- ===== src/Session.antt =====
-- `USMPSession` of src/usmp/_session.py. A method takes the session to a result and the session
-- that follows, also when it raises: what was written stays written. `Send` has the sending side,
-- `Recv` the receiving side; the other children prove.
pub mod State
pub mod Send
pub mod Recv
pub mod Nonce
pub mod Kept
pub mod Steps
pub mod Packet
pub mod Turn
pub mod Exchange
pub mod Deliver
pub mod Drop
pub mod Once
pub mod Piece
pub mod Whole
pub mod Lossy
pub mod Accept
pub mod Authentic
mod Tests
