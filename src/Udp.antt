-- ===== src/Udp.antt =====
-- `UDPStream` of src/usmp/transport/udp.py: a stream of frames over datagrams, with
-- acknowledgements (UTACK) and stop-and-wait retransmission. `Stream` has the state and
-- the receiving side, `Send` the sending one; the other children prove.
pub mod Stream
pub mod Send
pub mod Buffer
pub mod Read
pub mod Queue
pub mod Ack
pub mod Reply
pub mod Drain
pub mod Deliver
pub mod Lost
pub mod Network
pub mod Meet
pub mod Resend
pub mod Copies
pub mod Timing
mod Tests
