-- ===== src/Server.antt =====
-- `USMPServer` of src/usmp/_server.py and `UDPListener` of src/usmp/transport/udp.py: who gets in.
-- `Dict` has dictionaries, `State` the state, `Connect` the admission and the end of a connection;
-- the other children prove.
pub mod Dict
pub mod State
pub mod Connect
pub mod Counts
pub mod Bucket
pub mod Listener
pub mod Admit
pub mod Start
pub mod Live
pub mod Sound
pub mod Run
pub mod Handle
pub mod Balance
pub mod Expire
pub mod Owned
pub mod Release
pub mod Watchdog
pub mod Setup
pub mod Stop
pub mod Held
pub mod Turns
pub mod Lifecycle
pub mod Shutdown
pub mod Idle
mod Tests
pub mod Rate
