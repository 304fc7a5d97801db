-- ===== src/Helper.antt =====
-- helper/src/main.rs, the program with the privilege over the network that the daemon calls.
pub mod Rules
pub mod Passes
pub mod Machine
pub mod Killswitch
pub mod Pids
pub mod Sockets
pub mod Pins
pub mod Kernel
pub mod Routes
pub mod Up
pub mod Down
pub mod Trace
pub mod Armed
pub mod Plan
pub mod Planned
pub mod Whole
pub mod Rollback
pub mod Ended
pub mod Args
pub mod Samples
mod Tests
