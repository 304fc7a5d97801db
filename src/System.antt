-- ===== src/System.antt =====
-- daemon/src/system.rs: the backend of the daemon over the operating system, lines 551 to 1155. The
-- operating system is a `Host`, whose state `W` the calls pass on. The readers of the log pipes are not
-- part of this module. The checks of the Xray documents are an argument, which `Probe` fills.
pub mod Host
pub mod Parts
pub mod Backend
pub mod Tidy
pub mod Calls
pub mod Enforced
pub mod Ready
pub mod Detail
pub mod Samples
pub mod Trust
pub mod Probe
pub mod Accepted
mod Joined
mod Checked
mod Tests
