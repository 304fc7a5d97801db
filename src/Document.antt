-- ===== src/Document.antt =====
-- daemon/src/system.rs, the checks of the Xray documents that the desktop client sends, and the ports of
-- its validation document. `serde_json` is the record `Json.Parser`.
pub mod Json
pub mod Checks
pub mod Files
pub mod Counts
pub mod Tags
pub mod Outbounds
pub mod Permitted
pub mod Ping
pub mod Loopback
pub mod Routed
pub mod Proxies
pub mod Measured
pub mod Ports
pub mod Ported
pub mod Reserved
pub mod Samples
mod Tests
