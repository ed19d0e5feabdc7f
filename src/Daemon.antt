-- ===== src/Daemon.antt =====
-- The crate coned: the daemon.
pub mod Utf8
pub mod Numbers
pub mod Fields
pub mod Address
pub mod Monitor
pub mod Routing
pub mod Wire
pub mod Ipc
pub mod Hardening
pub mod Start
pub mod Servers
pub mod Sockets
pub mod Ssh
pub mod Samples
mod Runs
