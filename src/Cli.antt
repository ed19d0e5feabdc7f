-- ===== src/Cli.antt =====
-- The crate cone-cli: the command line tool.
pub mod Client
pub mod Output
pub mod Cmd
pub mod Tool
pub mod Commands
pub mod Command
pub mod Main
mod Runs
