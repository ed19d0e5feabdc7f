-- ===== src/Store.antt =====
-- The crate cone-store: the encrypted database and the operations on it.
pub mod Models
pub mod Db
pub mod Handle
pub mod Crypto
pub mod Listing
pub mod Routes
pub mod Exec
pub mod Delete
pub mod Integrity
pub mod Import
pub mod Backup
pub mod Export
pub mod Keyring
pub mod Samples
mod Runs
