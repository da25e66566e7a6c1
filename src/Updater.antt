-- ===== src/Updater.antt =====
-- rust/src/updater: how a downloaded update is put in place.
pub mod Marker
pub mod Exec
pub mod Disk
pub mod World
pub mod Rollback
pub mod Cleanup
pub mod Register
pub mod Apply
pub mod Recover
pub mod Recoverable
