-- ===== src/Updater.antt =====
-- internal/updater/updater.go: the develop channel. The network, the archive, the new binary's own
-- version output and the faults of the file system are parameters.
pub mod Swap
pub mod Develop
pub mod Verified
pub mod Requests
pub mod Release
pub mod Fetching
mod Tests
