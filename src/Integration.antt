-- ===== src/Integration.antt =====
-- cmd/integration/main.go: the checks that are run against a server of its own.
pub mod Aliases
pub mod Quoting
pub mod Rows
pub mod Client
pub mod Waiting
pub mod Database
pub mod Served
pub mod Program
mod Tests
