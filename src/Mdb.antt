-- ===== src/Mdb.antt =====
-- internal/mdb: access to the databases.
pub mod Errors
pub mod Exec
pub mod Sql
pub mod Types
pub mod Schema
pub mod Query
pub mod Driver
pub mod Pool
pub mod Store
pub mod Probe
pub mod Catalog
pub mod Listing
