-- ===== src/Storage.antt =====
-- The package `storage`: the driver of the database.
pub mod Bolt
