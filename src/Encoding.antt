-- ===== src/Encoding.antt =====
-- The package `consensus/encoding`: the binary forms of the database's values.
pub mod Uint64
pub mod Set
