-- ===== src/Consensus.antt =====
-- The package `consensus`: its messages, the query store and the engine's parts.
pub mod Operation
pub mod Query
pub mod Version
pub mod Driver
pub mod QueryStore
pub mod Engine
pub mod Persistence
