-- ===== src/Consensus/Engine.antt =====
-- consensus/engine.go, consensus/signatures.go and consensus/recovery.go: the engine that joins the
-- query store, the storage, the key ring, the network and the veto consensus.
pub mod Node
pub mod Apply
pub mod Sequence
pub mod Atomic
pub mod Signing
pub mod Conflicts
pub mod Endorse
pub mod Handlers
pub mod Steps
pub mod Pool
pub mod Recovery
pub mod History
pub mod Justified
