-- ===== src/Consensus/QueryStore.antt =====
-- consensus/query_store.go: the store of queries and endorsements. The definitions stand in the
-- children `State`, `Insert` and `Check`, and the proofs in the others.
pub mod State
pub mod Insert
pub mod Check
pub mod View
pub mod Meaning
pub mod Evaluate
pub mod Unique
pub mod Termination
pub mod Marking
pub mod Terminal
pub mod States
pub mod Arrivals
pub mod Decision
pub mod Forward
pub mod Reachable
pub mod Once
pub mod Cascade
pub mod Returning
pub mod Sizes
pub mod Checking
pub mod Settling
pub mod Outdated
