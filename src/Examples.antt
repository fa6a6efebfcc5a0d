-- ===== src/Examples.antt =====
-- Runs of the code at concrete inputs, in which the theorems about it apply.
mod Store
mod Evaluation
mod Values
mod Messages
mod Members
mod Cluster
mod Reload
mod Once
mod Gossip
mod Service
mod Peers
