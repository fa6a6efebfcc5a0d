-- ===== src/Network.antt =====
-- The packages under `network`: the packet format, and the recovery of a key from peers.
pub mod Protocol
pub mod Recovery
pub mod Gossipsub
pub mod Redis
