-- ===== src/Keyring.antt =====
-- keyring/: the members' public keys, and how far each is trusted.
pub mod Trust
pub mod Web
pub mod Rooted
pub mod Rounds
pub mod Ring
