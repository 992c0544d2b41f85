-- ===== src/Vault.antt =====
-- src/vault.rs: the local encrypted store.
pub mod Fail
pub mod Guard
pub mod Frames
pub mod Keyring
pub mod Store
pub mod Edit
pub mod Listing
pub mod Keys
pub mod Transfer
pub mod Creation
