-- ===== src/Vault.antt =====
-- The package `vault`: what Goldfish does with HashiCorp Vault, a module for each of its files.
pub mod Clients
pub mod Auth
pub mod Login
pub mod Secrets
pub mod Mounts
pub mod Policies
pub mod Transit
pub mod Wrap
pub mod Users
pub mod Bulletins
pub mod Helper
pub mod Settings
pub mod Start
