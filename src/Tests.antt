-- ===== src/Tests.antt =====
-- The theorems at concrete data: a Vault and a GitHub that answer, and requests of one user.
mod Sample
mod Routes
mod Changes
mod Background
mod Deployment
mod Running
mod Store
mod Lifecycle
