-- ===== src/Trust.antt =====
-- Whose token a call to Vault carries.
pub mod Root
pub mod Calls
pub mod Methods
pub mod Users
pub mod Server
pub mod Requests
pub mod Changes
pub mod Routes
pub mod Serve
