-- ===== src/Handlers/Requests/Quorum.antt =====
-- handlers/policy.go: what the two updates write, and what they did before.
pub mod Calls
pub mod Steps
pub mod Request
pub mod Compare
pub mod Commit
