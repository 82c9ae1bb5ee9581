-- ===== src/Handlers/Requests.antt =====
-- handlers/policy.go: policy changes that are requested, and applied when enough unseal keys have
-- been entered. Here is what the handlers of requests share; each has a module of its own.
pub mod Tokens
pub mod Verify
pub mod Root
pub mod Diffs
pub mod Add
pub mod View
pub mod Update
pub mod Commit
pub mod Remove
pub mod Dispatch
pub mod Quorum
pub mod Cleanup
pub mod Progress
pub mod Memory
pub mod Pending
