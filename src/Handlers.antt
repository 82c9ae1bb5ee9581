-- ===== src/Handlers.antt =====
-- The package `handlers`: what each route of the API does with a request.
pub mod Responses
pub mod Session
pub mod Accounts
pub mod Users
pub mod Secrets
pub mod Mounts
pub mod Transit
pub mod Wrapping
pub mod Policies
pub mod Requests
