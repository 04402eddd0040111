-- ===== src/Api.antt =====
-- internal/api: the HTTP handlers over the store and the storage driver.
pub mod ShareTarget
pub mod Limiter
pub mod Auth
pub mod Grants
pub mod ShareIndex
pub mod History
pub mod Handlers
pub mod FileHandlers
pub mod Accounts
pub mod ShareHandlers
