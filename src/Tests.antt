-- ===== src/Tests.antt =====
-- Runs of the definitions, and the theorems at concrete inputs.
pub mod Paths
pub mod Drive
pub mod Shares
pub mod Users
pub mod Sessions
pub mod Store
pub mod Versions
pub mod Tokens
pub mod Requests
pub mod Trash
pub mod Blobs
pub mod Uploads
pub mod Sync
pub mod Walks
pub mod Codec
pub mod Handlers
pub mod Accounts
pub mod Visits
pub mod Links
