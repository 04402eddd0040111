-- ===== src/Store.antt =====
-- internal/store/store.go: the metadata tables, over SQLite. A table is the list of its rows.
pub mod Rows
pub mod Users
pub mod Sessions
pub mod Shares
pub mod Like
pub mod Versions
pub mod Stars
pub mod Events
pub mod Etags
