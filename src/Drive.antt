-- ===== src/Drive.antt =====
-- internal/fsdrv/fsdrv.go: the storage driver.
pub mod Paths
pub mod Resolve
pub mod Trash
pub mod Moves
pub mod Entries
pub mod Upload
pub mod Folders
pub mod Walk
pub mod Layout
pub mod Versions
