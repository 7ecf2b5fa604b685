-- ===== src/Handlers.antt =====
-- The procedures of the NFS service, a module for each file nfs_on*.go that is modelled.
pub mod ReadDirPlus
pub mod ReadDir
pub mod Commit
pub mod Write
pub mod Read
pub mod Remove
pub mod Rename
pub mod SetAttr
pub mod Create
pub mod Make
pub mod Lookup
pub mod Info
pub mod Query
