-- ===== src/Storage.antt =====
-- src/storage.rs: the database and the vault in memory that stands before it.
pub mod Database
pub mod Vault
pub mod Commit
pub mod Rollback
pub mod Disk
pub mod Mirror
pub mod Reorg
pub mod Fetch
pub mod Orphans
pub mod Quarantine
pub mod Handover
pub mod Staging
pub mod Boot
pub mod Marked
pub mod Judged
pub mod Verdicts
pub mod BestTip
pub mod StartChain
pub mod Reload
pub mod Fork
pub mod Ancestor
pub mod Lowest
pub mod Converge
pub mod Parting
