-- ===== src/Network.antt =====
-- src/network: the peer-to-peer layer's own state machines.
pub mod BlockTracker
pub mod Reputation
pub mod SyncManager
pub mod SyncDebouncer
