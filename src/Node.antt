-- ===== src/Node.antt =====
-- src/main.rs: the consensus thread, which takes the blocks that the node receives or mines one by
-- one, checks them and extends the chain.
pub mod State
pub mod Inspect
pub mod Reject
pub mod Receive
pub mod Admission
pub mod Ledger
pub mod Growth
pub mod Rounds
