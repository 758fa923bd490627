-- ===== src/Utxo.antt =====
-- src/utxo.rs: the set of unspent outputs.
pub mod Data
pub mod Authorize
pub mod Process
pub mod Undo
pub mod Total
pub mod Linked
pub mod Supply
pub mod Balance
pub mod Chain
pub mod Spending
pub mod Validate
pub mod Wallet
pub mod Actor
pub mod Cache
pub mod Selection
pub mod Spendable
pub mod Ghosts
pub mod Recovery
pub mod Relay
