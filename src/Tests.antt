-- ===== src/Tests.antt =====
-- Runs of the model on concrete inputs, and the theorems at them.
mod Utxo
mod Network
mod Consensus
mod Sync
mod Actor
mod Mempool
mod Storage
mod Node
mod Miner
