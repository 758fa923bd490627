-- ===== src/Node/State.antt =====
-- src/main.rs: what the consensus thread shares with the rest of the node, and what it sends.
use quantum_btc.Prelude.{ℕ, List}
use quantum_btc.Block.{BlockHeader, Block}
use quantum_btc.Utxo.Data.{UtxoState}
use quantum_btc.Mempool.{QuantumMempool}
use quantum_btc.Network.Reputation.{ReputationManager}
use quantum_btc.Storage.Database.{Key, Value}
use quantum_btc.Storage.Vault.{QuantumStorage}

-- `Db` is the database, `PeerId` the identifiers of peers.
pub record Node (Db PeerId : Type 0) : Type 0 where
  pub latest_block : Block
  pub storage : QuantumStorage Db
  pub utxo : UtxoState
  pub mempool : QuantumMempool
  pub reputation : ReputationManager PeerId
  pub block_relay_cache : List Block
  pub target : ℕ

-- What does not change: the node's own identifier, the anchor of the difficulty, and what an
-- iterator over the witnesses yields.
pub record Setting (Db PeerId : Type 0) : Type 0 where
  pub local_peer_id : PeerId
  pub anchor_time : ℕ
  pub anchor_target : ℕ
  pub witness_iterator : Db → List (Key × Value)

-- The messages to the other tasks, logs aside.
pub data Signal (PeerId : Type 0) : Type 0 where
  request_sync : ℕ → PeerId → Signal PeerId
  ban_and_disconnect : PeerId → Signal PeerId
  wake_miner : Signal PeerId
  stop_miner : Signal PeerId
  announce : BlockHeader → Signal PeerId
