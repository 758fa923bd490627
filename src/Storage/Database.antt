-- ===== src/Storage/Database.antt =====
-- src/storage.rs: the keys and values of the database. RocksDB is an interface with the laws of a
-- key-value store; a value is what bincode decodes, and `deserialize` fails on one of another type.
use quantum_btc.Prelude.{
  ℕ, Bool, true, ◌&&◌, Option, none, some, List, [], ◌∷◌, ◌++◌, Hash, HashMap, lookup, insert,
  remove, lookup-insert, lookup-remove, Eq, arith, ◌≡◌, ◌↔◌, refl, ◌==◌, if◌then◌else◌,
}
use quantum_btc.Transaction.{OutPoint, TxWitness}
use quantum_btc.Block.{BlockHeader, Block, BlockIndex}
use quantum_btc.Utxo.Data.{UtxoRecord, UtxoUndoLog}

-- The prefixes of the keys, and the three keys without one.
pub data Prefix : Type 0 where
  prefix_header prefix_block_index prefix_core_block prefix_witness prefix_undo_log : Prefix
  prefix_utxo latest_block_head chain_list header_chain_list : Prefix

abbrev pub number : Prefix → ℕ
number prefix_header = 0
number prefix_block_index = 1
number prefix_core_block = 2
number prefix_witness = 3
number prefix_undo_log = 4
number prefix_utxo = 5
number latest_block_head = 6
number chain_list = 7
number header_chain_list = 8

-- The bytes of a key: its prefix, a height, a hash and an output number, or 0 for what it has not.
pub record Key : Type 0 where
  pub prefix : ℕ
  pub height : ℕ
  pub hash : Hash
  pub vout : ℕ

abbrev pub same_key : Key → Key → Bool
same_key a b =
    (a.prefix == b.prefix) && (a.height == b.height) && (a.hash == b.hash) && (a.vout == b.vout)

pub same_key_iff : (a b : Key) → (same_key a b ≡ true) ↔ (a ≡ b)
same_key_iff a b = ground arith

instance abbrev pub key_eq : Eq Key
key_eq = record { beq = same_key; beq_iff = same_key_iff }

abbrev pub hash_key : Prefix → Hash → Key
hash_key p h = record { prefix = number p; height = 0; hash = h; vout = 0 }

abbrev pub height_key : Prefix → ℕ → Hash → Key
height_key p height h = record { prefix = number p; height = height; hash = h; vout = 0 }

abbrev pub utxo_key : OutPoint → Key
utxo_key op = record { prefix = number prefix_utxo; height = 0; hash = op.tx_hash; vout = op.vout }

abbrev pub plain_key : Prefix → Key
plain_key p = record { prefix = number p; height = 0; hash = 0; vout = 0 }

pub data Value : Type 0 where
  header_value : BlockHeader → Value
  index_value : BlockIndex → Value
  block_value : Block → Value
  witness_value : List (List TxWitness) → Value
  undo_value : UtxoUndoLog → Value
  utxo_value : UtxoRecord → Value
  hashes_value : List Hash → Value

abbrev pub as_header : Option Value → Option BlockHeader
as_header (some (header_value h)) = some h
as_header _ = none

abbrev pub as_index : Option Value → Option BlockIndex
as_index (some (index_value i)) = some i
as_index _ = none

abbrev pub as_block : Option Value → Option Block
as_block (some (block_value b)) = some b
as_block _ = none

abbrev pub as_witnesses : Option Value → Option (List (List TxWitness))
as_witnesses (some (witness_value ws)) = some ws
as_witnesses _ = none

abbrev pub as_undo_log : Option Value → Option UtxoUndoLog
as_undo_log (some (undo_value log)) = some log
as_undo_log _ = none

abbrev pub as_utxo : Option Value → Option UtxoRecord
as_utxo (some (utxo_value r)) = some r
as_utxo _ = none

-- What the code relies on of the database.
pub record Database : Type 1 where
  pub Db : Type 0
  pub get : Key → Db → Option Value
  pub put : Key → Value → Db → Db
  pub delete : Key → Db → Db
  pub get-put :
      (k j : Key) (v : Value) (db : Db)
      → get j (put k v db) ≡ (if same_key k j then some v else get j db)
  pub get-delete :
      (k j : Key) (db : Db) → get j (delete k db) ≡ (if same_key k j then none else get j db)

-- One entry of a `WriteBatch`.
pub data Op : Type 0 where
  put_op : Key → Value → Op
  delete_op : Key → Op

module _ (d : Database) where
  abbrev pub run_op : Op → d.Db → d.Db
  run_op (put_op k v) db = d.put k v db
  run_op (delete_op k) db = d.delete k db

  -- `db.write_opt(batch, ..)`: all entries, in order.
  abbrev pub write_batch : List Op → d.Db → d.Db
  write_batch [] db = db
  write_batch (op ∷ ops) db = write_batch ops (run_op op db)

  pub write_batch-append :
      (xs ys : List Op) (db : d.Db) → write_batch (xs ++ ys) db ≡ write_batch ys (write_batch xs db)
  write_batch-append [] ys db = refl
  write_batch-append (op ∷ xs) ys db = write_batch-append xs ys (run_op op db)

-- A database that is a list, for runs.
abbrev pub list_database : Database
list_database = record {
  Db = HashMap Key Value;
  get = lookup;
  put = insert;
  delete = remove;
  get-put = λ k j v db. lookup-insert k j v db;
  get-delete = λ k j db. lookup-remove k j db;
}
