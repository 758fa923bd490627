-- ===== src/Storage/Vault.antt =====
-- src/storage.rs: the vault in memory, and the operations that write a header, an index or a block.
use quantum_btc.Prelude.{
  ℕ, ◌+◌, ◌-◌, ◌%◌, ◌^◌, u64_mod, true, false, Option, none, some, List, [], ◌∷◌, ◌++◌, map, Hash,
  HashMap, lookup, insert, contains, nat_eq, min, ◌==◌, if◌then◌else◌,
}
use quantum_btc.Crypto.Primitives.{Primitives}
use quantum_btc.Transaction.{Transaction, TxWitness}
use quantum_btc.Block.{BlockHeader, Block, BlockIndex, calculate_hash, get_block_proof}
use quantum_btc.Storage.Database.{
  Database, hash_key, height_key, plain_key, prefix_header, prefix_block_index, prefix_core_block,
  prefix_witness, latest_block_head, chain_list, header_chain_list, header_value, index_value,
  block_value, witness_value, hashes_value,
}

pub record MemoryVault : Type 0 where
  pub map_block_index : HashMap Hash BlockIndex
  pub active_chain : List Hash
  pub header_chain : List Hash
  pub map_orphan_blocks : HashMap Hash Block
  pub map_orphan_blocks_by_prev : HashMap Hash (List Hash)
  pub staged_blocks : HashMap Hash Block

-- The locks are left out: an operation that holds them is one step.
pub record QuantumStorage (Db : Type 0) : Type 0 where
  pub db : Db
  pub vault : MemoryVault

abbrev pub empty_vault : MemoryVault
empty_vault = record {
  map_block_index = [];
  active_chain = [];
  header_chain = [];
  map_orphan_blocks = [];
  map_orphan_blocks_by_prev = [];
  staged_blocks = [];
}

-- `std::mem::take(&mut tx.witnesses)` for each transaction: what is left, and what is taken.
abbrev pub strip : Transaction → Transaction
strip tx = record tx { witnesses = [] }

abbrev pub core_of : Block → Block
core_of b = record b { transactions = map strip b.transactions }

abbrev pub witnesses_of : Block → List (List TxWitness)
witnesses_of b = map (λ (tx : Transaction). tx.witnesses) b.transactions

-- `if !chain.contains(&hash) { chain.push(hash) }`
abbrev pub push_new : Hash → List Hash → List Hash
push_new h chain = if contains h chain then chain else chain ++ h ∷ []

-- `saturating_add` on `u128`.
abbrev pub saturating_add : ℕ → ℕ → ℕ
saturating_add a b = min (a + b) (2 ^ 128 - 1)

abbrev pub work_of : Option BlockIndex → ℕ
work_of none = 0
work_of (some i) = i.chain_work

-- The height after that of the parent, if it is known.
abbrev pub height_after : Option BlockIndex → ℕ
height_after none = 0
height_after (some i) = (i.height + 1) % u64_mod

module _ (d : Database) where
  abbrev pub Storage : Type 0
  Storage = QuantumStorage d.Db

  abbrev pub get_block_index : Hash → Storage → Option BlockIndex
  get_block_index h s = lookup h s.vault.map_block_index

  unfoldable pub save_block_index : BlockIndex → Storage → Storage
  save_block_index index s = record {
    db = d.put (hash_key prefix_block_index index.block_hash) (index_value index) s.db;
    vault = record s.vault {
      map_block_index = insert index.block_hash index s.vault.map_block_index;
    };
  }

  -- The header chain grows, on disk and in memory, by a hash that it lacks.
  abbrev pub extend_header_chain : Hash → Storage → Storage
  extend_header_chain h s =
      let chain = s.vault.header_chain ++ h ∷ [] in
      if contains h s.vault.header_chain then s else record {
        db = d.put (plain_key header_chain_list) (hashes_value chain) s.db;
        vault = record s.vault { header_chain = chain };
      }

  abbrev pub new_index : BlockHeader → Hash → Storage → BlockIndex
  new_index header h s =
      let parent = get_block_index header.previous_hash s in
      record {
        block_hash = h;
        header = header;
        height = if header.previous_hash == 0 then 0 else height_after parent;
        chain_work =
            saturating_add (if header.previous_hash == 0 then 0 else work_of parent)
              (get_block_proof header);
        has_data = false;
      }

  unfoldable pub save_header : BlockHeader → Hash → Storage → Storage
  save_header header h s =
      let written =
        extend_header_chain h
          (record s { db = d.put (hash_key prefix_header h) (header_value header) s.db }) in
      elim (get_block_index h written) [
        | some _ ↦ written
        | none ↦ save_block_index (new_index header h written) written
      ]

  abbrev pub extend_active_chain : Hash → Storage → Storage
  extend_active_chain h s =
      let chain = s.vault.active_chain ++ h ∷ [] in
      if contains h s.vault.active_chain then s else record {
        db = d.put (plain_key chain_list) (hashes_value chain) s.db;
        vault = record s.vault { active_chain = chain };
      }

  -- The index of the block is marked as having its data.
  unfoldable pub mark_has_data : Hash → Storage → Storage
  mark_has_data h s = elim (get_block_index h s) [
    | none ↦ s
    | some index ↦ save_block_index (record index { has_data = true }) s
  ]

  unfoldable pub save_block_segwit : Primitives → Block → ℕ → Storage → Storage
  save_block_segwit c block height s =
      let h = calculate_hash c block in
      let db = d.put (plain_key latest_block_head) (block_value (core_of block)) (
        d.put (height_key prefix_witness height h) (witness_value (witnesses_of block))
          (d.put (hash_key prefix_core_block h) (block_value (core_of block)) s.db)) in
      mark_has_data h
        (save_header (core_of block).header h (extend_active_chain h (record s { db = db })))
