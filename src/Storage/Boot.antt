-- ===== src/Storage/Boot.antt =====
-- src/storage.rs: `QuantumStorage::new`, which rebuilds the vault from the database. The entries of
-- the database are an argument, in the order of its iterator; a map is read by its keys.
use quantum_btc.Prelude.{
  ℕ, zero, suc, Bool, true, false, ◌&&◌, ◌||◌, Option, none, some, List, [], ◌∷◌, is_empty, length,
  Hash, HashMap, lookup, insert, keys_where, nat_eq, ltb, ◌==◌, if◌then◌else◌,
}
use quantum_btc.Block.{BlockIndex}
use quantum_btc.Storage.Database.{
  Database, Key, Value, plain_key, number, prefix_block_index, chain_list, header_chain_list,
  index_value,
}
use quantum_btc.Storage.Vault.{Storage}
use quantum_btc.Storage.Staging.{chain_or}

abbrev pub Indices : Type 0
Indices = HashMap Hash BlockIndex

-- The entries whose key has the prefix and whose value decodes.
abbrev pub add_index : Key → Value → Indices → Indices
add_index key (index_value index) indices =
    if key.prefix == number prefix_block_index
    then insert index.block_hash index indices
    else indices
add_index key _ indices = indices

unfoldable pub load_indices : List (Key × Value) → Indices → Indices
load_indices [] indices = indices
load_indices ((key, value) ∷ rest) indices = load_indices rest (add_index key value indices)

abbrev pub keys_of : Indices → List Hash
keys_of indices = keys_where (λ _ _. true) indices

abbrev pub or_false : Option Bool → Bool
or_false none = false
or_false (some b) = b

module _ (map_index : Indices) where
  -- The walk to the parents, with the path that it leaves and its verdict. A path longer than the
  -- index ends it.
  unfoldable pub walk : HashMap Hash Bool → ℕ → List Hash → Hash → List Hash × Bool
  walk fully_stored zero path cur = (path, or_false (lookup cur fully_stored))
  walk fully_stored (suc rounds) path cur = elim (lookup cur fully_stored) [
    | some known ↦ (path, known)
    | none ↦ elim (lookup cur map_index) [
      | none ↦ (path, false)
      | some idx ↦ elim idx.has_data [
        | false ↦ (path, false)
        | true ↦ elim (idx.header.previous_hash == 0) [
          | true ↦ (cur ∷ path, true)
          | false ↦ walk fully_stored rounds (cur ∷ path) idx.header.previous_hash
        ]
      ]
    ]
  ]

  unfoldable pub mark_path : List Hash → Bool → HashMap Hash Bool → HashMap Hash Bool
  mark_path [] verdict fully_stored = fully_stored
  mark_path (h ∷ hs) verdict fully_stored = mark_path hs verdict (insert h verdict fully_stored)

  abbrev pub judge : Hash → HashMap Hash Bool → HashMap Hash Bool
  judge start fully_stored =
      let walked = walk fully_stored (suc (length map_index)) [] start in
      mark_path walked.0 walked.1 fully_stored

  unfoldable pub judge_all : List Hash → HashMap Hash Bool → HashMap Hash Bool
  judge_all [] fully_stored = fully_stored
  judge_all (start ∷ rest) fully_stored = judge_all rest (judge start fully_stored)

  abbrev pub better : HashMap Hash Bool → Hash → BlockIndex → Hash × ℕ → Hash × ℕ
  better fully_stored h index best =
      if ltb best.1 index.chain_work && or_false (lookup h fully_stored)
      then (h, index.chain_work)
      else best

  -- The tip with the most work so far, with its work.
  unfoldable pub best_tip : HashMap Hash Bool → List Hash → Hash × ℕ → Hash × ℕ
  best_tip fully_stored [] best = best
  best_tip fully_stored (h ∷ hs) best = elim (lookup h map_index) [
    | none ↦ best_tip fully_stored hs best
    | some index ↦ best_tip fully_stored hs (better fully_stored h index best)
  ]

  -- The chain of a tip, from its first block on, before what is already collected.
  unfoldable pub collect : ℕ → Hash → List Hash → List Hash
  collect zero current chain = chain
  collect (suc rounds) current chain = elim (lookup current map_index) [
    | none ↦ chain
    | some idx ↦ elim (current == 0 || idx.header.previous_hash == 0) [
      | true ↦ current ∷ chain
      | false ↦ collect rounds idx.header.previous_hash (current ∷ chain)
    ]
  ]

  abbrev pub chosen_tip : Hash × ℕ
  chosen_tip = best_tip (judge_all (keys_of map_index) []) (keys_of map_index) (0, 0)

  unfoldable pub dynamic_chain : List Hash
  dynamic_chain = if ltb 0 chosen_tip.1 then collect (length map_index) chosen_tip.0 [] else []

unfoldable pub new_storage : (d : Database) → List (Key × Value) → d.Db → Storage d
new_storage d entries db =
    let indices = load_indices entries [] in
    let chain = dynamic_chain indices in
    let active = if is_empty chain then chain_or [] (d.get (plain_key chain_list) db) else chain in
    record {
      db = db;
      vault = record {
        map_block_index = indices;
        active_chain = active;
        header_chain = chain_or active (d.get (plain_key header_chain_list) db);
        map_orphan_blocks = [];
        map_orphan_blocks_by_prev = [];
        staged_blocks = [];
      };
    }
