-- ===== src/Tests/Storage.antt =====
-- Runs of src/storage.rs over a database that is a list.
use quantum_btc.Prelude.{
  ℕ, zero, suc, ◌+◌, ◌≡◌, ◌↔◌, ◌⊎◌, refl, Bool, true, false, none, some, List, [], ◌∷◌, Hash,
  HashMap, arith, lookup, insert, remove, contains, keys_where, set_remove, nat_eq, is_some,
  if◌then◌else◌, inl, inr,
}
use quantum_btc.Crypto.Toy.{toy, digest}
use quantum_btc.Crypto.Bytes.{to_be_bytes, hash_bytes}
use quantum_btc.Transaction.{OutPoint, outpoint_eq}
use quantum_btc.Block.{BlockHeader, Block, BlockIndex, calculate_hash}
use quantum_btc.Utxo.Data.{UtxoRecord}
use quantum_btc.Utxo.Process.{restore_all}
use quantum_btc.Utxo.Undo.{restored}
use quantum_btc.Storage.Database.{
  list_database, Key, key_eq, Value, utxo_key, utxo_value, hash_key, plain_key, index_value,
  hashes_value, prefix_block_index, chain_list, header_chain_list,
}
use quantum_btc.Storage.Vault.{Storage, MemoryVault, empty_vault}
use quantum_btc.Storage.Commit.{commit_state_transition}
use quantum_btc.Storage.Rollback.{rollback_chain}
use quantum_btc.Storage.Disk.{get_utxo}
use quantum_btc.Storage.Mirror.{Mirrors, commit_state_transition-Mirrors}
use quantum_btc.Storage.Reorg.{rollback_chain-commit_state_transition}
use quantum_btc.Storage.Fetch.{get_block_by_hash, get_block_by_hash-commit_state_transition}
use quantum_btc.Storage.Orphans.{add_orphan_block}
use quantum_btc.Storage.Staging.{
  IsSynced, SameView, stage_all, purge_staged_data, purge_staged_data-stage_all,
}
use quantum_btc.Storage.Fork.{get_idx, find_fork_lca}
use quantum_btc.Storage.Ancestor.{IsLowestCommon, IsTree}
use quantum_btc.Storage.Parting.{find_fork_lca_lem}
use quantum_btc.Storage.Boot.{
  load_indices, new_storage, judge_all, walk, mark_path, best_tip, collect, dynamic_chain,
}
use quantum_btc.Storage.StartChain.{AreMarked, IsBestChain, HasNoWork, new_storage_lem}
use quantum_btc.Storage.Reload.{IteratesUtxos, load_utxo_state, prefix_run, load_utxo_state-Mirrors}
use quantum_btc.Tests.Utxo.{
  run_block, payment_id, before, after, undo, coin, block_txs, miner_tx, accepted, fresh_outputs,
}

abbrev header_on : Hash → BlockHeader
header_on parent = record {
  timestamp = 0;
  previous_hash = parent;
  merkle_root = 0;
  commit_merkle_root = 0;
  nonce = 0;
  target = 1;
}

abbrev block : Block
block = record { header = header_on 1; transactions = miner_tx ∷ block_txs }

-- A chain of one hash repeated.
abbrev copies : ℕ → List Hash
copies zero = []
copies (suc n) = 1 ∷ copies n

abbrev coin_record : UtxoRecord
coin_record = record {
  output = record { value = 1000; public_key_hash = digest (9 ∷ []); recovery = none };
  height = 1;
  is_coinbase = false;
}

abbrev stocked : Storage list_database
stocked = record {
  db = (utxo_key coin, utxo_value coin_record) ∷ [];
  vault = record empty_vault { active_chain = copies 200 };
}

stocked-Mirrors : Mirrors list_database stocked.db before
unfolding get_utxo lookup
stocked-Mirrors k = ground arith

commit_state_transition-Mirrors_example :
    Mirrors list_database
      (commit_state_transition toy list_database block 200 undo after 7 stocked).db
      after
commit_state_transition-Mirrors_example =
    commit_state_transition-Mirrors list_database toy block 200 false before after undo 7 stocked
      accepted fresh_outputs stocked-Mirrors

new_hash : contains (calculate_hash toy block) stocked.vault.active_chain ≡ false
unfolding contains calculate_hash to_be_bytes hash_bytes
new_hash = refl

-- The first output of the payment, which the block creates and spends.
abbrev ghost : OutPoint
ghost = record { tx_hash = payment_id; vout = 0 }

rollback_chain-commit_state_transition_example :
    get_utxo list_database ghost
      (rollback_chain list_database 199
        (commit_state_transition toy list_database block 200 undo after 7 stocked)).db
    ≡ (if contains ghost undo.newly_created_outpoints
        then restored ghost undo.spent_utxos
        else lookup ghost before.unspent_outputs)
rollback_chain-commit_state_transition_example =
    rollback_chain-commit_state_transition list_database toy block false before after undo 199 7
      stocked ghost refl new_hash accepted fresh_outputs stocked-Mirrors

-- The output was not in the set before the block, and is on disk after the rollback.
ghost_returns :
    (lookup ghost before.unspent_outputs ≡ none)
    × (is_some (
          get_utxo list_database ghost
            (rollback_chain list_database 199
              (commit_state_transition toy list_database block 200 undo after 7 stocked)).db)
        ≡ true)
unfolding run_block after undo lookup contains restored restore_all insert remove
ghost_returns = (refl, rw rollback_chain-commit_state_transition_example refl)

get_block_by_hash-commit_state_transition_example :
    get_block_by_hash list_database
      (calculate_hash toy block)
      false
      (commit_state_transition toy list_database block 200 undo after 7 stocked)
    ≡ some block
unfolding lookup
get_block_by_hash-commit_state_transition_example =
    get_block_by_hash-commit_state_transition list_database toy block 200 7 undo after stocked false
      refl

abbrev orphan_vault : MemoryVault
orphan_vault =
    (add_orphan_block toy (record block { header = header_on 4 })
      (add_orphan_block toy block empty_vault).1).1

abbrev stored_index : Hash → Hash → ℕ → Bool → BlockIndex
stored_index h parent height has_data = record {
  block_hash = h;
  header = header_on parent;
  height = height;
  chain_work = height + 1;
  has_data = has_data;
}

-- A chain of two blocks with data, and a heavier header above them.
abbrev entries : List (Key × Value)
entries =
    (hash_key prefix_block_index 11, index_value (stored_index 11 0 0 true))
    ∷ (hash_key prefix_block_index 12, index_value (stored_index 12 11 1 true))
    ∷ (hash_key prefix_block_index 13, index_value (stored_index 13 12 2 false))
    ∷ []

abbrev disk : HashMap Key Value
disk =
    (plain_key chain_list, hashes_value (11 ∷ 12 ∷ []))
    ∷ (plain_key header_chain_list, hashes_value (11 ∷ 12 ∷ 13 ∷ []))
    ∷ entries

no_zero : lookup 0 (load_indices entries []) ≡ none
unfolding load_indices lookup insert remove
no_zero = refl

new_storage_lem_example :
    (IsBestChain
        (load_indices entries [])
        (new_storage list_database entries disk).vault.active_chain
      × AreMarked entries (new_storage list_database entries disk).vault.active_chain)
    ⊎ (((new_storage list_database entries disk).vault.active_chain ≡ 11 ∷ 12 ∷ [])
        × HasNoWork (load_indices entries []))
unfolding lookup
new_storage_lem_example = new_storage_lem list_database entries disk no_zero

starts_with_data : (new_storage list_database entries disk).vault.active_chain ≡ 11 ∷ 12 ∷ []
unfolding new_storage load_indices judge_all walk mark_path best_tip collect dynamic_chain lookup
    insert remove keys_where set_remove
starts_with_data = refl

-- The same storage as it runs.
abbrev running : Storage list_database
running = record {
  db = disk;
  vault = record empty_vault {
    map_block_index =
        (11, stored_index 11 0 0 true)
        ∷ (12, stored_index 12 11 1 true)
        ∷ (13, stored_index 13 12 2 false)
        ∷ [];
    active_chain = 11 ∷ 12 ∷ [];
    header_chain = 11 ∷ 12 ∷ 13 ∷ [];
  };
}

running-IsSynced : IsSynced list_database running
unfolding lookup
running-IsSynced = record {
  nothing_staged = refl;
  indices = λ h. ground arith;
  active = refl;
  header = refl;
}

purge_staged_data-stage_all_example :
    SameView list_database toy
      (purge_staged_data list_database (stage_all list_database toy ((block, 2, 9) ∷ []) running))
      running
purge_staged_data-stage_all_example =
    purge_staged_data-stage_all list_database toy ((block, 2, 9) ∷ []) running running-IsSynced

running-IsTree : IsTree (get_idx [] running.vault)
unfolding lookup
running-IsTree = record {
  named = λ h i found. ground arith;
  higher = λ h i p found up. ground arith;
  rooted = refl;
}

find_fork_lca_lem_example :
    (find_fork_lca 13 11 [] running.vault ≡ some 11)
    ↔ IsLowestCommon (get_idx [] running.vault) 13 11 11
find_fork_lca_lem_example = find_fork_lca_lem [] running.vault running-IsTree 13 11 11

stocked-IteratesUtxos : IteratesUtxos list_database stocked.db stocked.db
unfolding lookup prefix_run
stocked-IteratesUtxos = record {
  true_to = λ k v is. elim is [ inl (same_k, same_v) ↦ ground arith | inr gone ↦ absurd gone ];
  all = λ op v found. inl (ground arith);
}

load_utxo_state-Mirrors_example : Mirrors list_database stocked.db (load_utxo_state stocked.db)
load_utxo_state-Mirrors_example =
    load_utxo_state-Mirrors list_database stocked.db stocked.db stocked-IteratesUtxos
