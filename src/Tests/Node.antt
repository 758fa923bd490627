-- ===== src/Tests/Node.antt =====
-- Runs of the consensus thread of src/main.rs.
use quantum_btc.Prelude.{
  ℕ, zero, suc, ◌%◌, ◌^◌, ◌≡◌, ◌⊎◌, ◌≤◌, refl, ap, true, false, none, length, List, [], ◌∷◌, Hash,
  lookup, contains, nat_eq, arith, ok, err,
}
use quantum_btc.Crypto.Primitives.{Primitives}
use quantum_btc.Crypto.Toy.{toy, digest}
use quantum_btc.Crypto.Bytes.{to_be_bytes, hash_bytes}
use quantum_btc.Transaction.{
  outpoint_eq, Transaction, calculate_witness_hash, get_weight, get_physical_size,
}
use quantum_btc.Block.{
  Block, BlockIndex, calculate_hash, new_block, get_block_weight, get_block_physical_size,
}
use quantum_btc.Crypto.Merkle.{build_merkle_root, has_duplicate_txs}
use quantum_btc.Consensus.{
  verify_timestamp, verify_checkpoint, verify_merkle_root, verify_witness_commitment,
  verify_proof_of_work, verify_block_target_and_pow, required_target, calculate_next_target,
}
use quantum_btc.Utxo.Data.{UtxoState, UtxoUndoLog, empty_state}
use quantum_btc.Utxo.Process.{process_block, commit, new_log}
use quantum_btc.Mempool.{empty_mempool}
use quantum_btc.Storage.Database.{list_database}
use quantum_btc.Storage.Vault.{empty_vault}
use quantum_btc.Node.State.{Node, Setting}
use quantum_btc.Node.Inspect.{too_far_ahead, incoming_height, inspect, past_timestamps, check_work}
use quantum_btc.Node.Admission.{IsAdmissible, inspect-IsAdmissible}
use quantum_btc.Node.Reject.{reject}
use quantum_btc.Node.Receive.{receive, cascade, extend, settle, advance, connect, try_orphans}
use quantum_btc.Node.Ledger.{IsUntouched, IsAccepted, receive-IsUntouched}
use quantum_btc.Node.Growth.{IsExtended, receive-IsExtended}
use quantum_btc.Node.Rounds.{cascade-ends}
use quantum_btc.Storage.Orphans.{add_orphan_block, get_orphans_by_parent, take_orphans}
use quantum_btc.Storage.Commit.{commit_state_transition, delete_spent, put_created}
use quantum_btc.Mempool.Sweep.{atomic_sweep}
use quantum_btc.Network.Reputation.{report_offense, update_activity}
use quantum_btc.Storage.Disk.{get_utxo}
use quantum_btc.Config.{consensus_hardfork_v2_height}
use quantum_btc.Consensus.Asert.{
  calculate_asert_target, time_delta, target_of_delta, exponent, multiplier, shift_target,
  clamp_target,
}
use quantum_btc.Prelude.Int.{◌-ℤ◌, wrap, floor_div, floor_mod, trunc_div, scale, saturate}
use quantum_btc.Tests.Utxo.{run_block}

-- Digests that meet every target.
abbrev lucky : Primitives
lucky = record toy { sha256 = λ bytes. digest bytes % 256 ^ 24 }

abbrev miner_tx : ℕ → Transaction
miner_tx height = record {
  inputs = record { previous_output_hash = 0; vout = height } ∷ [];
  outputs = record { value = 5_000_000_000; public_key_hash = 9; recovery = none } ∷ [];
  witnesses = record { signature = []; public_key = [] } ∷ [];
}

abbrev tip : Block
tip = record {
  header = record {
    timestamp = 11_880_000;
    previous_hash = 1;
    merkle_root = 0;
    commit_merkle_root = 0;
    nonce = 0;
    target = 1_000_000;
  };
  transactions = [];
}

abbrev tip_index : BlockIndex
tip_index = record {
  block_hash = calculate_hash lucky tip;
  header = tip.header;
  height = 2;
  chain_work = 7;
  has_data = true;
}

-- A chain of one hash repeated.
abbrev copies : ℕ → List Hash
copies zero = []
copies (suc n) = 1 ∷ copies n

abbrev setting : Setting (list_database.Db) ℕ
setting = record {
  local_peer_id = 0;
  anchor_time = 0;
  anchor_target = 1_000_000;
  witness_iterator = λ db. db;
}

abbrev node_on : List Hash → Node (list_database.Db) ℕ
node_on chain = record {
  latest_block = tip;
  storage = record {
    db = [];
    vault = record empty_vault {
      active_chain = chain;
      map_block_index = (calculate_hash lucky tip, tip_index) ∷ [];
    };
  };
  utxo = empty_state;
  mempool = empty_mempool;
  reputation = [];
  block_relay_cache = [];
  target = 1_000_000;
}

abbrev next_block : ℕ → Block
next_block height =
    new_block lucky 11_880_100 (calculate_hash lucky tip) (miner_tx height ∷ []) 1_000_000 0

unfoldable run_node : Unit {0}
unfolding inspect run_block calculate_hash new_block to_be_bytes hash_bytes verify_checkpoint
    verify_timestamp past_timestamps check_work verify_merkle_root verify_witness_commitment
    build_merkle_root has_duplicate_txs calculate_witness_hash get_weight get_physical_size
    get_block_weight verify_proof_of_work get_block_physical_size verify_block_target_and_pow
    required_target calculate_next_target
run_node = tt

passes_early :
    inspect lucky list_database setting 11_880_100 (next_block 3) (node_on (copies 3)) ≡ ok tt
unfolding run_node
passes_early = refl

length-copies : (n : ℕ) → length (copies n) ≡ n
length-copies zero = refl
length-copies (suc n) = ap (λ k. suc k) (length-copies n)

on_schedule : calculate_asert_target 1_000_000 0 11_880_000 19_800 ≡ 1_000_000
unfolding calculate_asert_target time_delta target_of_delta exponent multiplier shift_target
    clamp_target floor_div floor_mod trunc_div scale saturate ◌-ℤ◌ wrap
on_schedule = refl

passes_at :
    (chain : List Hash)
    → length chain ≡ 21_500
    → inspect lucky list_database setting 11_880_100 (next_block 21_500) (node_on chain) ≡ ok tt
unfolding run_node
passes_at chain long = rw (inspect, check_work, long, on_schedule) refl

fork_at :
    (chain : List Hash)
    → length chain ≡ 21_500
    → consensus_hardfork_v2_height ≤ incoming_height chain
fork_at chain long = omega (arith, long)

inspect-IsAdmissible_example :
    IsAdmissible lucky list_database setting 11_880_100
      (next_block 21_500)
      (node_on (copies 21_500))
unfolding new_block lookup calculate_hash to_be_bytes hash_bytes
inspect-IsAdmissible_example =
    inspect-IsAdmissible lucky list_database setting 11_880_100 (next_block 21_500)
      (node_on (copies 21_500)) tip_index refl (omega arith) (omega arith)
      (fork_at (copies 21_500) (length-copies 21_500))
      (passes_at (copies 21_500) (length-copies 21_500))

abbrev node : Node (list_database.Db) ℕ
node = node_on (copies 3)

-- Without the block at the tip's height, from a peer.
receive-IsUntouched_example :
    IsUntouched list_database node (receive lucky list_database setting 11_880_100 4 tip node).0
    ⊎ ((inspect lucky list_database setting 11_880_100 tip node ≡ ok tt)
        × IsAccepted lucky list_database setting 11_880_100 4 tip node)
receive-IsUntouched_example = receive-IsUntouched lucky list_database setting 11_880_100 4 tip node

unfoldable after : UtxoState
unfolding run_node
after = (commit lucky 3 0 (miner_tx 3 ∷ []) (empty_state, new_log)).0

unfoldable undo : UtxoUndoLog
unfolding run_node
undo = (commit lucky 3 0 (miner_tx 3 ∷ []) (empty_state, new_log)).1

accepted : process_block lucky (next_block 3).transactions 3 false empty_state ≡ (ok undo, after)
unfolding run_node after undo
accepted = refl

unknown : contains (calculate_hash lucky (next_block 3)) (copies 3) ≡ false
unfolding run_node contains
unknown = refl

receive-IsExtended_example :
    IsExtended lucky list_database
      (next_block 3)
      undo
      after
      node
      (receive lucky list_database setting 11_880_100 4 (next_block 3) node).0
unfolding lookup get_utxo
receive-IsExtended_example =
    receive-IsExtended lucky list_database (next_block 3) undo after node setting 11_880_100 4
      (omega arith) (omega arith) unknown refl passes_early accepted (λ op h. refl) (λ k. refl)

-- One orphan waits for the tip.
abbrev waiting : Node (list_database.Db) ℕ
waiting = record node {
  storage = record node.storage {
    vault = (add_orphan_block lucky (next_block 3) node.storage.vault).1;
  };
}

cascade-ends_example :
    cascade lucky list_database 2 (calculate_hash lucky tip) waiting
    ≡ cascade lucky list_database 9 (calculate_hash lucky tip) waiting
unfolding add_orphan_block run_node
cascade-ends_example =
    cascade-ends lucky list_database 2 9 (calculate_hash lucky tip) waiting (omega arith)
      (omega arith)

-- A block whose time is far ahead, on the next block.
abbrev future_block : Block
future_block = new_block lucky (2 ^ 50) (calculate_hash lucky (next_block 3)) (miner_tx 4 ∷ []) 5 0

abbrev with_orphan : Node (list_database.Db) ℕ
with_orphan = (receive lucky list_database setting 11_880_100 4 future_block node).0

unfoldable run_receive : Unit {0}
unfolding run_node add_orphan_block get_orphans_by_parent take_orphans commit_state_transition
    delete_spent put_created receive reject extend settle advance connect try_orphans cascade
    atomic_sweep contains report_offense update_activity
run_receive = tt

-- On the next block it fails the checks, but waiting as an orphan it becomes the tip after it.
future_block_joins :
    (inspect lucky list_database setting 11_880_100 future_block
        (record node { latest_block = next_block 3 })
      ≡ err too_far_ahead)
    × ((receive lucky list_database setting 11_880_100 4 (next_block 3) with_orphan).0.latest_block
        ≡ future_block)
unfolding run_receive
future_block_joins = (refl, refl)
