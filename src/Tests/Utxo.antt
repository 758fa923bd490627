-- ===== src/Tests/Utxo.antt =====
-- Runs of src/utxo.rs: a block with a coinbase and two transactions, the second spending the first.
use quantum_btc.Prelude.{
  ℕ, zero, suc, ◌+◌, ◌≤◌, ◌≡◌, refl, true, false, none, some, List, [], ◌∷◌, Hash, arith, ok,
  lookup, insert, remove, contains, set_insert, set_remove, all,
}
use quantum_btc.Economics.{get_block_reward, max_supply}
use quantum_btc.Economics.Supply.{issued}
use quantum_btc.Crypto.Toy.{toy, digest}
use quantum_btc.Transaction.{
  OutPoint, outpoint_eq, TxOut, TxWitness, Transaction, calculate_id, verify_witness,
}
use quantum_btc.Crypto.MlDsa.{verify_signature}
use quantum_btc.Utxo.Data.{
  UtxoRecord, UtxoUndoLog, UtxoState, checked_money_add, output_sum_from, checked_output_sum,
  empty_state,
}
use quantum_btc.Utxo.Authorize.{
  witness_key_matches_owner, owner_ok, verify_recovery_reveal, signature_valid,
}
use quantum_btc.Utxo.Process.{
  preflight_input, preflight_inputs, preflight_spend, preflight_coinbase, preflight_tx, preflight,
  create_outputs, spend_inputs, commit_inputs, commit_tx, commit, check_block, process_block,
  new_log, disconnect_block,
}
use quantum_btc.Utxo.Process.{Preflight, new_preflight}
use quantum_btc.Utxo.Authorize.{SignatureTask}
use quantum_btc.Utxo.Total.{total, IsMap}
use quantum_btc.Utxo.Supply.{IsWellNumbered, IsNew}
use quantum_btc.Utxo.Balance.{spent_values, output_values, process_block-conserves}
use quantum_btc.Utxo.Undo.{block_outpoints, disconnect_block-process_block}
use quantum_btc.Utxo.Spending.{AllSpendable, process_block-spendable}
use quantum_btc.Utxo.Chain.{Chain, genesis, connect, Chain-total}
use quantum_btc.Utxo.Recovery.{recovery_waits, recovery_wraps}
use quantum_btc.Utxo.Validate.{
  validate_input, validate_inputs, primary_spend, recovery_spend, validate_transaction,
}
use quantum_btc.Utxo.Relay.{validate_transaction-relay}

-- What the runs compute with.
unfoldable pub run_block : Unit {0}
unfolding get_block_reward lookup insert remove contains set_insert set_remove calculate_id
    verify_witness verify_signature checked_money_add output_sum_from checked_output_sum
    witness_key_matches_owner owner_ok verify_recovery_reveal signature_valid preflight_input
    preflight_inputs preflight_spend preflight_coinbase preflight_tx preflight create_outputs
    spend_inputs commit_inputs commit_tx commit check_block process_block disconnect_block
run_block = tt

-- Paid to the key `k`.
abbrev pay : ℕ → ℕ → TxOut
pay k v = record { value = v; public_key_hash = digest (k ∷ []); recovery = none }

abbrev signed_by : ℕ → TxWitness
signed_by k = record { signature = k ∷ []; public_key = k ∷ [] }

abbrev pub coin : OutPoint
coin = record { tx_hash = 5; vout = 0 }

abbrev pub before : UtxoState
before = record {
  unspent_outputs = (coin, record { output = pay 9 1000; height = 1; is_coinbase = false }) ∷ [];
  verified_tx_cache = [];
}

abbrev coinbase : ℕ → ℕ → Transaction
coinbase height value = record {
  inputs = record { previous_output_hash = 0; vout = height } ∷ [];
  outputs = pay 3 value ∷ [];
  witnesses = [];
}

abbrev payment : Transaction
payment = record {
  inputs = record { previous_output_hash = 5; vout = 0 } ∷ [];
  outputs = pay 8 600 ∷ pay 9 390 ∷ [];
  witnesses = signed_by 9 ∷ [];
}

abbrev pub payment_id : Hash
payment_id = digest (5 ∷ 0 ∷ 77 ∷ 600 ∷ digest (8 ∷ []) ∷ 390 ∷ digest (9 ∷ []) ∷ [])

abbrev forward : Transaction
forward = record {
  inputs = record { previous_output_hash = payment_id; vout = 0 } ∷ [];
  outputs = pay 7 595 ∷ [];
  witnesses = signed_by 8 ∷ [];
}

abbrev pub block_txs : List Transaction
block_txs = payment ∷ forward ∷ []

abbrev pub miner_tx : Transaction
miner_tx = coinbase 200 5_000_000_015

unfoldable pub after : UtxoState
unfolding run_block
after = (commit toy 200 0 (miner_tx ∷ block_txs) (before, new_log)).0

unfoldable pub undo : UtxoUndoLog
unfolding run_block
undo = (commit toy 200 0 (miner_tx ∷ block_txs) (before, new_log)).1

pub accepted : process_block toy (miner_tx ∷ block_txs) 200 false before ≡ (ok undo, after)
unfolding run_block after undo
accepted = refl

well_numbered : IsWellNumbered toy (miner_tx ∷ block_txs)
unfolding run_block
well_numbered = ground arith

outputs-IsNew : IsNew toy before.unspent_outputs (miner_tx ∷ block_txs)
unfolding run_block
outputs-IsNew = (λ j le. refl, (λ j le. refl, (λ j le. refl, tt)))

process_block-conserves_example :
    (total after.unspent_outputs
        + spent_values toy 200 before.unspent_outputs
            (create_outputs (calculate_id toy miner_tx) 200 true 0 miner_tx.outputs [])
            block_txs
      ≡ 1000 + 5_000_000_015 + output_values block_txs)
    × (5_000_000_015 + output_values block_txs
        ≤ get_block_reward 200
          + spent_values toy 200 before.unspent_outputs
              (create_outputs (calculate_id toy miner_tx) 200 true 0 miner_tx.outputs [])
              block_txs)
    × IsMap after.unspent_outputs
unfolding lookup
process_block-conserves_example =
    process_block-conserves toy 200 miner_tx block_txs false before after undo accepted (refl, tt)
      well_numbered outputs-IsNew

pub fresh_outputs :
    (op : OutPoint)
    → contains op (block_outpoints toy (miner_tx ∷ block_txs)) ≡ true
    → lookup op before.unspent_outputs ≡ none
unfolding run_block block_outpoints
fresh_outputs op h = ground arith

disconnect_block-process_block_example :
    lookup coin (disconnect_block undo after).unspent_outputs ≡ lookup coin before.unspent_outputs
disconnect_block-process_block_example =
    disconnect_block-process_block toy (miner_tx ∷ block_txs) 200 false before after undo coin
      accepted fresh_outputs

process_block-spendable_example :
    AllSpendable toy before 200 false
      (create_outputs (calculate_id toy miner_tx) 200 true 0 miner_tx.outputs [])
      []
      block_txs
process_block-spendable_example =
    process_block-spendable toy before 200 false miner_tx block_txs after undo accepted

state_at : ℕ → UtxoState
state_at zero = empty_state
state_at (suc h) = (commit toy h 0 (coinbase h 5_000_000_000 ∷ []) (state_at h, new_log)).0

log_at : ℕ → UtxoUndoLog
log_at h = (commit toy h 0 (coinbase h 5_000_000_000 ∷ []) (state_at h, new_log)).1

state_at-Chain : Chain toy 2 (state_at 2)
unfolding run_block state_at log_at
state_at-Chain =
    connect {log = log_at 1} (coinbase 1 5_000_000_000) [] false
      (connect {log = log_at 0} (coinbase 0 5_000_000_000) [] false genesis refl
        (omega arith, tt, tt) (λ j le. refl, tt))
      refl (omega arith, tt, tt) (λ j le. refl, tt)

Chain-total_example :
    (total (state_at 2).unspent_outputs ≤ issued 2)
    × (total (state_at 2).unspent_outputs ≤ max_supply)
Chain-total_example = Chain-total toy state_at-Chain

-- An output of the key 9 with the recovery key 4, spent by that key.
abbrev backed : ℕ → UtxoRecord
backed delay = record {
  output = record {
    value = 50;
    public_key_hash = digest (9 ∷ []);
    recovery = some (record { recovery_hash = digest (4 ∷ []); recovery_delay = delay });
  };
  height = 100;
  is_coinbase = false;
}

abbrev claim : Transaction
claim = record {
  inputs = record { previous_output_hash = 6; vout = 0 } ∷ [];
  outputs = pay 4 50 ∷ [];
  witnesses = signed_by 4 ∷ [];
}

abbrev claim_task : ℕ → SignatureTask
claim_task delay = record {
  tx = claim;
  index = 0;
  core_hash = calculate_id toy claim;
  spent = backed delay;
}

recovery_waits_example :
    (100 + 1000 + 4320 ≤ 6000) × (verify_recovery_reveal toy claim 0 (digest (4 ∷ [])) ≡ true)
unfolding run_block
recovery_waits_example =
    recovery_waits toy before 6000 false (claim_task 1000)
      (record { recovery_hash = digest (4 ∷ []); recovery_delay = 1000 }) refl refl refl
      (omega arith) refl

-- A delay of 2^64 - 1 blocks, claimed at height 4419.
recovery_wraps_example :
    signature_valid toy before 4419 false (claim_task 18446744073709551615) ≡ true
unfolding run_block
recovery_wraps_example =
    recovery_wraps toy before 4419 false (claim_task 18446744073709551615)
      (record { recovery_hash = digest (4 ∷ []); recovery_delay = 18446744073709551615 }) 4419 refl
      refl refl (omega arith) (omega arith) refl

valid_payment : validate_transaction toy before payment 200 false ≡ ok 10
unfolding run_block validate_transaction validate_inputs validate_input primary_spend recovery_spend
valid_payment = refl

validate_transaction-relay_example :
    (p : Preflight) × (preflight_spend toy before.unspent_outputs 200 payment
        (record new_preflight { virtual_utxo_cache = [] })
      ≡ ok p)
    × (p.total_fees ≡ 10)
    × (all (signature_valid toy before 200 false) p.signature_tasks ≡ true)
validate_transaction-relay_example =
    validate_transaction-relay toy before payment 200 false 10 [] valid_payment (omega arith) refl
