-- ===== src/Utxo/Process.antt =====
-- src/utxo.rs: `process_block` in its three phases, and `disconnect_block`.
use quantum_btc.Prelude.{
  ℕ, suc, ◌-◌, ◌%◌, ◌^◌, Bool, true, false, not, ◌&&◌, Option, none, some, List, [], ◌∷◌, ◌++◌,
  is_empty, all, Hash, HashMap, HashSet, lookup, insert, remove, contains, set_insert, set_remove,
  nat_eq, ok, err, ◌>>=◌, ◌>>◌, fail_if, ok_or, ltb, ◌==◌, if◌then◌else◌,
}
use quantum_btc.Config.{coinbase_maturity}
use quantum_btc.Economics.{get_block_reward}
use quantum_btc.Crypto.Primitives.{Primitives}
use quantum_btc.Transaction.{
  OutPoint, outpoint_eq, outpoint, TxIn, TxOut, Transaction, calculate_id,
}
use quantum_btc.Utxo.Data.{
  UtxoRecord, UtxoUndoLog, UtxoState, Outcome, add_u64, checked_money_add, checked_output_sum,
  layer2_unsupported, missing_utxo, immature_coinbase, outputs_exceed_inputs, no_transactions,
  bad_coinbase, late_coinbase, double_spend_in_block, coinbase_too_large, invalid_signature,
}
use quantum_btc.Utxo.Authorize.{SignatureTask, signature_valid}

abbrev pub Coins : Type 0
Coins = HashMap OutPoint UtxoRecord

-- `tx.inputs.len() == 1 && tx.inputs[0].previous_output_hash == [0u8; 32]`
abbrev pub is_null_input : Transaction → Bool
is_null_input tx = elim tx.inputs [
  | [] ↦ false
  | input ∷ rest ↦ is_empty rest && (input.previous_output_hash == 0)
]

-- `tx.inputs.is_empty() && !tx.outputs.is_empty() && tx.outputs[0].value == 0`
abbrev pub is_layer2 : Transaction → Bool
is_layer2 tx = is_empty tx.inputs && elim tx.outputs [ [] ↦ false | o ∷ _ ↦ o.value == 0 ]

abbrev pub is_immature : ℕ → UtxoRecord → Bool
is_immature height r = r.is_coinbase && ltb height (add_u64 r.height coinbase_maturity)

-- The locals of phase 1.
pub record Preflight : Type 0 where
  pub virtual_utxo_cache : Coins
  pub signature_tasks : List SignatureTask
  pub in_block_spent : HashSet OutPoint
  pub total_fees : ℕ

-- The locals of its loop over the inputs of one transaction.
pub record InputPass : Type 0 where
  pub spent : HashSet OutPoint
  pub tasks : List SignatureTask
  pub input_sum : ℕ

-- The set of before the block first, then what earlier transactions of the block created.
abbrev pub find_record : Coins → Coins → OutPoint → Option UtxoRecord
find_record coins created op = elim (lookup op coins) [ some r ↦ some r | none ↦ lookup op created ]

unfoldable pub preflight_input :
    Coins → Coins → ℕ → Transaction → Hash → ℕ → TxIn → InputPass → Outcome InputPass
preflight_input coins created height tx id i input p = do
  fail_if (contains (outpoint input) p.spent) double_spend_in_block
  r ← ok_or (find_record coins created (outpoint input)) missing_utxo
  fail_if (is_immature height r) immature_coinbase
  sum ← checked_money_add p.input_sum r.output.value
  ok (record {
    spent = set_insert (outpoint input) p.spent;
    tasks = p.tasks ++ record { tx = tx; index = i; core_hash = id; spent = r } ∷ [];
    input_sum = sum;
  })

unfoldable pub preflight_inputs :
    Coins → Coins → ℕ → Transaction → Hash → ℕ → List TxIn → InputPass → Outcome InputPass
preflight_inputs coins created height tx id i [] p = ok p
preflight_inputs coins created height tx id i (input ∷ rest) p =
    preflight_input coins created height tx id i input p
    >>= preflight_inputs coins created height tx id (suc i) rest

-- The record of an output at its confirmation, and its coordinates: `out_idx as u32`.
abbrev pub new_record : ℕ → Bool → TxOut → UtxoRecord
new_record height is_coinbase output = record {
  output = output;
  height = height;
  is_coinbase = is_coinbase;
}

abbrev pub new_outpoint : Hash → ℕ → OutPoint
new_outpoint id out_idx = record { tx_hash = id; vout = out_idx % 2 ^ 32 }

-- The outputs from number `i` on are inserted.
unfoldable pub create_outputs : Hash → ℕ → Bool → ℕ → List TxOut → Coins → Coins
create_outputs id height is_coinbase i [] coins = coins
create_outputs id height is_coinbase i (o ∷ os) coins =
    create_outputs id height is_coinbase (suc i) os
      (insert (new_outpoint id i) (new_record height is_coinbase o) coins)

module _ (c : Primitives) (coins : Coins) (height : ℕ) where
  -- What phase 1 does with a transaction that is not the first.
  unfoldable pub preflight_spend : Transaction → Preflight → Outcome Preflight
  preflight_spend tx p = do
    let id = calculate_id c tx
    fail_if (is_null_input tx) late_coinbase
    fail_if (is_layer2 tx) layer2_unsupported
    pass ←
        preflight_inputs coins p.virtual_utxo_cache height tx id 0 tx.inputs
          (record { spent = p.in_block_spent; tasks = p.signature_tasks; input_sum = 0 })
    output_sum ← checked_output_sum tx.outputs
    fail_if (ltb pass.input_sum output_sum) outputs_exceed_inputs
    fees ← checked_money_add p.total_fees (pass.input_sum - output_sum)
    ok (record {
      virtual_utxo_cache = create_outputs id height false 0 tx.outputs p.virtual_utxo_cache;
      signature_tasks = pass.tasks;
      in_block_spent = pass.spent;
      total_fees = fees;
    })

  -- The first transaction, the coinbase.
  unfoldable pub preflight_coinbase : Transaction → Preflight → Outcome Preflight
  preflight_coinbase tx p = do
    fail_if (not (is_null_input tx)) bad_coinbase
    ok (record p {
      virtual_utxo_cache =
          create_outputs (calculate_id c tx) height true 0 tx.outputs p.virtual_utxo_cache;
    })

  unfoldable pub preflight_tx : ℕ → Transaction → Preflight → Outcome Preflight
  unfolding preflight_coinbase preflight_spend
  preflight_tx index tx p = if index == 0 then preflight_coinbase tx p else preflight_spend tx p

  unfoldable pub preflight : ℕ → List Transaction → Preflight → Outcome Preflight
  preflight index [] p = ok p
  preflight index (tx ∷ txs) p = preflight_tx index tx p >>= preflight (suc index) txs

-- The loop of phase 3 over the inputs of a transaction.
unfoldable pub spend_inputs :
    List TxIn → Coins × List (OutPoint × UtxoRecord) → Coins × List (OutPoint × UtxoRecord)
spend_inputs [] (coins, spent) = (coins, spent)
spend_inputs (input ∷ rest) (coins, spent) = elim (lookup (outpoint input) coins) [
  | none ↦ spend_inputs rest (remove (outpoint input) coins, spent)
  | some dead ↦
      spend_inputs rest (remove (outpoint input) coins, spent ++ (outpoint input, dead) ∷ [])
]

-- Only from the second transaction on.
unfoldable pub commit_inputs :
    ℕ → List TxIn → Coins × List (OutPoint × UtxoRecord) → Coins × List (OutPoint × UtxoRecord)
commit_inputs index inputs cs = if ltb 0 index then spend_inputs inputs cs else cs

abbrev pub created_outpoints : Hash → ℕ → List TxOut → List OutPoint
created_outpoints id i [] = []
created_outpoints id i (o ∷ os) = new_outpoint id i ∷ created_outpoints id (suc i) os

module _ (c : Primitives) (height : ℕ) where
  -- Phase 3 for one transaction.
  unfoldable pub commit_tx : ℕ → Transaction → UtxoState × UtxoUndoLog → UtxoState × UtxoUndoLog
  commit_tx index tx (s, log) =
      let id = calculate_id c tx in
      let (coins, spent) = commit_inputs index tx.inputs (s.unspent_outputs, log.spent_utxos) in
      (
        record {
          unspent_outputs = create_outputs id height (index == 0) 0 tx.outputs coins;
          verified_tx_cache = set_remove id s.verified_tx_cache;
        },
        record {
          spent_utxos = spent;
          newly_created_outpoints =
              log.newly_created_outpoints ++ created_outpoints id 0 tx.outputs;
        },
      )

  unfoldable pub commit : ℕ → List Transaction → UtxoState × UtxoUndoLog → UtxoState × UtxoUndoLog
  commit index [] sl = sl
  commit index (tx ∷ txs) sl = commit (suc index) txs (commit_tx index tx sl)

abbrev pub new_log : UtxoUndoLog
new_log = record { spent_utxos = []; newly_created_outpoints = [] }

abbrev pub new_preflight : Preflight
new_preflight = record {
  virtual_utxo_cache = [];
  signature_tasks = [];
  in_block_spent = [];
  total_fees = 0;
}

module _ (c : Primitives) where
  -- Phases 1 and 2 and the check of the coinbase, which change nothing.
  unfoldable pub check_block : List Transaction → ℕ → Bool → UtxoState → Outcome (Unit {0})
  check_block [] height is_historical s = err no_transactions
  check_block (first ∷ rest) height is_historical s = do
    p ← preflight c s.unspent_outputs height 0 (first ∷ rest) new_preflight
    coinbase_output_sum ← checked_output_sum first.outputs
    expected_max ← checked_money_add (get_block_reward height) p.total_fees
    fail_if (ltb expected_max coinbase_output_sum) coinbase_too_large
    fail_if (not (all (signature_valid c s height is_historical) p.signature_tasks))
        invalid_signature
    ok tt

  -- The block enters by its transactions, all that the source reads of it.
  unfoldable pub process_block :
      List Transaction → ℕ → Bool → UtxoState → Outcome UtxoUndoLog × UtxoState
  process_block txs height is_historical s = elim (check_block txs height is_historical s) [
    | err e ↦ (err e, s)
    | ok _ ↦ let (s', log) = commit c height 0 txs (s, new_log) in (ok log, s')
  ]

-- Spent outputs are restored first, then the created ones removed.
unfoldable pub restore_all : List (OutPoint × UtxoRecord) → Coins → Coins
restore_all [] coins = coins
restore_all ((op, r) ∷ spent) coins = restore_all spent (insert op r coins)

unfoldable pub remove_outpoints : List OutPoint → Coins → Coins
remove_outpoints [] coins = coins
remove_outpoints (op ∷ ops) coins = remove_outpoints ops (remove op coins)

unfoldable pub disconnect_block : UtxoUndoLog → UtxoState → UtxoState
unfolding restore_all remove_outpoints
disconnect_block log s = record s {
  unspent_outputs =
      remove_outpoints log.newly_created_outpoints (restore_all log.spent_utxos s.unspent_outputs);
}
