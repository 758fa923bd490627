-- ===== src/Utxo/Undo.antt =====
-- src/utxo.rs: `disconnect_block` with the log of `process_block` gives the set of before back.
use quantum_btc.Prelude.{
  ℕ, suc, ◌≡◌, refl, inl, inr, Bool, true, false, ◌||◌, Option, none, some, Option-cases, List, [],
  ◌∷◌, ◌++◌, Hash, arith, lookup, insert, remove, contains, lookup-insert, lookup-remove, beq, ok,
  if◌then◌else◌, ◌==◌,
}
use quantum_btc.Crypto.Primitives.{Primitives}
use quantum_btc.Transaction.{
  OutPoint, outpoint_eq, outpoint, same_outpoint_iff, TxIn, TxOut, Transaction, calculate_id,
}
use quantum_btc.Utxo.Data.{UtxoRecord, UtxoUndoLog, UtxoState}
use quantum_btc.Utxo.Process.{
  Coins, new_record, new_outpoint, created_outpoints, create_outputs, spend_inputs, commit_inputs,
  commit_tx, commit, new_log, check_block, process_block, restore_all, remove_outpoints,
  disconnect_block,
}

-- The record that a list of spent outputs gives back last, if any.
unfoldable pub restored : OutPoint → List (OutPoint × UtxoRecord) → Option UtxoRecord
restored k spent = lookup k (restore_all spent [])

abbrev pub or_else : Option UtxoRecord → Option UtxoRecord → Option UtxoRecord
or_else none o = o
or_else (some r) o = some r

pub lookup-restore_all :
    (k : OutPoint) (spent : List (OutPoint × UtxoRecord)) (coins : Coins)
    → lookup k (restore_all spent coins) ≡ or_else (restored k spent) (lookup k coins)
unfolding restore_all restored lookup
lookup-restore_all k [] coins = refl
lookup-restore_all k ((op, r) ∷ spent) coins = ground (
  arith,
  lookup-restore_all k spent (insert op r coins),
  lookup-restore_all k spent (insert op r []),
  lookup-insert op k r coins,
  lookup-insert op k r [],
)

restore_all-snoc :
    (spent : List (OutPoint × UtxoRecord)) (op : OutPoint) (r : UtxoRecord) (coins : Coins)
    → restore_all (spent ++ (op, r) ∷ []) coins ≡ insert op r (restore_all spent coins)
unfolding restore_all
restore_all-snoc [] op r coins = refl
restore_all-snoc ((op', r') ∷ spent) op r coins = restore_all-snoc spent op r (insert op' r' coins)

restored-snoc :
    (k : OutPoint) (spent : List (OutPoint × UtxoRecord)) (op : OutPoint) (r : UtxoRecord)
    → restored k (spent ++ (op, r) ∷ []) ≡ (if beq op k then some r else restored k spent)
unfolding restored
restored-snoc k spent op r = rw restore_all-snoc (lookup-insert op k r (restore_all spent []))

lookup-remove_outpoints :
    (k : OutPoint) (ops : List OutPoint) (coins : Coins)
    → lookup k (remove_outpoints ops coins) ≡ (if contains k ops then none else lookup k coins)
unfolding remove_outpoints contains
lookup-remove_outpoints k [] coins = refl
lookup-remove_outpoints k (op ∷ ops) coins =
    ground (arith, lookup-remove_outpoints k ops (remove op coins), lookup-remove op k coins)

contains-append :
    (k : OutPoint) (xs ys : List OutPoint)
    → contains k (xs ++ ys) ≡ (contains k xs || contains k ys)
unfolding contains
contains-append k [] ys = refl
contains-append k (x ∷ xs) ys = ground (arith, contains-append k xs ys)

lookup-create_outputs_ne :
    (k : OutPoint) (id : Hash) (height : ℕ) (b : Bool) (i : ℕ) (os : List TxOut) (coins : Coins)
    → contains k (created_outpoints id i os) ≡ false
    → lookup k (create_outputs id height b i os coins) ≡ lookup k coins
unfolding create_outputs contains
lookup-create_outputs_ne k id height b i [] coins h = refl
lookup-create_outputs_ne k id height b i (o ∷ os) coins h = ground (
  arith,
  lookup-create_outputs_ne k id height b (suc i) os
      (insert (new_outpoint id i) (new_record height b o) coins),
  lookup-insert (new_outpoint id i) k (new_record height b o) coins,
)

-- Of one key: whether the block has created it, what the log restores, what the set holds now and
-- what it held before the block.
abbrev pub Reverts : Bool → Option UtxoRecord → Option UtxoRecord → Option UtxoRecord → Type 0
Reverts true logged now before = before ≡ none
Reverts false none now before = now ≡ before
Reverts false (some r) now before = (now ≡ none) × (before ≡ some r)

module _ (k : OutPoint) (before : Option UtxoRecord) (created : Bool) where
  spend_inputs-Reverts :
      (inputs : List TxIn) (coins : Coins) (spent : List (OutPoint × UtxoRecord))
      → Reverts created (restored k spent) (lookup k coins) before
      → let (coins', spent') = spend_inputs inputs (coins, spent) in
        Reverts created (restored k spent') (lookup k coins') before
  unfolding spend_inputs
  spend_inputs-Reverts [] coins spent h = h
  spend_inputs-Reverts (input ∷ rest) coins spent h =
      elim (Option-cases (lookup (outpoint input) coins)) [
        | inl missing ↦
            rw (missing, spend_inputs)
              (spend_inputs-Reverts rest (remove (outpoint input) coins) spent (
                ground (
                  arith,
                  lookup-remove (outpoint input) k coins,
                  same_outpoint_iff (outpoint input) k,
                )))
        | inr (r, found) ↦
            rw (found, spend_inputs)
              (spend_inputs-Reverts rest (remove (outpoint input) coins)
                (spent ++ (outpoint input, r) ∷ [])
                (ground (
                  arith,
                  lookup-remove (outpoint input) k coins,
                  restored-snoc k spent (outpoint input) r,
                  same_outpoint_iff (outpoint input) k,
                )))
      ]

  commit_inputs-Reverts :
      (index : ℕ) (inputs : List TxIn) (coins : Coins) (spent : List (OutPoint × UtxoRecord))
      → Reverts created (restored k spent) (lookup k coins) before
      → let (coins', spent') = commit_inputs index inputs (coins, spent) in
        Reverts created (restored k spent') (lookup k coins') before
  unfolding commit_inputs
  commit_inputs-Reverts index inputs coins spent h =
      ground (arith, spend_inputs-Reverts inputs coins spent h)

-- The coordinates of all outputs of a list of transactions, in order.
unfoldable pub block_outpoints : Primitives → List Transaction → List OutPoint
block_outpoints c [] = []
block_outpoints c (tx ∷ txs) =
    created_outpoints (calculate_id c tx) 0 tx.outputs ++ block_outpoints c txs

module _ (c : Primitives) (height : ℕ) (k : OutPoint) (before : Option UtxoRecord) where
  -- The key is treated alike by the log and by the set.
  abbrev Tracked : UtxoState × UtxoUndoLog → Type 0
  Tracked sl =
      Reverts (contains k sl.1.newly_created_outpoints) (restored k sl.1.spent_utxos)
        (lookup k sl.0.unspent_outputs) before

  create-Reverts :
      (id : Hash) (b : Bool) (os : List TxOut) (ops : List OutPoint)
      (spent : List (OutPoint × UtxoRecord)) (coins : Coins)
      → (contains k (created_outpoints id 0 os) ≡ true → before ≡ none)
      → Reverts (contains k ops) (restored k spent) (lookup k coins) before
      → Reverts
          (contains k (ops ++ created_outpoints id 0 os))
          (restored k spent)
          (lookup k (create_outputs id height b 0 os coins))
          before
  create-Reverts id b os ops spent coins fresh h = ground (
    arith,
    contains-append k ops (created_outpoints id 0 os),
    lookup-create_outputs_ne k id height b 0 os coins,
  )

  commit_tx-Tracked :
      (index : ℕ) (tx : Transaction) (sl : UtxoState × UtxoUndoLog)
      → (contains k (created_outpoints (calculate_id c tx) 0 tx.outputs) ≡ true → before ≡ none)
      → Tracked sl
      → Tracked (commit_tx c height index tx sl)
  unfolding commit_tx
  commit_tx-Tracked index tx (s, log) fresh h =
      let (coins, spent) = commit_inputs index tx.inputs (s.unspent_outputs, log.spent_utxos) in
      create-Reverts (calculate_id c tx) (index == 0) tx.outputs log.newly_created_outpoints spent
        coins fresh
        (commit_inputs-Reverts k before (contains k log.newly_created_outpoints) index tx.inputs
          s.unspent_outputs log.spent_utxos h)

  commit-Tracked :
      (index : ℕ) (txs : List Transaction) (sl : UtxoState × UtxoUndoLog)
      → (contains k (block_outpoints c txs) ≡ true → before ≡ none)
      → Tracked sl
      → Tracked (commit c height index txs sl)
  unfolding commit block_outpoints
  commit-Tracked index [] sl fresh h = h
  commit-Tracked index (tx ∷ txs) sl fresh h =
      commit-Tracked (suc index) txs (commit_tx c height index tx sl)
        (λ e. fresh (
          ground (
            arith,
            contains-append k (created_outpoints (calculate_id c tx) 0 tx.outputs)
                (block_outpoints c txs),
          )))
        (commit_tx-Tracked index tx sl
          (λ e. fresh (
            ground (
              arith,
              contains-append k (created_outpoints (calculate_id c tx) 0 tx.outputs)
                  (block_outpoints c txs),
            )))
          h)

new_log-Reverts :
    (k : OutPoint) (o : Option UtxoRecord) → Reverts (contains k []) (restored k []) o o
unfolding contains restored restore_all lookup
new_log-Reverts k o = refl

module _ (c : Primitives) where
  -- The result and the state of a block that is accepted.
  pub process_block-ok :
      (txs : List Transaction) (height : ℕ) (hist : Bool) (s s' : UtxoState) (log : UtxoUndoLog)
      → process_block c txs height hist s ≡ (ok log, s')
      → (check_block c txs height hist s ≡ ok tt) × (commit c height 0 txs (s, new_log) ≡ (s', log))
  unfolding process_block
  process_block-ok txs height hist s s' log h = ground arith

  pub process_block-Reverts :
      (txs : List Transaction) (height : ℕ) (hist : Bool) (s s' : UtxoState) (log : UtxoUndoLog)
      (k : OutPoint)
      → process_block c txs height hist s ≡ (ok log, s')
      → ((op : OutPoint)
          → contains op (block_outpoints c txs) ≡ true
          → lookup op s.unspent_outputs ≡ none)
      → Reverts
          (contains k log.newly_created_outpoints)
          (restored k log.spent_utxos)
          (lookup k s'.unspent_outputs)
          (lookup k s.unspent_outputs)
  process_block-Reverts txs height hist s s' log k h fresh =
      let (_, done) = process_block-ok txs height hist s s' log h in
      rw done at (
        commit-Tracked c height k (lookup k s.unspent_outputs) 0 txs (s, new_log) (fresh k)
          (new_log-Reverts k (lookup k s.unspent_outputs)))

  -- Disconnecting an accepted block with the undo log that its connection returned gives back
  -- every entry of the UTXO set of before, and no other, if none of the coordinates that the block
  -- creates was in that set. Outputs that the block both creates and spends are included.
  pub disconnect_block-process_block :
      (txs : List Transaction) (height : ℕ) (hist : Bool) (s s' : UtxoState) (log : UtxoUndoLog)
      (k : OutPoint)
      → process_block c txs height hist s ≡ (ok log, s')
      → ((op : OutPoint)
          → contains op (block_outpoints c txs) ≡ true
          → lookup op s.unspent_outputs ≡ none)
      → lookup k (disconnect_block log s').unspent_outputs ≡ lookup k s.unspent_outputs
  unfolding disconnect_block
  disconnect_block-process_block txs height hist s s' log k h fresh = ground (
    arith,
    process_block-Reverts txs height hist s s' log k h fresh,
    lookup-remove_outpoints k log.newly_created_outpoints
        (restore_all log.spent_utxos s'.unspent_outputs),
    lookup-restore_all k log.spent_utxos s'.unspent_outputs,
  )
