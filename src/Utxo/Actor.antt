-- ===== src/Utxo/Actor.antt =====
-- src/utxo.rs: the commands of `UtxoActor`, which owns the state and takes them one by one.
use quantum_btc.Prelude.{
  ℕ, suc, Bool, true, false, not, ◌&&◌, List, [], ◌∷◌, length, Hash, HashSet, contains,
  contains_key, set_insert, set_remove, nat_eq, ok, err, ltb, if◌then◌else◌,
}
use quantum_btc.Crypto.Primitives.{Primitives}
use quantum_btc.Transaction.{
  OutPoint, outpoint_eq, outpoint, TxIn, TxOut, Transaction, calculate_id,
}
use quantum_btc.Utxo.Data.{UtxoState, UtxoUndoLog, Outcome}
use quantum_btc.Utxo.Process.{Coins, new_outpoint, process_block, disconnect_block}
use quantum_btc.Utxo.Validate.{validate_transaction}
use quantum_btc.Utxo.Wallet.{get_balance, get_spendable_utxos}

-- A transaction of the mempool's snapshot.
pub record Pending : Type 0 where
  pub tx_id : Hash
  pub inputs : List TxIn
  pub outputs : List TxOut

-- A block is given by its transactions, all that `process_block` reads of it.
pub data UtxoCommand : Type 0 where
  validate_mempool_tx : Transaction → ℕ → Bool → UtxoCommand
  apply_block : List Transaction → ℕ → Bool → UtxoCommand
  disconnect_block_by : UtxoUndoLog → UtxoCommand
  get_spendable : Hash → ℕ → ℕ → List Transaction → UtxoCommand
  balance_of : Hash → ℕ → List Transaction → UtxoCommand
  get_snapshot : UtxoCommand
  reconcile_mempool : List Pending → UtxoCommand

-- What the actor sends back.
pub data Response : Type 0 where
  fee : Outcome ℕ → Response
  undo : Outcome UtxoUndoLog → Response
  disconnected : Response
  spendable : Outcome (Coins × ℕ) → Response
  balance : ℕ × (ℕ × ℕ) → Response
  snapshot : UtxoState → Response
  blacklist : List Hash → Response

abbrev pub max_cache : ℕ
max_cache = 100_000

-- An input is missing from the state and from the sandbox.
unfoldable pub is_ghost : Coins → HashSet OutPoint → List TxIn → Bool
is_ghost coins sandbox [] = false
is_ghost coins sandbox (input ∷ rest) =
    if not (contains_key (outpoint input) coins) && not (contains (outpoint input) sandbox)
    then true
    else is_ghost coins sandbox rest

unfoldable pub project_outputs : Hash → ℕ → List TxOut → HashSet OutPoint → HashSet OutPoint
project_outputs id i [] sandbox = sandbox
project_outputs id i (_ ∷ outputs) sandbox =
    project_outputs id (suc i) outputs (set_insert (new_outpoint id i) sandbox)

-- The loop of `ReconcileMempool`: the transactions that it blacklists, in order.
unfoldable pub reconcile : Coins → HashSet OutPoint → List Pending → List Hash
unfolding is_ghost project_outputs
reconcile coins sandbox [] = []
reconcile coins sandbox (tx ∷ txs) =
    let dropped = reconcile coins sandbox txs in
    let kept = reconcile coins (project_outputs tx.tx_id 0 tx.outputs sandbox) txs in
    if is_ghost coins sandbox tx.inputs then tx.tx_id ∷ dropped else kept

module _ (c : Primitives) where
  -- The cache as the result of the validation leaves it.
  abbrev pub cache_after : Outcome ℕ → Bool → Hash → HashSet Hash → HashSet Hash
  cache_after (ok _) temporary_cache id cache =
      set_insert id (if ltb max_cache (length cache) then [] else cache)
  cache_after (err _) temporary_cache id cache =
      if temporary_cache then set_remove id cache else cache

  unfoldable pub validate_for_mempool : Transaction → ℕ → Bool → UtxoState → UtxoState × Outcome ℕ
  validate_for_mempool tx current_height crypto_pre_verified s =
      let id = calculate_id c tx in
      let temporary_cache = crypto_pre_verified && not (contains id s.verified_tx_cache) in
      let injected =
        if temporary_cache
        then record s { verified_tx_cache = set_insert id s.verified_tx_cache }
        else s in
      let result = validate_transaction c injected tx current_height false in
      (
        record injected {
          verified_tx_cache = cache_after result temporary_cache id injected.verified_tx_cache;
        },
        result,
      )

  -- One turn of the actor's loop.
  unfoldable pub handle : UtxoCommand → UtxoState → UtxoState × Response
  unfolding validate_for_mempool
  handle (validate_mempool_tx tx height pre) s =
      let (s', result) = validate_for_mempool tx height pre s in (s', fee result)
  handle (apply_block txs height hist) s =
      let (result, s') = process_block c txs height hist s in (s', undo result)
  handle (disconnect_block_by log) s = (disconnect_block log s, disconnected)
  handle (get_spendable key height amount pending) s =
      (s, spendable (get_spendable_utxos key height amount pending s))
  handle (balance_of key height pending) s = (s, balance (get_balance key height pending s))
  handle get_snapshot s = (s, snapshot s)
  handle (reconcile_mempool pending) s = (s, blacklist (reconcile s.unspent_outputs [] pending))
