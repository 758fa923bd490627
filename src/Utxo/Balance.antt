-- ===== src/Utxo/Balance.antt =====
-- src/utxo.rs: the money of a block, by what its transactions spend and make.
use quantum_btc.Prelude.{
  ℕ, suc, ◌+◌, ◌≤◌, ◌≡◌, Bool, true, false, Hash, Option, none, some, List, [], ◌∷◌, arith, ok,
  >>=-eq-ok,
}
use quantum_btc.Economics.{get_block_reward}
use quantum_btc.Crypto.Primitives.{Primitives}
use quantum_btc.Transaction.{outpoint, TxIn, Transaction, calculate_id}
use quantum_btc.Utxo.Data.{UtxoState, UtxoUndoLog, UtxoRecord}
use quantum_btc.Utxo.Process.{
  Coins, Preflight, InputPass, find_record, preflight_input, preflight_inputs, preflight_tx,
  preflight, create_outputs, new_preflight, process_block,
}
use quantum_btc.Utxo.Total.{total, values, IsMap}
use quantum_btc.Utxo.Linked.{preflight_input-ok}
use quantum_btc.Utxo.Supply.{
  IsWellNumbered, IsNew, preflight_spend-ok, preflight_tx-suc, preflight_tx-zero,
  process_block-moves,
}

abbrev pub value_or_zero : Option UtxoRecord → ℕ
value_or_zero none = 0
value_or_zero (some r) = r.output.value

-- What inputs spend: outputs of the set of before the block, or else of its earlier transactions.
abbrev pub input_values : Coins → Coins → List TxIn → ℕ
input_values base made [] = 0
input_values base made (input ∷ inputs) =
    value_or_zero (find_record base made (outpoint input)) + input_values base made inputs

-- What transactions after the coinbase spend and make.
abbrev pub spent_values : Primitives → ℕ → Coins → Coins → List Transaction → ℕ
spent_values c height base made [] = 0
spent_values c height base made (tx ∷ txs) =
    input_values base made tx.inputs
    + spent_values c height base (create_outputs (calculate_id c tx) height false 0 tx.outputs made)
        txs

abbrev pub output_values : List Transaction → ℕ
output_values [] = 0
output_values (tx ∷ txs) = values tx.outputs + output_values txs

preflight_inputs-sum :
    (base made : Coins) (height : ℕ) (tx : Transaction) (id : Hash) (i : ℕ) (inputs : List TxIn)
    (p p' : InputPass)
    → preflight_inputs base made height tx id i inputs p ≡ ok p'
    → p'.input_sum ≡ p.input_sum + input_values base made inputs
unfolding preflight_inputs
preflight_inputs-sum base made height tx id i [] p p' h = ground arith
preflight_inputs-sum base made height tx id i (input ∷ rest) p p' h =
    let (q, first, others) =
      >>=-eq-ok (preflight_input base made height tx id i input p)
        (preflight_inputs base made height tx id (suc i) rest) h in
    let (r, _, found, _, q_eq) = preflight_input-ok base made height tx id i input p q first in
    let later = preflight_inputs-sum base made height tx id (suc i) rest q p' others in
    ground (arith, found, q_eq, later)

module _ (c : Primitives) (height : ℕ) where
  -- The fees that phase 1 counts are what the transactions spend less what they make.
  preflight-fees :
      (txs : List Transaction) (n : ℕ) (base : Coins) (p p' : Preflight)
      → preflight c base height (suc n) txs p ≡ ok p'
      → p'.total_fees + output_values txs
        ≡ p.total_fees + spent_values c height base p.virtual_utxo_cache txs
  unfolding preflight
  preflight-fees [] n base p p' h = ground arith
  preflight-fees (tx ∷ txs) n base p p' h =
      let (q, first, others) =
        >>=-eq-ok (preflight_tx c base height (suc n) tx p)
          (preflight c base height (suc (suc n)) txs) h in
      let spend = preflight_tx-suc c height base n tx p q first in
      let (pass, inputs, covered, q_eq) = preflight_spend-ok c height base tx p q spend in
      let sum =
        preflight_inputs-sum base p.virtual_utxo_cache height tx (calculate_id c tx) 0 tx.inputs _
          pass inputs in
      let rest = preflight-fees txs (suc n) base q p' others in
      omega (arith, sum, covered, rw q_eq at rest)

  -- The UTXO set after an accepted block and what its transactions after the coinbase spend are worth
  -- as much as the set before it and what all its transactions make. The transactions make at most
  -- the subsidy of the height more than they spend, and the set still holds no coordinates twice. The
  -- block's transactions have different identifiers, at most 2^32 outputs each, and no output that
  -- the set holds already.
  pub process_block-conserves :
      (first : Transaction) (rest : List Transaction) (hist : Bool) (s s' : UtxoState)
      (log : UtxoUndoLog)
      → process_block c (first ∷ rest) height hist s ≡ (ok log, s')
      → IsMap s.unspent_outputs
      → IsWellNumbered c (first ∷ rest)
      → IsNew c s.unspent_outputs (first ∷ rest)
      → let made = create_outputs (calculate_id c first) height true 0 first.outputs [] in
        let spent = spent_values c height s.unspent_outputs made rest in
        (total s'.unspent_outputs + spent
          ≡ total s.unspent_outputs + values first.outputs + output_values rest)
        × (values first.outputs + output_values rest ≤ get_block_reward height + spent)
        × IsMap s'.unspent_outputs
  unfolding preflight
  process_block-conserves first rest hist s s' log h m w f =
      let (p, flight, moved, bound, m') =
        process_block-moves c height first rest hist s s' log h m w f in
      let base = s.unspent_outputs in
      let (q, coinbase, others) =
        >>=-eq-ok (preflight_tx c base height 0 first new_preflight)
          (preflight c base height 1 rest) flight in
      let q_eq = preflight_tx-zero c height base first new_preflight q coinbase in
      let fees = rw q_eq at (preflight-fees rest 0 base q p others) in
      (omega (arith, moved, fees), omega (arith, bound, fees), m')
