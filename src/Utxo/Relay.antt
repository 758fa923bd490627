-- ===== src/Utxo/Relay.antt =====
-- src/utxo.rs: what the mempool accepts, a block may contain.
use quantum_btc.Prelude.{
  ℕ, suc, ◌+◌, ◌≤◌, ◌≡◌, refl, Bool, true, false, some, List, [], ◌∷◌, ◌++◌, arith, lookup,
  contains, set_insert, all, ok, >>=-eq-ok,
}
use quantum_btc.Crypto.Primitives.{Primitives}
use quantum_btc.Transaction.{outpoint_eq, outpoint, TxIn, Transaction, calculate_id}
use quantum_btc.Utxo.Data.{UtxoRecord, UtxoState, checked_money_add, checked_output_sum, max_money}
use quantum_btc.Utxo.Authorize.{SignatureTask, signature_valid}
use quantum_btc.Utxo.Process.{
  Coins, Preflight, is_immature, is_null_input, is_layer2, preflight_input, preflight_inputs,
  preflight_spend, create_outputs, new_preflight,
}
use quantum_btc.Utxo.Total.{values, checked_output_sum-ok}
use quantum_btc.Utxo.Spending.{all-append}
use quantum_btc.Utxo.Validate.{InputScan, validate_input, validate_inputs, validate_transaction}

module _ (c : Primitives) (s : UtxoState) (tx : Transaction) (height : ℕ) (hist : Bool) where
  abbrev task : ℕ → UtxoRecord → SignatureTask
  task i r = record { tx = tx; index = i; core_hash = calculate_id c tx; spent = r }

  -- What the loop over the inputs finds of one of them.
  validate_input-ok :
      (i : ℕ) (input : TxIn) (p p' : InputScan)
      → validate_input c s tx height hist i input p ≡ ok p'
      → (r : UtxoRecord) × (contains (outpoint input) p.tracker ≡ false)
        × (lookup (outpoint input) s.unspent_outputs ≡ some r)
        × (is_immature height r ≡ false)
        × (checked_money_add p.input_sum r.output.value ≡ ok p'.input_sum)
        × (p'.tracker ≡ set_insert (outpoint input) p.tracker)
        × (signature_valid c s height hist (task i r) ≡ true)
  unfolding validate_input signature_valid
  validate_input-ok i input p p' h = ground arith

  abbrev Signed : List SignatureTask → Type 0
  Signed tasks = all (signature_valid c s height hist) tasks ≡ true

  module _ (made : Coins) where
    -- Phase 1 of a block takes the input that the mempool's loop has taken.
    preflight_input-relay :
        (i : ℕ) (input : TxIn) (p p' : InputScan) (r : UtxoRecord) (tasks : List SignatureTask)
        → contains (outpoint input) p.tracker ≡ false
        → lookup (outpoint input) s.unspent_outputs ≡ some r
        → is_immature height r ≡ false
        → checked_money_add p.input_sum r.output.value ≡ ok p'.input_sum
        → p'.tracker ≡ set_insert (outpoint input) p.tracker
        → preflight_input s.unspent_outputs made height tx
            (calculate_id c tx)
            i
            input
            (record { spent = p.tracker; tasks = tasks; input_sum = p.input_sum })
          ≡ ok (record {
            spent = p'.tracker;
            tasks = tasks ++ task i r ∷ [];
            input_sum = p'.input_sum;
          })
    unfolding preflight_input
    preflight_input-relay i input p p' r tasks unseen found mature sum seen = ground arith

    preflight_inputs-relay :
        (inputs : List TxIn) (i : ℕ) (p p' : InputScan) (tasks : List SignatureTask)
        → validate_inputs c s tx height hist i inputs p ≡ ok p'
        → Signed tasks
        → (tasks' : List SignatureTask) × (preflight_inputs s.unspent_outputs made height tx
              (calculate_id c tx)
              i
              inputs
              (record { spent = p.tracker; tasks = tasks; input_sum = p.input_sum })
            ≡ ok (record { spent = p'.tracker; tasks = tasks'; input_sum = p'.input_sum }))
          × Signed tasks'
    unfolding validate_inputs preflight_inputs
    preflight_inputs-relay [] i p p' tasks h g =
        let same : p ≡ p' = ground arith in (tasks, rw same, g)
    preflight_inputs-relay (input ∷ rest) i p p' tasks h g =
        let (q, first, others) =
          >>=-eq-ok (validate_input c s tx height hist i input p)
            (validate_inputs c s tx height hist (suc i) rest) h in
        let (r, unseen, found, mature, sum, seen, valid) = validate_input-ok i input p q first in
        let (tasks', flight, g') =
          preflight_inputs-relay rest (suc i) q p' (tasks ++ task i r ∷ []) others
            (ground (arith, all-append (signature_valid c s height hist) tasks (task i r ∷ []))) in
        (
          tasks',
          rw (preflight_input-relay i input p q r tasks unseen found mature sum seen) flight,
          g',
        )

  validate_transaction-ok :
      (fee : ℕ)
      → validate_transaction c s tx height hist ≡ ok fee
      → (scan : InputScan) × (validate_inputs c s tx height hist 0 tx.inputs
            (record { tracker = []; input_sum = 0 })
          ≡ ok scan)
        × (checked_output_sum tx.outputs ≡ ok (values tx.outputs))
        × (scan.input_sum ≡ values tx.outputs + fee)
        × (is_layer2 tx ≡ false)
  unfolding validate_transaction
  validate_transaction-ok fee h = grind (arith, checked_output_sum-ok)

  -- A transaction that the mempool's check accepts, with a fee of at most 21,000,000 coins, passes
  -- phases 1 and 2 of a block at that height on that state with the same fee, as the first
  -- transaction after a coinbase whose outputs are `made`, unless it is of the form of a coinbase.
  pub validate_transaction-relay :
      (fee : ℕ) (made : Coins)
      → validate_transaction c s tx height hist ≡ ok fee
      → fee ≤ max_money
      → is_null_input tx ≡ false
      → (p : Preflight) × (preflight_spend c s.unspent_outputs height tx
            (record new_preflight { virtual_utxo_cache = made })
          ≡ ok p)
        × (p.total_fees ≡ fee)
        × (all (signature_valid c s height hist) p.signature_tasks ≡ true)
  unfolding preflight_spend checked_money_add
  validate_transaction-relay fee made h small plain =
      let (scan, loop, outs, sums, plain2) = validate_transaction-ok fee h in
      let (tasks, flight, g) =
        preflight_inputs-relay made tx.inputs 0 (record { tracker = []; input_sum = 0 }) scan []
          loop refl in
      (
        record {
          virtual_utxo_cache = create_outputs (calculate_id c tx) height false 0 tx.outputs made;
          signature_tasks = tasks;
          in_block_spent = scan.tracker;
          total_fees = fee;
        },
        ground arith,
        refl,
        g,
      )
