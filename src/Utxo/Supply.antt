-- ===== src/Utxo/Supply.antt =====
-- src/utxo.rs: a block adds no more money to the set than its subsidy.
use quantum_btc.Prelude.{
  ℕ, suc, ◌+◌, ◌-◌, ◌^◌, ◌≤◌, ◌≡◌, ◌≢◌, refl, ap, Bool, true, false, List, [], ◌∷◌, Hash, arith,
  lookup, contains, ok, length, all, All, >>=-eq-ok, lookup-insert, insert, none,
}
use quantum_btc.Economics.{get_block_reward}
use quantum_btc.Crypto.Primitives.{Primitives}
use quantum_btc.Transaction.{OutPoint, outpoint_eq, TxOut, Transaction, calculate_id}
use quantum_btc.Utxo.Data.{UtxoState, UtxoUndoLog, UtxoRecord, checked_money_add}
use quantum_btc.Utxo.Process.{
  Coins, Preflight, InputPass, preflight_inputs, preflight_spend, preflight_tx, preflight,
  create_outputs, new_record, new_outpoint, spend_inputs, commit_inputs, commit_tx, commit, new_log,
  new_preflight, check_block, process_block,
}
use quantum_btc.Utxo.Authorize.{signature_valid}
use quantum_btc.Utxo.Total.{total, values, IsMap, checked_output_sum-ok}
use quantum_btc.Utxo.Linked.{IsLinked, IsAbsent, spend_inputs-IsLinked, create_outputs-IsLinked}
use quantum_btc.Utxo.Undo.{process_block-ok}

module _ (c : Primitives) where
  -- Every transaction has fewer than 2^32 outputs, and the identifiers differ.
  abbrev pub IsWellNumbered : List Transaction → Type 0
  IsWellNumbered [] = Unit
  IsWellNumbered (tx ∷ txs) =
      (length tx.outputs ≤ 2 ^ 32)
      × All (λ u. calculate_id c tx ≢ calculate_id c u) txs
      × IsWellNumbered txs

  -- No output of one of the transactions is in the set.
  abbrev pub IsNew : Coins → List Transaction → Type 0
  IsNew coins txs = All (λ tx. IsAbsent (calculate_id c tx) 0 coins) txs

lookup-nil : (op : OutPoint) → lookup {V = UtxoRecord} op [] ≡ none
unfolding lookup
lookup-nil op = refl

nil-IsNew : (c : Primitives) (txs : List Transaction) → IsNew c [] txs
nil-IsNew c [] = tt
nil-IsNew c (tx ∷ txs) = (λ j le. lookup-nil _, nil-IsNew c txs)

module _ (c : Primitives) (height : ℕ) where
  create_outputs-IsAbsent :
      (b : Bool) (id other : Hash) (i : ℕ) (os : List TxOut) (coins : Coins)
      → id ≢ other
      → IsAbsent other 0 coins
      → IsAbsent other 0 (create_outputs id height b i os coins)
  unfolding create_outputs
  create_outputs-IsAbsent b id other i [] coins ne a = a
  create_outputs-IsAbsent b id other i (o ∷ os) coins ne a =
      create_outputs-IsAbsent b id other (suc i) os
        (insert (new_outpoint id i) (new_record height b o) coins) ne
        (λ j le. ground (
          arith,
          a j le,
          lookup-insert (new_outpoint id i) (record { tx_hash = other; vout = j })
              (new_record height b o) coins,
        ))

  create_outputs-IsNew :
      (b : Bool) (tx : Transaction) (txs : List Transaction) (coins : Coins)
      → All (λ u. calculate_id c tx ≢ calculate_id c u) txs
      → IsNew c coins txs
      → IsNew c (create_outputs (calculate_id c tx) height b 0 tx.outputs coins) txs
  create_outputs-IsNew b tx [] coins d n = tt
  create_outputs-IsNew b tx (u ∷ us) coins d n = (
    create_outputs-IsAbsent b (calculate_id c tx) (calculate_id c u) 0 tx.outputs coins d.0 n.0,
    create_outputs-IsNew b tx us coins d.1 n.1,
  )

  pub preflight_spend-ok :
      (base : Coins) (tx : Transaction) (p p' : Preflight)
      → preflight_spend c base height tx p ≡ ok p'
      → (pass : InputPass) × (preflight_inputs base p.virtual_utxo_cache height tx
            (calculate_id c tx)
            0
            tx.inputs
            (record { spent = p.in_block_spent; tasks = p.signature_tasks; input_sum = 0 })
          ≡ ok pass)
        × (values tx.outputs ≤ pass.input_sum)
        × (p' ≡ record {
          virtual_utxo_cache =
              create_outputs (calculate_id c tx) height false 0 tx.outputs p.virtual_utxo_cache;
          signature_tasks = pass.tasks;
          in_block_spent = pass.spent;
          total_fees = p.total_fees + (pass.input_sum - values tx.outputs);
        })
  unfolding preflight_spend checked_money_add
  preflight_spend-ok base tx p p' h = grind (arith, checked_output_sum-ok)

  -- What links the locals of phase 1 to the state that phase 3 would have reached.
  abbrev Links : Coins → Preflight → UtxoState → Type 0
  Links base p s = IsLinked base p.virtual_utxo_cache p.in_block_spent s.unspent_outputs

  commit_spend :
      (n : ℕ) (tx : Transaction) (s : UtxoState) (log : UtxoUndoLog)
      → (commit_tx c height (suc n) tx (s, log)).0.unspent_outputs
        ≡ create_outputs
            (calculate_id c tx)
            height
            false
            0
            tx.outputs
            (spend_inputs tx.inputs (s.unspent_outputs, log.spent_utxos)).0
  unfolding commit_tx commit_inputs
  commit_spend n tx s log = ground arith

  spend-Links :
      (n : ℕ) (base : Coins) (tx : Transaction) (p p' : Preflight) (s : UtxoState)
      (log : UtxoUndoLog)
      → preflight_spend c base height tx p ≡ ok p'
      → length tx.outputs ≤ 2 ^ 32
      → IsAbsent (calculate_id c tx) 0 base
      → IsAbsent (calculate_id c tx) 0 p.virtual_utxo_cache
      → Links base p s
      → let (s', _) = commit_tx c height (suc n) tx (s, log) in
        Links base p' s'
        × (total s'.unspent_outputs + p'.total_fees ≡ total s.unspent_outputs + p.total_fees)
        × (p'.virtual_utxo_cache
            ≡ create_outputs (calculate_id c tx) height false 0 tx.outputs p.virtual_utxo_cache)
  spend-Links n base tx p p' s log h fits fresh new l =
      let id = calculate_id c tx in
      let (pass, inputs, covered, p_eq) = preflight_spend-ok base tx p p' h in
      let begin : InputPass = record {
        spent = p.in_block_spent;
        tasks = p.signature_tasks;
        input_sum = 0;
      } in
      let (l1, sums) =
        spend_inputs-IsLinked base p.virtual_utxo_cache height tx id tx.inputs 0 begin pass
          s.unspent_outputs log.spent_utxos inputs l in
      let left = (spend_inputs tx.inputs (s.unspent_outputs, log.spent_utxos)).0 in
      let (l2, more) =
        create_outputs-IsLinked base height false id tx.outputs 0 p.virtual_utxo_cache pass.spent
          left (omega arith) fresh new l1 in
      rw (p_eq, commit_spend n tx s log) (l2, omega arith, refl)

  pub preflight_tx-suc :
      (base : Coins) (n : ℕ) (tx : Transaction) (p q : Preflight)
      → preflight_tx c base height (suc n) tx p ≡ ok q
      → preflight_spend c base height tx p ≡ ok q
  unfolding preflight_tx
  preflight_tx-suc base n tx p q h = grind arith

  -- The transactions after the coinbase move money to outputs and to fees, and make none.
  preflight-Links :
      (txs : List Transaction) (n : ℕ) (base : Coins) (p p' : Preflight) (s : UtxoState)
      (log : UtxoUndoLog)
      → preflight c base height (suc n) txs p ≡ ok p'
      → IsWellNumbered c txs
      → IsNew c base txs
      → IsNew c p.virtual_utxo_cache txs
      → Links base p s
      → let (s', _) = commit c height (suc n) txs (s, log) in
        IsMap s'.unspent_outputs
        × (total s'.unspent_outputs + p'.total_fees ≡ total s.unspent_outputs + p.total_fees)
  unfolding preflight commit
  preflight-Links [] n base p p' s log h w f v l =
      let same : p' ≡ p = ground arith in rw same (l.is_map, refl)
  preflight-Links (tx ∷ txs) n base p p' s log h w f v l =
      let (q, first, others) =
        >>=-eq-ok (preflight_tx c base height (suc n) tx p)
          (preflight c base height (suc (suc n)) txs) h in
      let spend : preflight_spend c base height tx p ≡ ok q =
        preflight_tx-suc base n tx p q first in
      let (l', sums, made) = spend-Links n base tx p q s log spend w.0 f.0 v.0 l in
      let (s', log') = commit_tx c height (suc n) tx (s, log) in
      let v' : IsNew c q.virtual_utxo_cache txs =
        rw made (create_outputs-IsNew false tx txs p.virtual_utxo_cache w.1 v.1) in
      let (m, rest) = preflight-Links txs (suc n) base q p' s' log' others w.2 f.1 v' l' in
      (m, omega (arith, sums, rest))

  pub preflight_tx-zero :
      (base : Coins) (tx : Transaction) (p q : Preflight)
      → preflight_tx c base height 0 tx p ≡ ok q
      → q ≡ record p {
        virtual_utxo_cache =
            create_outputs (calculate_id c tx) height true 0 tx.outputs p.virtual_utxo_cache;
      }
  unfolding preflight_tx
  preflight_tx-zero base tx p q h = ground arith

  commit_coinbase :
      (tx : Transaction) (s : UtxoState) (log : UtxoUndoLog)
      → (commit_tx c height 0 tx (s, log)).0.unspent_outputs
        ≡ create_outputs (calculate_id c tx) height true 0 tx.outputs s.unspent_outputs
  unfolding commit_tx commit_inputs
  commit_coinbase tx s log = refl

  pub check_block-ok :
      (first : Transaction) (rest : List Transaction) (hist : Bool) (s : UtxoState)
      → check_block c (first ∷ rest) height hist s ≡ ok tt
      → (p : Preflight) × (preflight c s.unspent_outputs height 0 (first ∷ rest) new_preflight
          ≡ ok p)
        × (values first.outputs ≤ get_block_reward height + p.total_fees)
        × (all (signature_valid c s height hist) p.signature_tasks ≡ true)
  unfolding check_block checked_money_add
  check_block-ok first rest hist s h = grind (arith, checked_output_sum-ok)

  start-IsLinked : (base : Coins) → IsMap base → IsLinked base [] [] base
  unfolding lookup contains
  start-IsLinked base m = record { at = λ op. ground arith; known = λ op. cc; is_map = m }

  -- The money that an accepted block moves, by the fees that phase 1 counts.
  pub process_block-moves :
      (first : Transaction) (rest : List Transaction) (hist : Bool) (s s' : UtxoState)
      (log : UtxoUndoLog)
      → process_block c (first ∷ rest) height hist s ≡ (ok log, s')
      → IsMap s.unspent_outputs
      → IsWellNumbered c (first ∷ rest)
      → IsNew c s.unspent_outputs (first ∷ rest)
      → (p : Preflight) × (preflight c s.unspent_outputs height 0 (first ∷ rest) new_preflight
          ≡ ok p)
        × (total s'.unspent_outputs + p.total_fees ≡ total s.unspent_outputs + values first.outputs)
        × (values first.outputs ≤ get_block_reward height + p.total_fees)
        × IsMap s'.unspent_outputs
  unfolding preflight commit
  process_block-moves first rest hist s s' log h m w f =
      let (checked, done) = process_block-ok c (first ∷ rest) height hist s s' log h in
      let (p, flight, bound, _) = check_block-ok first rest hist s checked in
      let base = s.unspent_outputs in
      let id = calculate_id c first in
      let (q, coinbase, others) =
        >>=-eq-ok (preflight_tx c base height 0 first new_preflight)
          (preflight c base height 1 rest) flight in
      let q_eq = preflight_tx-zero base first new_preflight q coinbase in
      let (l, sums) =
        create_outputs-IsLinked base height true id first.outputs 0 [] [] base (omega arith) f.0
          (λ j le. lookup-nil _) (start-IsLinked base m) in
      let (s1, log1) = commit_tx c height 0 first (s, new_log) in
      let linked : Links base q s1 = rw (q_eq, commit_coinbase first s new_log) l in
      let new : IsNew c q.virtual_utxo_cache rest =
        rw q_eq (create_outputs-IsNew true first rest [] w.1 (nil-IsNew c rest)) in
      let (m', kept) = preflight-Links rest 0 base q p s1 log1 others w.2 f.1 new linked in
      let last : (commit c height 1 rest (s1, log1)).0 ≡ s' = ap (λ sl. sl.0) done in
      let start : total s1.unspent_outputs + q.total_fees ≡ total base + values first.outputs =
        rw (q_eq, commit_coinbase first s new_log) (omega (arith, sums)) in
      rw (← last) (p, flight, omega (arith, kept, start), bound, m')
