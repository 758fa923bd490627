-- ===== src/Mempool/Sweep.antt =====
-- src/mempool/blind_box.rs: `atomic_sweep`, the update of the pool after a block.
use quantum_btc.Prelude.{
  ◌-◌, Bool, true, false, not, none, some, List, [], ◌∷◌, filter, Hash, HashMap, HashSet, lookup,
  lookup-retain, remove, retain, contains, keys_where, set_insert, set_remove, nat_eq, beq, beq_iff,
  Option-cases, inl, inr, arith, ◌≡◌, refl,
}
use quantum_btc.Crypto.Primitives.{Primitives}
use quantum_btc.Transaction.{OutPoint, outpoint_eq, Transaction, calculate_id, get_weight}
use quantum_btc.Mempool.{
  MempoolEntry, fee_key_eq, QuantumMempool, calculate_rate, unspend, mark_spent, any_spent,
  remove_with_descendants,
}
use quantum_btc.Mempool.Evict.{spends, contains-unspend, IsExclusive}

-- The outputs that the block spends.
unfoldable pub globally_spent : List Transaction → HashSet OutPoint → HashSet OutPoint
globally_spent [] spent = spent
globally_spent (tx ∷ txs) spent = globally_spent txs (mark_spent tx.inputs spent)

module _ (c : Primitives) where
  unfoldable pub forget_orphans :
      List Transaction → HashMap Hash Transaction → HashMap Hash Transaction
  forget_orphans [] orphans = orphans
  forget_orphans (tx ∷ txs) orphans = forget_orphans txs (remove (calculate_id c tx) orphans)

  unfoldable pub ids_of : List Transaction → HashSet Hash
  ids_of [] = []
  ids_of (tx ∷ txs) = set_insert (calculate_id c tx) (ids_of txs)

  -- A mined transaction leaves the indices; its entry stays until the end.
  unfoldable pub unindex : Hash → QuantumMempool → QuantumMempool
  unindex h m = elim (lookup h m.tx_pool) [
    | none ↦ m
    | some entry ↦ record m {
      current_weight = m.current_weight - get_weight c entry.tx;
      fee_index =
          set_remove (record { rate = calculate_rate entry.fee entry.weight; tx_hash = h })
            m.fee_index;
      child_index = remove h m.child_index;
      spent_outpoints = unspend entry.tx.inputs m.spent_outpoints;
    }
  ]

  unfoldable pub unindex_all : List Hash → QuantumMempool → QuantumMempool
  unindex_all [] m = m
  unindex_all (h ∷ hs) m = unindex_all hs (unindex h m)

  -- The transactions of the pool that spend an output which the block spends.
  abbrev pub invalidated : List Transaction → QuantumMempool → List Hash
  invalidated mined m =
      keys_where (λ _ entry. any_spent entry.tx.inputs (globally_spent mined [])) m.tx_pool

  abbrev pub sweep_mined : List Hash → QuantumMempool → QuantumMempool
  sweep_mined hs m =
      let swept = unindex_all hs m in
      record swept { tx_pool = retain (λ h _. not (contains h hs)) swept.tx_pool }

  unfoldable pub atomic_sweep : List Transaction → QuantumMempool → QuantumMempool
  atomic_sweep mined m =
      let start = record m { orphan_pool = forget_orphans mined m.orphan_pool } in
      sweep_mined (filter (λ h. contains h (ids_of mined)) (invalidated mined m)) (
        remove_with_descendants c
          (filter (λ h. not (contains h (ids_of mined))) (invalidated mined m)) start)

  unindex-none : (h : Hash) (m : QuantumMempool) → lookup h m.tx_pool ≡ none → unindex h m ≡ m
  unfolding unindex
  unindex-none h m missing = ground arith

  unindex-some :
      (h : Hash) (m : QuantumMempool) (entry : MempoolEntry)
      → lookup h m.tx_pool ≡ some entry
      → (unindex h m).spent_outpoints ≡ unspend entry.tx.inputs m.spent_outpoints
  unfolding unindex
  unindex-some h m entry found = ground arith

  unindex-pool : (h : Hash) (m : QuantumMempool) → (unindex h m).tx_pool ≡ m.tx_pool
  unfolding unindex
  unindex-pool h m = ground arith

  pub unindex_all-pool :
      (hs : List Hash) (m : QuantumMempool) → (unindex_all hs m).tx_pool ≡ m.tx_pool
  unfolding unindex_all
  unindex_all-pool [] m = refl
  unindex_all-pool (h ∷ hs) m = rw (unindex_all-pool hs (unindex h m)) (unindex-pool h m)

  -- The second half of `IsExclusive`, which is about the entries of the pool alone.
  abbrev AreApart : HashMap Hash MempoolEntry → Type 0
  AreApart pool =
      (g h : Hash) (d e : MempoolEntry) (p : OutPoint)
      → lookup g pool ≡ some d
      → lookup h pool ≡ some e
      → spends p d.tx.inputs ≡ true
      → spends p e.tx.inputs ≡ true
      → g ≡ h

  -- An output that a transaction outside the list spends stays marked when the list is unindexed.
  module _ (k : Hash) (e : MempoolEntry) (p : OutPoint) (uses : spends p e.tx.inputs ≡ true) where
    unindex-marked :
        (h : Hash) (m : QuantumMempool)
        → AreApart m.tx_pool
        → lookup k m.tx_pool ≡ some e
        → beq h k ≡ false
        → contains p m.spent_outpoints ≡ true
        → contains p (unindex h m).spent_outpoints ≡ true
    unindex-marked h m apart held other marked = elim (Option-cases (lookup h m.tx_pool)) [
      | inl missing ↦ rw (unindex-none h m missing) marked
      | inr (entry, found) ↦ rw (unindex-some h m entry found) (
          ground (
            arith,
            contains-unspend p entry.tx.inputs m.spent_outpoints,
            apart h k entry e p found held,
            beq_iff h k,
          ))
    ]

    unindex_all-marked :
        (hs : List Hash) (m : QuantumMempool)
        → AreApart m.tx_pool
        → lookup k m.tx_pool ≡ some e
        → contains k hs ≡ false
        → contains p m.spent_outpoints ≡ true
        → contains p (unindex_all hs m).spent_outpoints ≡ true
    unfolding unindex_all contains
    unindex_all-marked [] m apart held other marked = marked
    unindex_all-marked (h ∷ hs) m apart held other marked =
        unindex_all-marked hs (unindex h m) (rw (unindex-pool h m) apart)
          (rw (unindex-pool h m) held) (ground arith)
          (unindex-marked h m apart held (ground arith) marked)

  pub sweep_mined-IsExclusive :
      (hs : List Hash) (m : QuantumMempool) → IsExclusive m → IsExclusive (sweep_mined hs m)
  sweep_mined-IsExclusive hs m x =
      let pool = unindex_all-pool hs m in
      let keep : Hash → MempoolEntry → Bool = λ h _. not (contains h hs) in
      let kept : (h : Hash) (e : MempoolEntry)
          → lookup h (sweep_mined hs m).tx_pool ≡ some e
          → (lookup h m.tx_pool ≡ some e) × (contains h hs ≡ false) =
        λ h e held. ground (arith, rw (pool, lookup-retain keep h m.tx_pool) at held) in
      record {
        marked = λ h e p held uses.
            let (was, other) = kept h e held in
            unindex_all-marked h e p uses hs m x.exclusive was other (x.marked h e p was uses);
        exclusive = λ g h d e p hd he. x.exclusive g h d e p (kept g d hd).0 (kept h e he).0;
      }
