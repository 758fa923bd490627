-- ===== src/Mempool/Fitting.antt =====
-- src/mempool/blind_box.rs: every transaction of the pool has passed the checks of its admission.
use quantum_btc.Prelude.{
  ℕ, zero, suc, ◌-◌, ◌≤◌, ◌≡◌, not, some, List, [], ◌∷◌, filter, length, Hash, Bool, remove, arith,
  lookup, lookup-remove, lookup-retain, contains, keys_where, nat_eq, Option-cases, inl, inr,
  Result, Result-cases, ok, err, ltb,
}
use quantum_btc.Config.{
  max_block_weight, max_block_sigops, max_template_block_bytes, block_template_reserve_bytes,
}
use quantum_btc.Crypto.Primitives.{Primitives}
use quantum_btc.Transaction.{
  Transaction, get_weight, get_sigops_count, get_physical_size, calculate_id,
}
use quantum_btc.Mempool.{
  MempoolEntry, MempoolError, QuantumMempool, drop_entry, evict_loop, push_all, or_no_children,
  evict_transaction_and_descendants, make_room, check_admission, admit_if, add_transaction,
  add_orphan, bury, purge_all, purge_stale_transactions, remove_with_descendants, calculate_rate,
  child_count,
}
use quantum_btc.Mempool.Sweep.{
  forget_orphans, ids_of, invalidated, sweep_mined, atomic_sweep, unindex_all-pool,
}
use quantum_btc.Mempool.Invariant.{
  without, make_room-zero, make_room-cases, lookup-insert_in_order, Step, Reach, here, next, add,
  orphan, purge, clear, remove_all_of, sweep, add-refused, add-passed, roomy, bury-same,
}
use quantum_btc.Mempool.Evict.{drop_entry-none, drop_entry-some}

-- Every entry of the second pool is one of the first.
abbrev pub Shrinks : QuantumMempool → QuantumMempool → Type 0
Shrinks m m' =
    (h : Hash) (e : MempoolEntry) → lookup h m'.tx_pool ≡ some e → lookup h m.tx_pool ≡ some e

module _ (c : Primitives) where
  -- The limits on one transaction.
  pub record Fits (tx : Transaction) : Type 0 where
    pub weight : get_weight c tx ≤ max_block_weight
    pub sigops : get_sigops_count tx ≤ max_block_sigops
    pub size : get_physical_size c tx ≤ max_template_block_bytes - block_template_reserve_bytes

  abbrev pub AllFit : QuantumMempool → Type 0
  AllFit m = (h : Hash) (e : MempoolEntry) → lookup h m.tx_pool ≡ some e → Fits e.tx

  drop_entry-Shrinks : (h : Hash) (m : QuantumMempool) → Shrinks m (drop_entry c h m)
  drop_entry-Shrinks h m = elim (Option-cases (lookup h m.tx_pool)) [
    | inl missing ↦ rw (drop_entry-none c h m missing) (λ k e held. held)
    | inr (entry, found) ↦ λ k e held.
        ground
          (arith, rw ((drop_entry-some c h m entry found).0, lookup-remove h k m.tx_pool) at held)
  ]

  evict_loop-Shrinks :
      (n : ℕ) (stack : List Hash) (m : QuantumMempool) → Shrinks m (evict_loop c n stack m).1
  unfolding evict_loop
  evict_loop-Shrinks zero stack m k e held = held
  evict_loop-Shrinks (suc n) [] m k e held = held
  evict_loop-Shrinks (suc n) (h ∷ stack) m k e held =
      let start = record m { child_index = remove h m.child_index } in
      drop_entry-Shrinks h start k e (
        evict_loop-Shrinks n (push_all (or_no_children (lookup h m.child_index)) stack)
          (drop_entry c h start) k e held)

  evict-Shrinks :
      (h : Hash) (m : QuantumMempool) → Shrinks m (evict_transaction_and_descendants c h m)
  unfolding evict_transaction_and_descendants
  evict-Shrinks h m = evict_loop-Shrinks (suc (child_count m.child_index)) (h ∷ []) m

  make_room-Shrinks :
      (n weight rate : ℕ) (m : QuantumMempool) → Shrinks m (make_room c n weight rate m).0
  make_room-Shrinks zero weight rate m = rw (make_room-zero c weight rate m) (λ k e held. held)
  make_room-Shrinks (suc n) weight rate m = elim (make_room-cases c n weight rate m) [
    | inl same ↦ rw same (λ k e held. held)
    | inr (key, same) ↦ rw same (λ k e held.
        evict-Shrinks key.tx_hash m k e
          (make_room-Shrinks n weight rate (without c key m) k e held))
  ]

  remove_with_descendants-Shrinks :
      (hs : List Hash) (m : QuantumMempool) → Shrinks m (remove_with_descendants c hs m)
  unfolding remove_with_descendants
  remove_with_descendants-Shrinks [] m k e held = held
  remove_with_descendants-Shrinks (h ∷ hs) m k e held =
      evict-Shrinks h m k e
        (remove_with_descendants-Shrinks hs (evict_transaction_and_descendants c h m) k e held)

  purge_all-Shrinks : (hs : List Hash) (m : QuantumMempool) → Shrinks m (purge_all c hs m)
  unfolding purge_all
  purge_all-Shrinks [] m k e held = held
  purge_all-Shrinks (h ∷ hs) m k e held = rw (bury-same c h m).0 at (
      evict-Shrinks h (bury h m) k e
        (purge_all-Shrinks hs (evict_transaction_and_descendants c h (bury h m)) k e held))

  sweep_mined-Shrinks : (hs : List Hash) (m : QuantumMempool) → Shrinks m (sweep_mined c hs m)
  sweep_mined-Shrinks hs m k e held =
      let keep : Hash → MempoolEntry → Bool = λ h _. not (contains h hs) in
      ground (arith, rw (unindex_all-pool c hs m, lookup-retain keep k m.tx_pool) at held)

  atomic_sweep-Shrinks :
      (mined : List Transaction) (m : QuantumMempool) → Shrinks m (atomic_sweep c mined m)
  unfolding atomic_sweep
  atomic_sweep-Shrinks mined m k e held =
      let start = record m { orphan_pool = forget_orphans c mined m.orphan_pool } in
      let conflicts = filter (λ h. not (contains h (ids_of c mined))) (invalidated c mined m) in
      remove_with_descendants-Shrinks conflicts start k e (
        sweep_mined-Shrinks (filter (λ h. contains h (ids_of c mined)) (invalidated c mined m))
          (remove_with_descendants c conflicts start) k e held)

  check_admission-Fits :
      (tx : Transaction) (fee : ℕ) (m : QuantumMempool)
      → check_admission c tx fee m ≡ ok tt
      → Fits tx
  unfolding check_admission
  check_admission-Fits tx fee m passed = record {
    weight = ground arith;
    sigops = ground arith;
    size = ground arith;
  }

  admit_if-AllFit :
      (tx : Transaction) (fee now : ℕ) (m : QuantumMempool) (r : Result MempoolError (Unit {0}))
      → Fits tx
      → AllFit m
      → AllFit (admit_if c tx fee now (m, r)).0
  admit_if-AllFit tx fee now m (err e) fits x h e' held = x h e' held
  admit_if-AllFit tx fee now m (ok _) fits x h e held =
      let entry : MempoolEntry = record {
        tx = tx;
        fee = fee;
        weight = get_weight c tx;
        timestamp = now;
      } in
      ground (
        arith,
        rw (lookup-insert_in_order (calculate_id c tx) h entry m.tx_pool) at held,
        x h e,
        fits,
      )

  add_transaction-AllFit :
      (tx : Transaction) (fee now : ℕ) (m : QuantumMempool)
      → AllFit m
      → AllFit (add_transaction c tx fee now m).0
  add_transaction-AllFit tx fee now m x = elim (Result-cases (check_admission c tx fee m)) [
    | inr (e, refused) ↦ rw (add-refused c tx fee now m e refused) x
    | inl (_, passed) ↦
        let weight = get_weight c tx in
        rw (add-passed c tx fee now m passed) (
          admit_if-AllFit tx fee now (roomy c tx fee m).0 (roomy c tx fee m).1
            (check_admission-Fits tx fee m passed)
            (λ h e held. x h e (
              make_room-Shrinks (length m.fee_index) weight (calculate_rate fee weight) m h e
                held)))
  ]

  Step-AllFit : {m m' : QuantumMempool} → Step c m m' → AllFit m → AllFit m'
  unfolding add_orphan purge_stale_transactions lookup
  Step-AllFit {m} (add tx fee now) x = add_transaction-AllFit tx fee now m x
  Step-AllFit {m} (orphan tx) x = x
  Step-AllFit {m} (purge now max_age) x = λ h e held. x h e (
      purge_all-Shrinks (keys_where (λ _ entry. ltb max_age (now - entry.timestamp)) m.tx_pool) m h
        e held)
  Step-AllFit {m} clear x = λ h e. cc
  Step-AllFit {m} (remove_all_of hs) x =
      λ h e held. x h e (remove_with_descendants-Shrinks hs m h e held)
  Step-AllFit {m} (sweep mined) x = λ h e held. x h e (atomic_sweep-Shrinks mined m h e held)

  pub Reach-AllFit : {m : QuantumMempool} → Reach c m → AllFit m
  unfolding lookup
  Reach-AllFit here = λ h e. cc
  Reach-AllFit (next r st) = Step-AllFit st (Reach-AllFit r)
