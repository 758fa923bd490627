-- ===== src/Mempool/Invariant.antt =====
-- src/mempool/blind_box.rs: the pool never holds two transactions that spend one output.
use quantum_btc.Prelude.{
  ℕ, zero, suc, ◌+◌, ◌-◌, ◌%◌, ◌≡◌, refl, true, false, some, List, [], ◌∷◌, length, Hash, HashMap,
  arith, lookup, contains, keys_where, set_remove, nat_eq, ◌==◌, if◌then◌else◌, Bool-cases, filter,
  not, Option-cases, inl, inr, ◌⊎◌, ltb, leb, Result, Result-cases, ok, err, u64_mod,
}
use quantum_btc.Crypto.Primitives.{Primitives}
use quantum_btc.Transaction.{OutPoint, outpoint_eq, Transaction, get_weight, calculate_id}
use quantum_btc.Mempool.{
  MempoolEntry, FeeRateKey, fee_key_eq, MempoolError, QuantumMempool, max_mempool_weight,
  empty_mempool, first_key, any_spent, insert_in_order, evict_transaction_and_descendants,
  make_room, check_admission, admit, admit_if, add_transaction, add_orphan, bury, purge_all,
  purge_stale_transactions, remove_with_descendants, clear_pool, calculate_rate,
}
use quantum_btc.Mempool.Sweep.{
  forget_orphans, ids_of, invalidated, atomic_sweep, sweep_mined-IsExclusive,
}
use quantum_btc.Mempool.Evict.{
  spends, contains-mark_spent, any_spent-false, IsExclusive, Frees, evict-IsExclusive,
}

pub lookup-insert_in_order :
    (h k : Hash) (entry : MempoolEntry) (pool : HashMap Hash MempoolEntry)
    → lookup k (insert_in_order h entry pool) ≡ (if h == k then some entry else lookup k pool)
unfolding insert_in_order lookup
lookup-insert_in_order h k entry [] = refl
lookup-insert_in_order h k entry ((j, e) ∷ pool) =
    ground (arith, lookup-insert_in_order h k entry pool)

module _ (c : Primitives) where
  -- The mempool with the least key and what hangs on it gone.
  abbrev pub without : FeeRateKey → QuantumMempool → QuantumMempool
  without lowest m =
      let evicted = evict_transaction_and_descendants c lowest.tx_hash m in
      record evicted { fee_index = set_remove lowest evicted.fee_index }

  pub make_room-zero : (weight rate : ℕ) (m : QuantumMempool) → (make_room c 0 weight rate m).0 ≡ m
  unfolding make_room
  make_room-zero weight rate m = refl

  pub make_room-cases :
      (n weight rate : ℕ) (m : QuantumMempool)
      → ((make_room c (suc n) weight rate m).0 ≡ m)
        ⊎ ((k : FeeRateKey) × ((make_room c (suc n) weight rate m).0
              ≡ (make_room c n weight rate (without k m)).0))
  unfolding make_room
  make_room-cases n weight rate m = elim (Option-cases (first_key m.fee_index)) [
    | inl empty ↦ inl (ground arith)
    | inr (k, least_key) ↦
        elim (Bool-cases (ltb max_mempool_weight ((m.current_weight + weight) % u64_mod))) [
          | inr fits ↦ inl (ground arith)
          | inl over ↦ elim (Bool-cases (leb rate k.rate)) [
            | inl low ↦ inl (ground arith)
            | inr high ↦ inr (k, ground arith)
          ]
        ]
  ]

  make_room-IsExclusive :
      (n weight rate : ℕ) (m : QuantumMempool)
      → IsExclusive m
      → IsExclusive (make_room c n weight rate m).0 × Frees m (make_room c n weight rate m).0
  make_room-IsExclusive zero weight rate m x =
      rw (make_room-zero weight rate m) (x, (λ p held. held))
  make_room-IsExclusive (suc n) weight rate m x = elim (make_room-cases n weight rate m) [
    | inl same ↦ rw same (x, (λ p held. held))
    | inr (k, same) ↦
        let (evicted, frees) = evict-IsExclusive c k.tx_hash m x in
        let (rest, frees_rest) =
          make_room-IsExclusive n weight rate (without k m)
            (record { marked = evicted.marked; exclusive = evicted.exclusive }) in
        rw same (rest, (λ p held. frees p (frees_rest p held)))
  ]

  admit-IsExclusive :
      (tx : Transaction) (fee now : ℕ) (m : QuantumMempool)
      → ((p : OutPoint) → spends p tx.inputs ≡ true → contains p m.spent_outpoints ≡ false)
      → IsExclusive m
      → IsExclusive (admit c tx fee now m)
  admit-IsExclusive tx fee now m free x =
      let id = calculate_id c tx in
      let entry : MempoolEntry = record {
        tx = tx;
        fee = fee;
        weight = get_weight c tx;
        timestamp = now;
      } in
      record {
        marked = λ h e p held uses. rw (contains-mark_spent p tx.inputs m.spent_outpoints) (
            ground
              (arith, rw (lookup-insert_in_order id h entry m.tx_pool) at held, x.marked h e p));
        exclusive = λ g h d e p hd he ud ue. ground (
          arith,
          rw (lookup-insert_in_order id g entry m.tx_pool) at hd,
          rw (lookup-insert_in_order id h entry m.tx_pool) at he,
          x.exclusive g h d e p,
          x.marked g d p,
          x.marked h e p,
          free p,
        );
      }

  check_admission-free :
      (tx : Transaction) (fee : ℕ) (m : QuantumMempool)
      → check_admission c tx fee m ≡ ok tt
      → any_spent tx.inputs m.spent_outpoints ≡ false
  unfolding check_admission
  check_admission-free tx fee m passed = ground arith

  admit_if-IsExclusive :
      (tx : Transaction) (fee now : ℕ) (m : QuantumMempool) (r : Result MempoolError (Unit {0}))
      → ((p : OutPoint) → spends p tx.inputs ≡ true → contains p m.spent_outpoints ≡ false)
      → IsExclusive m
      → IsExclusive (admit_if c tx fee now (m, r)).0
  admit_if-IsExclusive tx fee now m (ok _) free x = admit-IsExclusive tx fee now m free x
  admit_if-IsExclusive tx fee now m (err e) free x = x

  abbrev pub roomy :
      Transaction → ℕ → QuantumMempool → QuantumMempool × Result MempoolError (Unit {0})
  roomy tx fee m =
      make_room c (length m.fee_index) (get_weight c tx) (calculate_rate fee (get_weight c tx)) m

  pub add-refused :
      (tx : Transaction) (fee now : ℕ) (m : QuantumMempool) (e : MempoolError)
      → check_admission c tx fee m ≡ err e
      → (add_transaction c tx fee now m).0 ≡ m
  unfolding add_transaction
  add-refused tx fee now m e refused = ground arith

  pub add-passed :
      (tx : Transaction) (fee now : ℕ) (m : QuantumMempool)
      → check_admission c tx fee m ≡ ok tt
      → add_transaction c tx fee now m
        ≡ admit_if c tx fee now ((roomy tx fee m).0, (roomy tx fee m).1)
  unfolding add_transaction
  add-passed tx fee now m passed = ground arith

  add_transaction-IsExclusive :
      (tx : Transaction) (fee now : ℕ) (m : QuantumMempool)
      → IsExclusive m
      → IsExclusive (add_transaction c tx fee now m).0
  add_transaction-IsExclusive tx fee now m x = elim (Result-cases (check_admission c tx fee m)) [
    | inr (e, refused) ↦ rw (add-refused tx fee now m e refused) x
    | inl (_, passed) ↦
        let weight = get_weight c tx in
        let (kept, frees) =
          make_room-IsExclusive (length m.fee_index) weight (calculate_rate fee weight) m x in
        rw (add-passed tx fee now m passed) (
          admit_if-IsExclusive tx fee now (roomy tx fee m).0 (roomy tx fee m).1
            (λ p uses. ground (
              arith,
              frees p,
              any_spent-false p tx.inputs m.spent_outpoints (check_admission-free tx fee m passed)
                  uses,
            ))
            kept)
  ]

  remove_with_descendants-IsExclusive :
      (hs : List Hash) (m : QuantumMempool)
      → IsExclusive m
      → IsExclusive (remove_with_descendants c hs m)
  unfolding remove_with_descendants
  remove_with_descendants-IsExclusive [] m x = x
  remove_with_descendants-IsExclusive (h ∷ hs) m x =
      remove_with_descendants-IsExclusive hs (evict_transaction_and_descendants c h m)
        (evict-IsExclusive c h m x).0

  pub bury-same :
      (h : Hash) (m : QuantumMempool)
      → ((bury h m).tx_pool ≡ m.tx_pool) × ((bury h m).spent_outpoints ≡ m.spent_outpoints)
  bury-same h m = ground arith

  bury-IsExclusive : (h : Hash) (m : QuantumMempool) → IsExclusive m → IsExclusive (bury h m)
  bury-IsExclusive h m x =
      let (pool, spent) = bury-same h m in
      record {
        marked = λ k e p held uses. rw spent (x.marked k e p (rw pool at held) uses);
        exclusive = λ j k d e p hd he. x.exclusive j k d e p (rw pool at hd) (rw pool at he);
      }

  purge_all-IsExclusive :
      (hs : List Hash) (m : QuantumMempool) → IsExclusive m → IsExclusive (purge_all c hs m)
  unfolding purge_all
  purge_all-IsExclusive [] m x = x
  purge_all-IsExclusive (h ∷ hs) m x =
      purge_all-IsExclusive hs (evict_transaction_and_descendants c h (bury h m))
        (evict-IsExclusive c h (bury h m) (bury-IsExclusive h m x)).0

  -- One call of an operation that changes the pool.
  pub data Step (m : QuantumMempool) : QuantumMempool → Type 0 where
    add : (tx : Transaction) (fee now : ℕ) → Step m (add_transaction c tx fee now m).0
    orphan : (tx : Transaction) → Step m (add_orphan c tx m)
    purge : (now max_age : ℕ) → Step m (purge_stale_transactions c now max_age m)
    clear : Step m (clear_pool m)
    remove_all_of : (hs : List Hash) → Step m (remove_with_descendants c hs m)
    sweep : (mined : List Transaction) → Step m (atomic_sweep c mined m)

  atomic_sweep-IsExclusive :
      (mined : List Transaction) (m : QuantumMempool)
      → IsExclusive m
      → IsExclusive (atomic_sweep c mined m)
  unfolding atomic_sweep
  atomic_sweep-IsExclusive mined m x =
      let start = record m { orphan_pool = forget_orphans c mined m.orphan_pool } in
      let conflicts = filter (λ h. not (contains h (ids_of c mined))) (invalidated c mined m) in
      sweep_mined-IsExclusive c (filter (λ h. contains h (ids_of c mined)) (invalidated c mined m))
        (remove_with_descendants c conflicts start)
        (remove_with_descendants-IsExclusive conflicts start
          (record { marked = x.marked; exclusive = x.exclusive }))

  pub data Reach : QuantumMempool → Type 0 where
    here : Reach empty_mempool
    next : {m m' : QuantumMempool} → Reach m → Step m m' → Reach m'

  Step-IsExclusive : {m m' : QuantumMempool} → Step m m' → IsExclusive m → IsExclusive m'
  unfolding add_orphan purge_stale_transactions lookup
  Step-IsExclusive {m} (add tx fee now) x = add_transaction-IsExclusive tx fee now m x
  Step-IsExclusive {m} (orphan tx) x = record { marked = x.marked; exclusive = x.exclusive }
  Step-IsExclusive {m} (purge now max_age) x =
      purge_all-IsExclusive (keys_where (λ _ entry. ltb max_age (now - entry.timestamp)) m.tx_pool)
        m x
  Step-IsExclusive {m} clear x = record { marked = λ h e p. cc; exclusive = λ g h d e p. cc }
  Step-IsExclusive {m} (remove_all_of hs) x = remove_with_descendants-IsExclusive hs m x
  Step-IsExclusive {m} (sweep mined) x = atomic_sweep-IsExclusive mined m x

  -- After any sequence of additions, orphans, purges, removals, sweeps and clearings from the empty
  -- pool, the inputs of the pool's transactions are marked as spent, and no two of these spend
  -- one output.
  pub Reach-IsExclusive : {m : QuantumMempool} → Reach m → IsExclusive m
  unfolding lookup
  Reach-IsExclusive here = record { marked = λ h e p. cc; exclusive = λ g h d e p. cc }
  Reach-IsExclusive (next r st) = Step-IsExclusive st (Reach-IsExclusive r)
