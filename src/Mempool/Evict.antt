-- ===== src/Mempool/Evict.antt =====
-- src/mempool/blind_box.rs: what an eviction keeps, and the end of its loop.
use quantum_btc.Prelude.{
  ℕ, zero, suc, ◌+◌, ◌≤◌, ◌≡◌, refl, ap, Bool, true, false, not, ◌&&◌, ◌||◌, none, some, List, [],
  ◌∷◌, length, Hash, HashMap, HashSet, arith, lookup, remove, lookup-remove, contains, set_insert,
  set_remove, contains-set_insert, contains-set_remove, nat_eq, beq, beq_iff, beq_refl,
  Option-cases, inl, inr,
}
use quantum_btc.Crypto.Primitives.{Primitives}
use quantum_btc.Transaction.{OutPoint, outpoint_eq, same_outpoint_iff, outpoint, TxIn}
use quantum_btc.Mempool.{
  MempoolEntry, fee_key_eq, QuantumMempool, unspend, mark_spent, any_spent, drop_entry, evict_loop,
  evict_transaction_and_descendants, push_all, or_no_children, child_count,
}

-- One of the inputs spends the output.
abbrev pub spends : OutPoint → List TxIn → Bool
spends p [] = false
spends p (input ∷ rest) = beq (outpoint input) p || spends p rest

pub contains-unspend :
    (p : OutPoint) (inputs : List TxIn) (spent : HashSet OutPoint)
    → contains p (unspend inputs spent) ≡ (not (spends p inputs) && contains p spent)
contains-unspend p [] spent = refl
contains-unspend p (input ∷ rest) spent = ground (
  arith,
  contains-unspend p rest (set_remove (outpoint input) spent),
  contains-set_remove (outpoint input) p spent,
)

pub contains-mark_spent :
    (p : OutPoint) (inputs : List TxIn) (spent : HashSet OutPoint)
    → contains p (mark_spent inputs spent) ≡ (spends p inputs || contains p spent)
contains-mark_spent p [] spent = refl
contains-mark_spent p (input ∷ rest) spent = ground (
  arith,
  contains-mark_spent p rest (set_insert (outpoint input) spent),
  contains-set_insert (outpoint input) p spent,
)

pub any_spent-false :
    (p : OutPoint) (inputs : List TxIn) (spent : HashSet OutPoint)
    → any_spent inputs spent ≡ false
    → spends p inputs ≡ true
    → contains p spent ≡ false
any_spent-false p [] spent free s = cc
any_spent-false p (input ∷ rest) spent free s =
    ground (arith, any_spent-false p rest spent, same_outpoint_iff (outpoint input) p)

-- The inputs of the pool's transactions are marked as spent, and no two of them spend one output.
pub record IsExclusive (m : QuantumMempool) : Type 0 where
  pub marked :
      (h : Hash) (entry : MempoolEntry) (p : OutPoint)
      → lookup h m.tx_pool ≡ some entry
      → spends p entry.tx.inputs ≡ true
      → contains p m.spent_outpoints ≡ true
  pub exclusive :
      (g h : Hash) (d e : MempoolEntry) (p : OutPoint)
      → lookup g m.tx_pool ≡ some d
      → lookup h m.tx_pool ≡ some e
      → spends p d.tx.inputs ≡ true
      → spends p e.tx.inputs ≡ true
      → g ≡ h

-- Nothing is marked as spent that was not before.
abbrev pub Frees : QuantumMempool → QuantumMempool → Type 0
Frees m m' =
    (p : OutPoint) → contains p m'.spent_outpoints ≡ true → contains p m.spent_outpoints ≡ true

module _ (c : Primitives) where
  pub drop_entry-none :
      (h : Hash) (m : QuantumMempool) → lookup h m.tx_pool ≡ none → drop_entry c h m ≡ m
  unfolding drop_entry
  drop_entry-none h m missing = ground arith

  pub drop_entry-some :
      (h : Hash) (m : QuantumMempool) (entry : MempoolEntry)
      → lookup h m.tx_pool ≡ some entry
      → ((drop_entry c h m).tx_pool ≡ remove h m.tx_pool)
        × ((drop_entry c h m).spent_outpoints ≡ unspend entry.tx.inputs m.spent_outpoints)
  unfolding drop_entry
  drop_entry-some h m entry found = ground arith

  drop_entry-child_index :
      (h : Hash) (m : QuantumMempool) → (drop_entry c h m).child_index ≡ m.child_index
  unfolding drop_entry
  drop_entry-child_index h m = ground arith

  pub drop_entry-IsExclusive :
      (h : Hash) (m : QuantumMempool)
      → IsExclusive m
      → IsExclusive (drop_entry c h m) × Frees m (drop_entry c h m)
  drop_entry-IsExclusive h m x = elim (Option-cases (lookup h m.tx_pool)) [
    | inl missing ↦ rw (drop_entry-none h m missing) (x, (λ p held. held))
    | inr (entry, found) ↦
        let (pool, spent) = drop_entry-some h m entry found in
        (
          record {
            marked = λ k e p held uses.
                rw (spent, contains-unspend p entry.tx.inputs m.spent_outpoints)
                  (ground (
                    arith,
                    rw (pool, lookup-remove h k m.tx_pool) at held,
                    x.marked k e p,
                    x.exclusive h k entry e p found,
                    beq_refl h,
                    beq_iff h k,
                  ));
            exclusive = λ j k d e p hd he ud ue. ground (
              arith,
              rw (pool, lookup-remove h j m.tx_pool) at hd,
              rw (pool, lookup-remove h k m.tx_pool) at he,
              x.exclusive j k d e p,
            );
          },
          (λ p held.
              ground
                (arith, rw (spent, contains-unspend p entry.tx.inputs m.spent_outpoints) at held)),
        )
  ]

  evict_loop-IsExclusive :
      (n : ℕ) (stack : List Hash) (m : QuantumMempool)
      → IsExclusive m
      → IsExclusive (evict_loop c n stack m).1 × Frees m (evict_loop c n stack m).1
  unfolding evict_loop
  evict_loop-IsExclusive zero stack m x = (x, (λ p held. held))
  evict_loop-IsExclusive (suc n) [] m x = (x, (λ p held. held))
  evict_loop-IsExclusive (suc n) (h ∷ stack) m x =
      let start = record m { child_index = remove h m.child_index } in
      let (dropped, frees) =
        drop_entry-IsExclusive h start (record { marked = x.marked; exclusive = x.exclusive }) in
      let (rest, frees_rest) =
        evict_loop-IsExclusive n (push_all (or_no_children (lookup h m.child_index)) stack)
          (drop_entry c h start) dropped in
      (rest, (λ p held. frees p (frees_rest p held)))

  pub evict-IsExclusive :
      (h : Hash) (m : QuantumMempool)
      → IsExclusive m
      → IsExclusive (evict_transaction_and_descendants c h m)
        × Frees m (evict_transaction_and_descendants c h m)
  unfolding evict_transaction_and_descendants
  evict-IsExclusive h m x = evict_loop-IsExclusive (suc (child_count m.child_index)) (h ∷ []) m x

  length-push_all :
      (children stack : List Hash)
      → length (push_all children stack) ≡ length children + length stack
  length-push_all [] stack = omega arith
  length-push_all (h ∷ children) stack = omega (arith, length-push_all children (h ∷ stack))

  child_count-remove_le :
      (h : Hash) (index : HashMap Hash (List Hash))
      → child_count (remove h index) ≤ child_count index
  unfolding remove
  child_count-remove_le h [] = omega arith
  child_count-remove_le h ((k, children) ∷ index) = ground (arith, child_count-remove_le h index)

  pub child_count-remove :
      (h : Hash) (index : HashMap Hash (List Hash))
      → length (or_no_children (lookup h index)) + child_count (remove h index) ≤ child_count index
  unfolding remove lookup
  child_count-remove h [] = omega arith
  child_count-remove h ((k, children) ∷ index) =
      ground (arith, child_count-remove h index, child_count-remove_le h index)

  -- The loop of an eviction empties its stack within as many rounds as the stack and the index of
  -- children hold hashes, which for the stack of one hash is the number it is given.
  pub evict_loop-ends :
      (n : ℕ) (stack : List Hash) (m : QuantumMempool)
      → length stack + child_count m.child_index ≤ n
      → (evict_loop c n stack m).0 ≡ []
  unfolding evict_loop
  evict_loop-ends zero [] m le = refl
  evict_loop-ends zero (h ∷ stack) m le = ground arith
  evict_loop-ends (suc n) [] m le = refl
  evict_loop-ends (suc n) (h ∷ stack) m le =
      let start = record m { child_index = remove h m.child_index } in
      evict_loop-ends n (push_all (or_no_children (lookup h m.child_index)) stack)
        (drop_entry c h start)
        (omega (
          arith,
          length-push_all (or_no_children (lookup h m.child_index)) stack,
          child_count-remove h m.child_index,
          ap child_count (drop_entry-child_index h start),
        ))
