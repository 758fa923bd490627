-- ===== src/Mempool/Template.antt =====
-- src/mempool/blind_box.rs: what a block template holds, and the end of the loop that packs it.
use quantum_btc.Prelude.{
  ℕ, zero, suc, ◌+◌, ◌≤◌, ◌≡◌, refl, ap, true, false, ◌||◌, some, List, [], ◌∷◌, length, All, Hash,
  HashSet, arith, lookup, contains, nat_eq, Bool-cases, Option-cases, inl, inr, ◌⊎◌,
}
use quantum_btc.Config.{
  max_block_weight, max_block_sigops, max_template_block_bytes, block_template_reserve_bytes,
}
use quantum_btc.Crypto.Primitives.{Primitives}
use quantum_btc.Transaction.{
  OutPoint, outpoint_eq, Transaction, get_weight, get_sigops_count, get_physical_size,
}
use quantum_btc.Mempool.{MempoolEntry, QuantumMempool, any_spent, or_no_children}
use quantum_btc.Mempool.Evict.{spends, contains-mark_spent, any_spent-false}
use quantum_btc.Mempool.Fitting.{Fits, AllFit, Reach-AllFit}
use quantum_btc.Mempool.Invariant.{Reach}
use quantum_btc.Mempool.Selected.{
  sum_of, sum_of-append, AreConflictFree, All-append, All-map, AreConflictFree-append,
}
use quantum_btc.Mempool.ReadyQueue.{length-pop_last}
use quantum_btc.Mempool.Mining.{
  Template, sort_by_rate, pop_last, exceeds, take_tx, pack, next_round, mine_loop, empty_template,
  mining_rounds, get_txs_for_mining,
}

-- All outputs that the transaction spends are in the set.
abbrev IsMarked : HashSet OutPoint → Transaction → Type 0
IsMarked spent tx = (p : OutPoint) → spends p tx.inputs ≡ true → contains p spent ≡ true

module _ (c : Primitives) (m : QuantumMempool) where
  -- The transaction is one of the pool.
  abbrev pub IsPooled : Transaction → Type 0
  IsPooled tx = (h : Hash) × (e : MempoolEntry) × (lookup h m.tx_pool ≡ some e) × (e.tx ≡ tx)

  -- The totals are those of the transactions taken so far, within the limits.
  pub record IsPacked (t : Template) : Type 0 where
    pub weight : 480 + sum_of (get_weight c) t.valid_txs ≡ t.current_block_weight
    pub sigops : sum_of get_sigops_count t.valid_txs ≡ t.current_block_sigops
    pub size :
        block_template_reserve_bytes + sum_of (get_physical_size c) t.valid_txs
        ≡ t.current_block_size
    pub weight_le : t.current_block_weight ≤ max_block_weight
    pub sigops_le : t.current_block_sigops ≤ max_block_sigops
    pub size_le : t.current_block_size ≤ max_template_block_bytes
    pub pooled : All IsPooled t.valid_txs
    pub marked : All (IsMarked t.block_spent_utxos) t.valid_txs
    pub apart : AreConflictFree t.valid_txs

  abbrev pub children_of : Hash → List Hash
  children_of h = or_no_children (lookup h m.child_index)

  pub pack-cases :
      (h : Hash) (t : Template)
      → ((pack c m h t ≡ t)
          × ((e : MempoolEntry)
              → lookup h m.tx_pool ≡ some e
              → (exceeds c t e.tx || any_spent e.tx.inputs t.block_spent_utxos) ≡ true))
        ⊎ ((e : MempoolEntry) × (lookup h m.tx_pool ≡ some e)
            × (exceeds c t e.tx ≡ false)
            × (any_spent e.tx.inputs t.block_spent_utxos ≡ false)
            × (pack c m h t ≡ take_tx c (children_of h) e.tx t))
  unfolding pack
  pack-cases h t = elim (Option-cases (lookup h m.tx_pool)) [
    | inl missing ↦ inl (ground arith, (λ e. ground arith))
    | inr (e, found) ↦ elim (Bool-cases (exceeds c t e.tx)) [
      | inl over ↦ inl (ground arith, (λ d. ground arith))
      | inr fits ↦ elim (Bool-cases (any_spent e.tx.inputs t.block_spent_utxos)) [
        | inl conflict ↦ inl (ground arith, (λ d. ground arith))
        | inr free ↦ inr (e, found, fits, free, ground arith)
      ]
    ]
  ]

  take_tx-IsPacked :
      (h : Hash) (e : MempoolEntry) (t : Template)
      → Fits c e.tx
      → lookup h m.tx_pool ≡ some e
      → exceeds c t e.tx ≡ false
      → any_spent e.tx.inputs t.block_spent_utxos ≡ false
      → IsPacked t
      → IsPacked (take_tx c (children_of h) e.tx t)
  take_tx-IsPacked h e t fits found fit free x = record {
    weight =
        ground (
          arith,
          sum_of-append (get_weight c) t.valid_txs e.tx,
          x.weight,
          x.weight_le,
          fits.weight,
        );
    sigops = ground (
      arith,
      sum_of-append get_sigops_count t.valid_txs e.tx,
      x.sigops,
      x.sigops_le,
      fits.sigops,
    );
    size =
        ground (
          arith,
          sum_of-append (get_physical_size c) t.valid_txs e.tx,
          x.size,
          x.size_le,
          fits.size,
        );
    weight_le = ground arith;
    sigops_le = ground arith;
    size_le = ground arith;
    pooled = All-append IsPooled t.valid_txs e.tx x.pooled (h, e, found, refl);
    marked =
        All-append _ t.valid_txs e.tx
          (All-map _ _ t.valid_txs
            (λ tx marks p uses.
              ground (arith, contains-mark_spent p e.tx.inputs t.block_spent_utxos, marks p uses))
            x.marked)
          (λ p uses. ground (arith, contains-mark_spent p e.tx.inputs t.block_spent_utxos));
    apart = AreConflictFree-append t.valid_txs e.tx x.apart (
        All-map _ _ t.valid_txs
          (λ tx marks p uses.
            ground (arith, marks p uses, any_spent-false p e.tx.inputs t.block_spent_utxos free))
          x.marked);
  }

  -- A round on the sorted queue; there is none without a hash in it.
  abbrev pub round_on : List Hash → Template → Template
  round_on [] t = t
  round_on (h ∷ hs) t = next_round c m h hs t

  mine_loop-idle :
      (n : ℕ) (t : Template) → sort_by_rate m.tx_pool t.ready_queue ≡ [] → mine_loop c n m t ≡ t
  unfolding mine_loop
  mine_loop-idle zero t idle = refl
  mine_loop-idle (suc n) t idle = ground arith

  pub mine_loop-suc :
      (n : ℕ) (t : Template)
      → mine_loop c (suc n) m t
        ≡ mine_loop c n m (round_on (sort_by_rate m.tx_pool t.ready_queue) t)
  unfolding mine_loop
  mine_loop-suc n t = ground (arith, mine_loop-idle n t)

  pub mine_loop-zero : (t : Template) → mine_loop c 0 m t ≡ t
  unfolding mine_loop
  mine_loop-zero t = refl

  pub round_on-cases :
      (hs : List Hash) (t : Template)
      → ((hs ≡ []) × (round_on hs t ≡ t))
        ⊎ ((h : Hash) × (queue : List Hash) × (suc (length queue) ≡ length hs)
            × (round_on hs t ≡ pack c m h (record t { ready_queue = queue })))
  unfolding next_round
  round_on-cases [] t = inl (refl, refl)
  round_on-cases (h ∷ hs) t =
      inr ((pop_last h hs).1, (pop_last h hs).0, ap suc (length-pop_last h hs), refl)

  pack-IsPacked : (h : Hash) (t : Template) → AllFit c m → IsPacked t → IsPacked (pack c m h t)
  pack-IsPacked h t fit x = elim (pack-cases h t) [
    | inl (same, _) ↦ rw same x
    | inr (e, found, fits, free, same) ↦
        rw same (take_tx-IsPacked h e t (fit h e found) found fits free x)
  ]

  pub with_queue-IsPacked :
      (queue : List Hash) (t : Template) → IsPacked t → IsPacked (record t { ready_queue = queue })
  with_queue-IsPacked queue t x = record {
    weight = x.weight;
    sigops = x.sigops;
    size = x.size;
    weight_le = x.weight_le;
    sigops_le = x.sigops_le;
    size_le = x.size_le;
    pooled = x.pooled;
    marked = x.marked;
    apart = x.apart;
  }

  pub round_on-IsPacked :
      (hs : List Hash) (t : Template) → AllFit c m → IsPacked t → IsPacked (round_on hs t)
  round_on-IsPacked hs t fit x = elim (round_on-cases hs t) [
    | inl (_, same) ↦ rw same x
    | inr (h, queue, _, same) ↦
        rw same
          (pack-IsPacked h (record t { ready_queue = queue }) fit (with_queue-IsPacked queue t x))
  ]

  pub mine_loop-IsPacked :
      (n : ℕ) (t : Template) → AllFit c m → IsPacked t → IsPacked (mine_loop c n m t)
  mine_loop-IsPacked zero t fit x = rw (mine_loop-zero t) x
  mine_loop-IsPacked (suc n) t fit x =
      let ready = sort_by_rate m.tx_pool t.ready_queue in
      rw (mine_loop-suc n t)
        (mine_loop-IsPacked n (round_on ready t) fit (round_on-IsPacked ready t fit x))

  pub empty_template-IsPacked : IsPacked (empty_template m)
  unfolding empty_template
  empty_template-IsPacked = record {
    weight = refl;
    sigops = refl;
    size = refl;
    weight_le = omega arith;
    sigops_le = omega arith;
    size_le = omega arith;
    pooled = tt;
    marked = tt;
    apart = tt;
  }

  -- What a template promises to the miner.
  pub record IsTemplate (txs : List Transaction) : Type 0 where
    pub weight : 480 + sum_of (get_weight c) txs ≤ max_block_weight
    pub sigops : sum_of get_sigops_count txs ≤ max_block_sigops
    pub size :
        block_template_reserve_bytes + sum_of (get_physical_size c) txs ≤ max_template_block_bytes
    pub pooled : All IsPooled txs
    pub apart : AreConflictFree txs

  -- The block template of a mempool that any sequence of operations leaves is within the limits of
  -- weight, signature operations and size, its transactions are in the pool, and no two of them
  -- spend one output.
  pub get_txs_for_mining-IsTemplate : Reach c m → IsTemplate (get_txs_for_mining c m)
  unfolding get_txs_for_mining
  get_txs_for_mining-IsTemplate r =
      let x =
        mine_loop-IsPacked (mining_rounds m) (empty_template m) (Reach-AllFit c r)
          empty_template-IsPacked in
      record {
        weight = omega (arith, x.weight, x.weight_le);
        sigops = omega (arith, x.sigops, x.sigops_le);
        size = omega (arith, x.size, x.size_le);
        pooled = x.pooled;
        apart = x.apart;
      }
