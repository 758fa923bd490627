-- ===== src/Mempool/Liveness.antt =====
-- src/mempool/blind_box.rs: the transactions that a template must not leave out.
use quantum_btc.Prelude.{
  ℕ, zero, suc, ◌+◌, ◌<◌, ◌≡◌, true, false, ◌||◌, some, List, [], ◌∷◌, Hash, HashMap, HashSet,
  arith, lookup, contains, nat_eq, beq_refl, Bool-cases, inl, inr, ◌⊎◌, ◌==◌, lookup-insert,
  contains-keys_where,
}
use quantum_btc.Config.{
  max_block_weight, max_block_sigops, max_template_block_bytes, block_template_reserve_bytes,
}
use quantum_btc.Crypto.Primitives.{Primitives}
use quantum_btc.Transaction.{
  OutPoint, outpoint_eq, outpoint, TxIn, Transaction, get_weight, get_sigops_count,
  get_physical_size,
}
use quantum_btc.Mempool.{MempoolEntry, QuantumMempool, any_spent}
use quantum_btc.Mempool.Evict.{spends, contains-mark_spent, IsExclusive}
use quantum_btc.Mempool.Fitting.{Fits, AllFit, Reach-AllFit}
use quantum_btc.Mempool.Invariant.{Reach, Reach-IsExclusive}
use quantum_btc.Mempool.Selected.{sum_of, Holds, Holds-append, Holds-last, Holds-All}
use quantum_btc.Mempool.ReadyQueue.{contains-sort_by_rate, contains-pop_last, contains-unlock}
use quantum_btc.Mempool.Mining.{
  Template, sort_by_rate, pop_last, exceeds, take_tx, pack, next_round, mine_loop, empty_template,
  mining_rounds, get_txs_for_mining, count_parents, pending_parents_count,
}
use quantum_btc.Mempool.Rounds.{mine_loop-ready_queue}
use quantum_btc.Mempool.Template.{
  mine_loop-suc, mine_loop-zero, round_on, IsPooled, IsPacked, children_of, pack-cases,
  round_on-cases, with_queue-IsPacked, round_on-IsPacked, empty_template-IsPacked,
  mine_loop-IsPacked,
}

-- An input whose output is in the set.
any_spent-true :
    (inputs : List TxIn) (spent : HashSet OutPoint)
    → any_spent inputs spent ≡ true
    → (p : OutPoint) × (spends p inputs ≡ true) × (contains p spent ≡ true)
any_spent-true [] spent any = absurd cc
any_spent-true (input ∷ rest) spent any = elim (Bool-cases (contains (outpoint input) spent)) [
  | inl here ↦ (outpoint input, ground (arith, beq_refl (outpoint input)), here)
  | inr other ↦
      let (p, uses, held) = any_spent-true rest spent (ground arith) in (p, ground arith, held)
]

lookup-count_parents :
    (pool entries : HashMap Hash MempoolEntry) (degrees : HashMap Hash ℕ) (h : Hash)
    (e : MempoolEntry)
    → lookup h entries ≡ some e
    → lookup h (count_parents pool entries degrees) ≡ some (pending_parents_count pool e.tx.inputs)
unfolding count_parents lookup
lookup-count_parents pool [] degrees h e found = cc
lookup-count_parents pool ((k, d) ∷ rest) degrees h e found = ground (
  arith,
  lookup-count_parents pool rest degrees h e,
  lookup-insert k h (pending_parents_count pool d.tx.inputs) (count_parents pool rest degrees),
)

module _ (c : Primitives) (m : QuantumMempool) where
  -- Every output in the set is spent by a transaction of the template.
  abbrev AreAccounted : Template → Type 0
  AreAccounted t =
      (p : OutPoint)
      → contains p t.block_spent_utxos ≡ true
      → (u : Transaction) × Holds u t.valid_txs × (spends p u.inputs ≡ true)

  take_tx-AreAccounted :
      (children : List Hash) (tx : Transaction) (t : Template)
      → AreAccounted t
      → AreAccounted (take_tx c children tx t)
  take_tx-AreAccounted children tx t x p held = elim (Bool-cases (spends p tx.inputs)) [
    | inl uses ↦ (tx, Holds-last tx t.valid_txs, uses)
    | inr other ↦
        let (u, holds, uses) =
          x p (ground (arith, contains-mark_spent p tx.inputs t.block_spent_utxos)) in
        (u, Holds-append u tx t.valid_txs holds, uses)
  ]

  module _ (h : Hash) (e : MempoolEntry) (found : lookup h m.tx_pool ≡ some e) where
    -- The transaction waits in the queue, is taken, or has no place in what is left of the block.
    abbrev IsConsidered : Template → Type 0
    IsConsidered t =
        (contains h t.ready_queue ≡ true) ⊎ Holds e.tx t.valid_txs ⊎ (exceeds c t e.tx ≡ true)

    -- The queue loses the hash that is popped.
    abbrev IsConsideredBut : Hash → Template → Type 0
    IsConsideredBut g t =
        ((contains h t.ready_queue || (g == h)) ≡ true)
        ⊎ Holds e.tx t.valid_txs
        ⊎ (exceeds c t e.tx ≡ true)

    exceeds-take_tx :
        (children : List Hash) (tx : Transaction) (t : Template)
        → Fits c tx
        → Fits c e.tx
        → IsPacked c m t
        → exceeds c t tx ≡ false
        → exceeds c t e.tx ≡ true
        → exceeds c (take_tx c children tx t) e.tx ≡ true
    exceeds-take_tx children tx t fits fits_e x fit over = ground (
      arith, fits.weight, fits.sigops, fits.size, fits_e.weight, fits_e.sigops, fits_e.size,
      x.weight_le, x.sigops_le, x.size_le,
    )

    taken-or-over :
        (t : Template)
        → IsExclusive m
        → IsPacked c m t
        → AreAccounted t
        → (exceeds c t e.tx || any_spent e.tx.inputs t.block_spent_utxos) ≡ true
        → Holds e.tx t.valid_txs ⊎ (exceeds c t e.tx ≡ true)
    taken-or-over t x packed accounted skipped = elim (Bool-cases (exceeds c t e.tx)) [
      | inl over ↦ inr over
      | inr fits ↦
          let (p, uses, held) = any_spent-true e.tx.inputs t.block_spent_utxos (ground arith) in
          let (u, holds, uses_u) = accounted p held in
          let (k, d, found_d, same) = Holds-All (IsPooled c m) u t.valid_txs packed.pooled holds in
          let one : k ≡ h = x.exclusive k h d e p found_d found (rw same uses_u) uses in
          let entries : d ≡ e = ground (arith, rw one at found_d) in
          inl (rw (← entries, same) holds)
    ]

    pack-IsConsidered :
        (g : Hash) (t : Template)
        → AllFit c m
        → IsExclusive m
        → IsPacked c m t
        → AreAccounted t
        → IsConsideredBut g t
        → IsConsidered (pack c m g t)
    pack-IsConsidered g t fit x packed accounted waits = elim (pack-cases c m g t) [
      | inl (same, skipped) ↦ rw same (elim (Bool-cases (g == h)) [
        | inl here ↦ inr (taken-or-over t x packed accounted (skipped e (ground arith)))
        | inr other ↦ ground arith
      ])
      | inr (d, found_d, fits, free, same) ↦ rw same (elim waits [
        | inl queued ↦ elim (Bool-cases (contains h t.ready_queue)) [
          | inl has ↦ inl (contains-unlock h (children_of c m g) t.in_degree t.ready_queue has)
          | inr gone ↦
              let entries : d ≡ e = ground arith in
              inr (inl (rw (← entries) (Holds-last d.tx t.valid_txs)))
        ]
        | inr (inl taken) ↦ inr (inl (Holds-append e.tx d.tx t.valid_txs taken))
        | inr (inr over) ↦ inr (
            inr (
              exceeds-take_tx (children_of c m g) d.tx t (fit g d found_d) (fit h e found) packed
                fits over))
      ])
    ]

    round_on-IsConsidered :
        (hs : List Hash) (t : Template)
        → AllFit c m
        → IsExclusive m
        → IsPacked c m t
        → AreAccounted t
        → (contains h hs ≡ true) ⊎ Holds e.tx t.valid_txs ⊎ (exceeds c t e.tx ≡ true)
        → IsConsidered (round_on c m hs t)
    unfolding next_round contains
    round_on-IsConsidered [] t fit x packed accounted (inl has) = absurd (ground arith)
    round_on-IsConsidered [] t fit x packed accounted (inr done) = inr done
    round_on-IsConsidered (g ∷ gs) t fit x packed accounted waits =
        pack-IsConsidered (pop_last g gs).1 (record t { ready_queue = (pop_last g gs).0 }) fit x
          (with_queue-IsPacked c m (pop_last g gs).0 t packed) accounted
          (elim waits [
            | inl has ↦ inl (ground (arith, contains-pop_last h g gs))
            | inr done ↦ inr done
          ])

  round_on-AreAccounted :
      (hs : List Hash) (t : Template) → AreAccounted t → AreAccounted (round_on c m hs t)
  round_on-AreAccounted hs t x = elim (round_on-cases c m hs t) [
    | inl (_, same) ↦ rw same x
    | inr (g, queue, _, same) ↦
        let popped = record t { ready_queue = queue } in
        rw same (elim (pack-cases c m g popped) [
          | inl (kept, _) ↦ rw kept x
          | inr (d, _, _, _, taken) ↦
              rw taken (take_tx-AreAccounted (children_of c m g) d.tx popped x)
        ])
  ]

  mine_loop-IsConsidered :
      (n : ℕ) (h : Hash) (e : MempoolEntry) (found : lookup h m.tx_pool ≡ some e) (t : Template)
      → AllFit c m
      → IsExclusive m
      → IsPacked c m t
      → AreAccounted t
      → IsConsidered h e found t
      → IsConsidered h e found (mine_loop c n m t)
  mine_loop-IsConsidered zero h e found t fit x packed accounted waits =
      rw (mine_loop-zero c m t) waits
  mine_loop-IsConsidered (suc n) h e found t fit x packed accounted waits =
      let ready = sort_by_rate m.tx_pool t.ready_queue in
      rw (mine_loop-suc c m n t) (
        mine_loop-IsConsidered n h e found (round_on c m ready t) fit x
          (round_on-IsPacked c m ready t fit packed) (round_on-AreAccounted ready t accounted)
          (round_on-IsConsidered h e found ready t fit x packed accounted
            (rw (contains-sort_by_rate m.tx_pool h t.ready_queue) waits)))

  empty_template-AreAccounted : AreAccounted (empty_template m)
  unfolding empty_template contains
  empty_template-AreAccounted p held = absurd (ground arith)

  empty_template-ready :
      (h : Hash) (e : MempoolEntry)
      → lookup h m.tx_pool ≡ some e
      → pending_parents_count m.tx_pool e.tx.inputs ≡ 0
      → contains h (empty_template m).ready_queue ≡ true
  unfolding empty_template
  empty_template-ready h e found parentless = ground (
    arith,
    contains-keys_where (λ _ count. count == 0) h (count_parents m.tx_pool m.tx_pool []),
    lookup-count_parents m.tx_pool m.tx_pool [] h e found,
  )

  -- With the transaction the template would pass a limit of the block.
  abbrev pub LeavesNoRoom : List Transaction → Transaction → Type 0
  LeavesNoRoom txs tx =
      (max_block_weight < 480 + sum_of (get_weight c) txs + get_weight c tx)
      ⊎ (max_block_sigops < sum_of get_sigops_count txs + get_sigops_count tx)
      ⊎ (max_template_block_bytes
          < block_template_reserve_bytes
            + sum_of (get_physical_size c) txs
            + get_physical_size c tx)

  exceeds-LeavesNoRoom :
      (t : Template) (tx : Transaction)
      → Fits c tx
      → IsPacked c m t
      → exceeds c t tx ≡ true
      → LeavesNoRoom t.valid_txs tx
  exceeds-LeavesNoRoom t tx fits x over = ground (
    arith, fits.weight, fits.sigops, fits.size, x.weight, x.sigops, x.size, x.weight_le,
    x.sigops_le, x.size_le,
  )

  -- In a mempool that any sequence of operations leaves, a transaction none of whose inputs spends
  -- an output of the pool is in the block template, or it would pass a limit of the block together
  -- with the transactions that are, if no transaction is encoded in 0 bytes.
  pub get_txs_for_mining-Holds :
      (h : Hash) (e : MempoolEntry)
      → ((tx : Transaction) → 0 < get_physical_size c tx)
      → Reach c m
      → lookup h m.tx_pool ≡ some e
      → pending_parents_count m.tx_pool e.tx.inputs ≡ 0
      → Holds e.tx (get_txs_for_mining c m) ⊎ LeavesNoRoom (get_txs_for_mining c m) e.tx
  unfolding get_txs_for_mining contains
  get_txs_for_mining-Holds h e sized r found parentless =
      let fit = Reach-AllFit c r in
      let start = empty_template-IsPacked c m in
      let final = mine_loop c (mining_rounds m) m (empty_template m) in
      let ready =
        mine_loop-IsConsidered (mining_rounds m) h e found (empty_template m) fit
          (Reach-IsExclusive c r) start (empty_template-AreAccounted)
          (inl (empty_template-ready h e found parentless)) in
      elim ready [
        | inl queued ↦ absurd (ground (arith, rw (mine_loop-ready_queue c m sized r) at queued))
        | inr (inl taken) ↦ inl taken
        | inr (inr over) ↦ inr (
            exceeds-LeavesNoRoom final e.tx (fit h e found)
              (mine_loop-IsPacked c m (mining_rounds m) (empty_template m) fit start) over)
      ]
