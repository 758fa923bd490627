-- ===== src/Mempool/Rounds.antt =====
-- src/mempool/blind_box.rs: the loop that packs a block template comes to an end.
use quantum_btc.Prelude.{
  ℕ, zero, suc, List, ◌+◌, ◌-◌, ◌*◌, ◌%◌, ◌≤◌, ◌<◌, ◌≡◌, [], length, Hash, arith, nat_eq,
  Bool-cases, inl, inr, ◌==◌, u64_mod,
}
use quantum_btc.Config.{max_template_block_bytes}
use quantum_btc.Crypto.Primitives.{Primitives}
use quantum_btc.Transaction.{outpoint_eq, Transaction, get_physical_size}
use quantum_btc.Mempool.{QuantumMempool, child_count}
use quantum_btc.Mempool.Evict.{child_count-remove}
use quantum_btc.Mempool.Fitting.{AllFit, Reach-AllFit}
use quantum_btc.Mempool.Invariant.{Reach}
use quantum_btc.Mempool.ReadyQueue.{length-sort_by_rate, length-unlock}
use quantum_btc.Mempool.Template.{
  mine_loop-suc, mine_loop-zero, round_on, IsPacked, pack-cases, round_on-cases, round_on-IsPacked,
  empty_template-IsPacked, children_of,
}
use quantum_btc.Mempool.Mining.{
  Template, sort_by_rate, pack, mine_loop, empty_template, mining_rounds,
}

mul-lt : (k b b' : ℕ) → b' < b → (k + 1) * b' + suc k ≤ (k + 1) * b
mul-lt k zero b' lt = ground arith
mul-lt k (suc b) b' lt = elim (Bool-cases (b' == b)) [
  | inl same ↦ grind arith
  | inr other ↦ grind (arith, mul-lt k b b')
]

module _ (c : Primitives) (m : QuantumMempool) where
  children-length : (h : Hash) → length (children_of c m h) ≤ child_count m.child_index
  children-length h = omega (arith, child_count-remove c h m.child_index)

  abbrev left : Template → ℕ
  left t =
      length t.ready_queue
      + (child_count m.child_index + 1) * (max_template_block_bytes - t.current_block_size)

  -- A round uses up a ready hash, or a byte of the block for what it makes ready.
  pack-left :
      (h : Hash) (t : Template)
      → ((tx : Transaction) → 0 < get_physical_size c tx)
      → AllFit c m
      → t.current_block_size ≤ max_template_block_bytes
      → left (pack c m h t) ≤ left t
  pack-left h t sized fit le = elim (pack-cases c m h t) [
    | inl (same, _) ↦ rw same (omega arith)
    | inr (e, found, fits, free, same) ↦ rw same (
        ground (
          arith,
          length-unlock (children_of c m h) t.in_degree t.ready_queue,
          children-length h,
          sized e.tx,
          (fit h e found).size,
          mul-lt (child_count m.child_index) (max_template_block_bytes - t.current_block_size) (
              max_template_block_bytes
              - (t.current_block_size + get_physical_size c e.tx) % u64_mod),
        ))
  ]

  sorted-empty : (hs : List Hash) → sort_by_rate m.tx_pool hs ≡ [] → hs ≡ []
  sorted-empty hs empty = ground (arith, length-sort_by_rate m.tx_pool hs)

  mine_loop-idle :
      (n : ℕ) (t : Template) → t.ready_queue ≡ [] → (mine_loop c n m t).ready_queue ≡ []
  mine_loop-idle zero t idle = rw (mine_loop-zero c m t) idle
  mine_loop-idle (suc n) t idle =
      elim (round_on-cases c m (sort_by_rate m.tx_pool t.ready_queue) t) [
        | inl (_, same) ↦ rw (mine_loop-suc c m n t, same) (mine_loop-idle n t idle)
        | inr (h, queue, more, _) ↦
            absurd (ground (arith, length-sort_by_rate m.tx_pool t.ready_queue))
      ]

  mine_loop-ends :
      (n : ℕ) (t : Template)
      → ((tx : Transaction) → 0 < get_physical_size c tx)
      → AllFit c m
      → IsPacked c m t
      → left t ≤ n
      → (mine_loop c n m t).ready_queue ≡ []
  mine_loop-ends zero t sized fit x le = rw (mine_loop-zero c m t) (ground arith)
  mine_loop-ends (suc n) t sized fit x le =
      let ready = sort_by_rate m.tx_pool t.ready_queue in
      let packed = round_on-IsPacked c m ready t fit x in
      rw (mine_loop-suc c m n t) (elim (round_on-cases c m ready t) [
        | inl (empty, same) ↦ rw same (mine_loop-idle n t (sorted-empty t.ready_queue empty))
        | inr (h, queue, more, same) ↦ mine_loop-ends n (round_on c m ready t) sized fit packed (
            rw same (
              omega (
                arith,
                pack-left h (record t { ready_queue = queue }) sized fit x.size_le,
                length-sort_by_rate m.tx_pool t.ready_queue,
              )))
      ])

  -- The loop that packs the template of a mempool which any sequence of operations leaves comes to
  -- an end, with no ready transaction left, within the rounds that the model gives it, if no
  -- transaction is encoded in 0 bytes.
  pub mine_loop-ready_queue :
      ((tx : Transaction) → 0 < get_physical_size c tx)
      → Reach c m
      → (mine_loop c (mining_rounds m) m (empty_template m)).ready_queue ≡ []
  unfolding empty_template
  mine_loop-ready_queue sized r =
      mine_loop-ends (mining_rounds m) (empty_template m) sized (Reach-AllFit c r)
        (empty_template-IsPacked c m) (omega arith)
