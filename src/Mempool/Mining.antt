-- ===== src/Mempool/Mining.antt =====
-- src/mempool/blind_box.rs: `get_txs_for_mining`, which packs the transactions of a block template.
-- The map of the pending parents is read in the order of the pool.
use quantum_btc.Prelude.{
  ℕ, zero, suc, ◌+◌, ◌-◌, ◌*◌, ◌%◌, Bool, ◌||◌, none, some, List, [], ◌∷◌, ◌++◌, length, Hash,
  HashMap, HashSet, lookup, insert, contains_key, keys_where, nat_eq, ltb, leb, ◌==◌, if◌then◌else◌,
  u64_mod,
}
use quantum_btc.Config.{
  max_block_weight, max_block_sigops, max_template_block_bytes, block_template_reserve_bytes,
}
use quantum_btc.Crypto.Primitives.{Primitives}
use quantum_btc.Transaction.{
  OutPoint, TxIn, Transaction, get_weight, get_sigops_count, get_physical_size,
}
use quantum_btc.Mempool.{
  MempoolEntry, QuantumMempool, calculate_rate, mark_spent, any_spent, or_no_children, child_count,
}

-- The local variables of the loop.
pub record Template : Type 0 where
  pub valid_txs : List Transaction
  pub block_spent_utxos : HashSet OutPoint
  pub current_block_weight : ℕ
  pub current_block_sigops : ℕ
  pub current_block_size : ℕ
  pub in_degree : HashMap Hash ℕ
  pub ready_queue : List Hash

-- The inputs that spend an output of a transaction in the pool.
unfoldable pub pending_parents_count : HashMap Hash MempoolEntry → List TxIn → ℕ
pending_parents_count pool [] = 0
pending_parents_count pool (input ∷ rest) =
    let count = pending_parents_count pool rest in
    if contains_key input.previous_output_hash pool then suc count else count

unfoldable pub count_parents :
    HashMap Hash MempoolEntry → HashMap Hash MempoolEntry → HashMap Hash ℕ → HashMap Hash ℕ
count_parents pool [] degrees = degrees
count_parents pool ((tx_hash, entry) ∷ rest) degrees =
    insert tx_hash (pending_parents_count pool entry.tx.inputs) (count_parents pool rest degrees)

unfoldable pub rate_of : HashMap Hash MempoolEntry → Hash → ℕ
rate_of pool h = elim (lookup h pool) [
  | none ↦ 0
  | some entry ↦ calculate_rate entry.fee entry.weight
]

-- `sort_by` on the rates, which is stable.
unfoldable pub insert_by_rate : HashMap Hash MempoolEntry → Hash → List Hash → List Hash
insert_by_rate pool h [] = h ∷ []
insert_by_rate pool h (k ∷ ks) =
    let rest = insert_by_rate pool h ks in
    if leb (rate_of pool h) (rate_of pool k) then h ∷ k ∷ ks else k ∷ rest

unfoldable pub sort_by_rate : HashMap Hash MempoolEntry → List Hash → List Hash
sort_by_rate pool [] = []
sort_by_rate pool (h ∷ hs) = insert_by_rate pool h (sort_by_rate pool hs)

-- `pop`: the last element, and those before it.
unfoldable pub pop_last : Hash → List Hash → List Hash × Hash
pop_last h [] = ([], h)
pop_last h (k ∷ ks) = let (before, last) = pop_last k ks in (h ∷ before, last)

-- `*count -= 1` for each child, which wraps in the release profile; a child whose count is 0 is
-- ready.
unfoldable pub unlock : List Hash → HashMap Hash ℕ → List Hash → HashMap Hash ℕ × List Hash
unlock [] degrees queue = (degrees, queue)
unlock (child ∷ children) degrees queue = elim (lookup child degrees) [
  | none ↦ unlock children degrees queue
  | some count ↦
      let count' = (count + (u64_mod - 1)) % u64_mod in
      unlock children (insert child count' degrees)
        (if count' == 0 then queue ++ child ∷ [] else queue)
]

unfoldable pub empty_template : QuantumMempool → Template
empty_template m =
    let degrees = count_parents m.tx_pool m.tx_pool [] in
    record {
      valid_txs = [];
      block_spent_utxos = [];
      current_block_weight = 480;
      current_block_sigops = 0;
      current_block_size = block_template_reserve_bytes;
      in_degree = degrees;
      ready_queue = keys_where (λ _ count. count == 0) degrees;
    }

-- One round for each hash that is ready at first, and for each byte of the block one round for each
-- child of the index and one more.
abbrev pub mining_rounds : QuantumMempool → ℕ
mining_rounds m =
    length (empty_template m).ready_queue
    + (child_count m.child_index + 1) * (max_template_block_bytes - block_template_reserve_bytes)

module _ (c : Primitives) where
  -- The weight, the signature operations or the size would pass the limit of the block.
  abbrev pub exceeds : Template → Transaction → Bool
  exceeds t tx =
      ltb max_block_weight ((t.current_block_weight + get_weight c tx) % u64_mod)
      || ltb max_block_sigops ((t.current_block_sigops + get_sigops_count tx) % u64_mod)
      || ltb max_template_block_bytes ((t.current_block_size + get_physical_size c tx) % u64_mod)

  abbrev pub take_tx : List Hash → Transaction → Template → Template
  take_tx children tx t =
      let unlocked = unlock children t.in_degree t.ready_queue in
      record t {
        valid_txs = t.valid_txs ++ tx ∷ [];
        block_spent_utxos = mark_spent tx.inputs t.block_spent_utxos;
        current_block_weight = (t.current_block_weight + get_weight c tx) % u64_mod;
        current_block_sigops = (t.current_block_sigops + get_sigops_count tx) % u64_mod;
        current_block_size = (t.current_block_size + get_physical_size c tx) % u64_mod;
        in_degree = unlocked.0;
        ready_queue = unlocked.1;
      }

  -- The body of the loop for the hash that was popped.
  unfoldable pub pack : QuantumMempool → Hash → Template → Template
  pack m current_hash t = elim (lookup current_hash m.tx_pool) [
    | none ↦ t
    | some entry ↦
        if exceeds t entry.tx || any_spent entry.tx.inputs t.block_spent_utxos
        then t
        else take_tx (or_no_children (lookup current_hash m.child_index)) entry.tx t
  ]

  unfoldable pub next_round : QuantumMempool → Hash → List Hash → Template → Template
  next_round m h hs t =
      let (before, current_hash) = pop_last h hs in
      pack m current_hash (record t { ready_queue = before })

  -- The loop, for at most so many rounds.
  unfoldable pub mine_loop : ℕ → QuantumMempool → Template → Template
  mine_loop zero m t = t
  mine_loop (suc rounds) m t = elim (sort_by_rate m.tx_pool t.ready_queue) [
    | [] ↦ t
    | h ∷ hs ↦ mine_loop rounds m (next_round m h hs t)
  ]

  unfoldable pub get_txs_for_mining : QuantumMempool → List Transaction
  get_txs_for_mining m = (mine_loop (mining_rounds m) m (empty_template m)).valid_txs
