-- ===== src/Mempool.antt =====
-- src/mempool/blind_box.rs: the pool of transactions that wait for a block, with the indices that
-- describe it. `SystemTime::now()` is the argument `now`, in seconds.
pub mod Evict
pub mod Invariant
pub mod Sweep
pub mod Mining
pub mod Fitting
pub mod Selected
pub mod ReadyQueue
pub mod Template
pub mod Rounds
pub mod Liveness
pub mod Room
use quantum_btc.Prelude.{
  ℕ, zero, suc, ◌+◌, ◌-◌, ◌*◌, ◌/◌, ◌%◌, ◌^◌, Bool, true, false, not, ◌&&◌, ◌||◌, Option, none,
  some, List, [], ◌∷◌, ◌++◌, length, filter, map, Hash, HashMap, HashSet, lookup, insert, remove,
  contains, contains_key, keys_where, fail_if, ◌>>=◌, ◌>>◌, get_or, drop, set_insert, set_remove,
  nat_eq, Eq, arith, ◌≡◌, ◌↔◌, Result, ok, err, u64_mod, leb, ltb, ◌==◌, if◌then◌else◌,
}
use quantum_btc.Config.{
  max_block_weight, max_block_sigops, max_template_block_bytes, block_template_reserve_bytes,
  min_relay_fee_rate,
}
use quantum_btc.Crypto.Primitives.{Primitives}
use quantum_btc.Transaction.{
  OutPoint, outpoint_eq, outpoint, TxIn, Transaction, calculate_id, get_weight, get_sigops_count,
  get_physical_size,
}

pub record MempoolEntry : Type 0 where
  pub tx : Transaction
  pub fee : ℕ
  pub weight : ℕ
  pub timestamp : ℕ

pub record FeeRateKey : Type 0 where
  pub rate : ℕ
  pub tx_hash : Hash

abbrev pub same_key : FeeRateKey → FeeRateKey → Bool
same_key a b = (a.rate == b.rate) && (a.tx_hash == b.tx_hash)

pub same_key_iff : (a b : FeeRateKey) → (same_key a b ≡ true) ↔ (a ≡ b)
same_key_iff a b = ground arith

instance abbrev pub fee_key_eq : Eq FeeRateKey
fee_key_eq = record { beq = same_key; beq_iff = same_key_iff }

pub data MempoolError : Type 0 where
  already_exists double_spend_detected mempool_full fee_too_low tombstoned too_large : MempoolError

-- `tx_pool` keeps the order of insertion, `fee_index` is a set that is read by its least key.
pub record QuantumMempool : Type 0 where
  pub tx_pool : HashMap Hash MempoolEntry
  pub fee_index : HashSet FeeRateKey
  pub spent_outpoints : HashSet OutPoint
  pub child_index : HashMap Hash (List Hash)
  pub orphan_pool : HashMap Hash Transaction
  pub current_weight : ℕ
  pub tombstones : HashSet Hash
  pub tombstone_queue : List Hash

abbrev pub max_mempool_weight : ℕ
max_mempool_weight = 1_200_000_000

abbrev pub max_tombstones : ℕ
max_tombstones = 8192

abbrev pub max_orphans : ℕ
max_orphans = 1024

abbrev pub empty_mempool : QuantumMempool
empty_mempool = record {
  tx_pool = [];
  fee_index = [];
  spent_outpoints = [];
  child_index = [];
  orphan_pool = [];
  current_weight = 0;
  tombstones = [];
  tombstone_queue = [];
}

-- An `IndexMap` appends a new key and keeps the place of an old one.
unfoldable pub insert_in_order :
    Hash → MempoolEntry → HashMap Hash MempoolEntry → HashMap Hash MempoolEntry
insert_in_order h entry [] = (h, entry) ∷ []
insert_in_order h entry ((k, e) ∷ pool) =
    let rest = insert_in_order h entry pool in if k == h then (k, entry) ∷ pool else (k, e) ∷ rest

-- `(fee as u128 * 1_000_000) / weight.max(1) as u128`, as `u64`.
unfoldable pub calculate_rate : ℕ → ℕ → ℕ
calculate_rate fee weight = fee * 1_000_000 / (if ltb weight 1 then 1 else weight) % 2 ^ 64

-- The order of the keys: by rate, then by hash.
abbrev pub key_before : FeeRateKey → FeeRateKey → Bool
key_before a b = if ltb a.rate b.rate then true else (a.rate == b.rate) && ltb a.tx_hash b.tx_hash

abbrev pub least : FeeRateKey → HashSet FeeRateKey → FeeRateKey
least k [] = k
least k (j ∷ keys) = least (if key_before j k then j else k) keys

abbrev pub first_key : HashSet FeeRateKey → Option FeeRateKey
first_key [] = none
first_key (k ∷ keys) = some (least k keys)

-- `spent_outpoints.remove` and `insert` for each input.
abbrev pub unspend : List TxIn → HashSet OutPoint → HashSet OutPoint
unspend [] spent = spent
unspend (input ∷ rest) spent = unspend rest (set_remove (outpoint input) spent)

abbrev pub mark_spent : List TxIn → HashSet OutPoint → HashSet OutPoint
mark_spent [] spent = spent
mark_spent (input ∷ rest) spent = mark_spent rest (set_insert (outpoint input) spent)

abbrev pub any_spent : List TxIn → HashSet OutPoint → Bool
any_spent [] spent = false
any_spent (input ∷ rest) spent = contains (outpoint input) spent || any_spent rest spent

-- The children pushed one by one onto the stack, whose top stands first.
abbrev pub push_all : List Hash → List Hash → List Hash
push_all [] stack = stack
push_all (child ∷ children) stack = push_all children (child ∷ stack)

abbrev pub or_no_children : Option (List Hash) → List Hash
or_no_children none = []
or_no_children (some children) = children

abbrev pub child_count : HashMap Hash (List Hash) → ℕ
child_count [] = 0
child_count ((_, children) ∷ index) = length children + child_count index

-- The children of the inputs' transactions that are in the pool.
abbrev pub register :
    Hash
    → List TxIn
    → HashMap Hash MempoolEntry
    → HashMap Hash (List Hash)
    → HashMap Hash (List Hash)
register tx_hash [] pool index = index
register tx_hash (input ∷ rest) pool index =
    let parent = input.previous_output_hash in
    register tx_hash rest pool (
      if contains_key parent pool
      then insert parent (or_no_children (lookup parent index) ++ tx_hash ∷ []) index
      else index)

-- The tombstone of a hash, with the oldest one dropped when there are too many.
abbrev pub bury : Hash → QuantumMempool → QuantumMempool
bury h m =
    let queue = m.tombstone_queue ++ h ∷ [] in
    let buried = record m { tombstones = set_insert h m.tombstones; tombstone_queue = queue } in
    let trimmed = record m {
      tombstones = set_remove (get_or queue 0 0) (set_insert h m.tombstones);
      tombstone_queue = drop 1 queue;
    } in
    if contains h m.tombstones
    then m
    else if ltb max_tombstones (length queue)
    then trimmed
    else buried

module _ (c : Primitives) where
  -- The entry of one hash leaves the pool and every index but that of the children.
  unfoldable pub drop_entry : Hash → QuantumMempool → QuantumMempool
  drop_entry h m = elim (lookup h m.tx_pool) [
    | none ↦ m
    | some entry ↦ record m {
      tx_pool = remove h m.tx_pool;
      current_weight = m.current_weight - get_weight c entry.tx;
      fee_index =
          set_remove (record { rate = calculate_rate entry.fee entry.weight; tx_hash = h })
            m.fee_index;
      spent_outpoints = unspend entry.tx.inputs m.spent_outpoints;
    }
  ]

  -- The loop over the stack, for at most so many rounds.
  unfoldable pub evict_loop : ℕ → List Hash → QuantumMempool → List Hash × QuantumMempool
  evict_loop zero stack m = (stack, m)
  evict_loop (suc rounds) [] m = ([], m)
  evict_loop (suc rounds) (current_hash ∷ stack) m =
      evict_loop rounds (push_all (or_no_children (lookup current_hash m.child_index)) stack)
        (drop_entry current_hash (record m { child_index = remove current_hash m.child_index }))

  -- One round for the hash itself and one for each child that the index holds.
  unfoldable pub evict_transaction_and_descendants : Hash → QuantumMempool → QuantumMempool
  evict_transaction_and_descendants tx_hash m =
      (evict_loop (suc (child_count m.child_index)) (tx_hash ∷ []) m).1

  -- The loop that makes room, with one round for each key of the index. What it has evicted stays
  -- evicted if it then fails.
  unfoldable pub make_room :
      ℕ → ℕ → ℕ → QuantumMempool → QuantumMempool × Result MempoolError (Unit {0})
  make_room zero tx_weight current_rate m = (m, ok tt)
  make_room (suc rounds) tx_weight current_rate m = elim (first_key m.fee_index) [
    | none ↦ (m, ok tt)
    | some lowest ↦
        let evicted = evict_transaction_and_descendants lowest.tx_hash m in
        let rest =
          make_room rounds tx_weight current_rate
            (record evicted { fee_index = set_remove lowest evicted.fee_index }) in
        if ltb max_mempool_weight ((m.current_weight + tx_weight) % u64_mod)
        then (if leb current_rate lowest.rate then (m, err fee_too_low) else rest)
        else (m, ok tt)
  ]

  -- The checks before the loop.
  unfoldable pub check_admission : Transaction → ℕ → QuantumMempool → Result MempoolError (Unit {0})
  check_admission tx fee m = do
    fail_if (contains (calculate_id c tx) m.tombstones) tombstoned
    fail_if (contains_key (calculate_id c tx) m.tx_pool) already_exists
    fail_if (any_spent tx.inputs m.spent_outpoints) double_spend_detected
    fail_if (ltb max_block_weight (get_weight c tx) || ltb max_block_sigops (get_sigops_count tx))
        mempool_full
    fail_if (ltb (max_template_block_bytes - block_template_reserve_bytes) (get_physical_size c tx))
        too_large
    fail_if (ltb (calculate_rate fee (get_weight c tx)) (min_relay_fee_rate * 1_000_000))
        fee_too_low

  -- What an admitted transaction adds.
  abbrev pub admit : Transaction → ℕ → ℕ → QuantumMempool → QuantumMempool
  admit tx fee now m =
      let tx_hash = calculate_id c tx in
      let weight = get_weight c tx in
      record m {
        tx_pool =
            insert_in_order tx_hash
              (record { tx = tx; fee = fee; weight = weight; timestamp = now }) m.tx_pool;
        fee_index =
            set_insert (record { rate = calculate_rate fee weight; tx_hash = tx_hash }) m.fee_index;
        spent_outpoints = mark_spent tx.inputs m.spent_outpoints;
        child_index = register tx_hash tx.inputs m.tx_pool m.child_index;
        current_weight = (m.current_weight + weight) % u64_mod;
      }

  abbrev pub admit_if :
      Transaction
      → ℕ
      → ℕ
      → QuantumMempool × Result MempoolError (Unit {0})
      → QuantumMempool × Result MempoolError (Unit {0})
  admit_if tx fee now (m, err e) = (m, err e)
  admit_if tx fee now (m, ok _) = (admit tx fee now m, ok tt)

  unfoldable pub add_transaction :
      Transaction → ℕ → ℕ → QuantumMempool → QuantumMempool × Result MempoolError (Unit {0})
  add_transaction tx fee now m = elim (check_admission tx fee m) [
    | err e ↦ (m, err e)
    | ok _ ↦
        admit_if tx fee now (
          make_room (length m.fee_index) (get_weight c tx) (calculate_rate fee (get_weight c tx)) m)
  ]

  -- `keys().next()` is the first key of the list.
  pub add_orphan : Transaction → QuantumMempool → QuantumMempool
  add_orphan tx m = record m {
    orphan_pool =
        insert (calculate_id c tx) tx
          (if leb max_orphans (length m.orphan_pool) then drop 1 m.orphan_pool else m.orphan_pool);
  }

  unfoldable pub purge_all : List Hash → QuantumMempool → QuantumMempool
  purge_all [] m = m
  purge_all (h ∷ hs) m = purge_all hs (evict_transaction_and_descendants h (bury h m))

  unfoldable pub purge_stale_transactions : ℕ → ℕ → QuantumMempool → QuantumMempool
  unfolding purge_all
  purge_stale_transactions now max_age_seconds m =
      purge_all (keys_where (λ _ entry. ltb max_age_seconds (now - entry.timestamp)) m.tx_pool) m

  unfoldable pub remove_with_descendants : List Hash → QuantumMempool → QuantumMempool
  remove_with_descendants [] m = m
  remove_with_descendants (h ∷ hs) m =
      remove_with_descendants hs (evict_transaction_and_descendants h m)

abbrev pub clear_pool : QuantumMempool → QuantumMempool
clear_pool m = record m {
  tx_pool = [];
  fee_index = [];
  spent_outpoints = [];
  child_index = [];
  current_weight = 0;
}
