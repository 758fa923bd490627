-- ===== src/Tests/Mempool.antt =====
-- Runs of src/mempool/blind_box.rs.
use quantum_btc.Prelude.{
  ℕ, nat_eq, ◌<◌, some, ◌≡◌, refl, lookup, insert, remove, contains, set_insert, set_remove,
  keys_where, ◌⊎◌, arith, none, [], ◌∷◌,
}
use quantum_btc.Crypto.Toy.{toy}
use quantum_btc.Transaction.{Transaction, calculate_id, get_weight, get_physical_size, outpoint_eq}
use quantum_btc.Mempool.{
  empty_mempool, MempoolEntry, QuantumMempool, add_transaction, remove_with_descendants,
  insert_in_order, calculate_rate, drop_entry, evict_transaction_and_descendants, check_admission,
  evict_loop, make_room,
}
use quantum_btc.Mempool.Mining.{
  get_txs_for_mining, mine_loop, empty_template, pending_parents_count, next_round, pop_last, pack,
  unlock, sort_by_rate, insert_by_rate, rate_of, count_parents,
}
use quantum_btc.Mempool.Template.{IsTemplate, get_txs_for_mining-IsTemplate}
use quantum_btc.Mempool.Liveness.{LeavesNoRoom, get_txs_for_mining-Holds}
use quantum_btc.Mempool.Selected.{Holds}
use quantum_btc.Mempool.Evict.{IsExclusive}
use quantum_btc.Mempool.Invariant.{Reach, here, next, add, Reach-IsExclusive}

abbrev spending : ℕ → Transaction
spending n = record {
  inputs = record { previous_output_hash = n; vout = 0 } ∷ [];
  outputs = record { value = 1; public_key_hash = 9; recovery = none } ∷ [];
  witnesses = [];
}

-- Two transactions that spend one output, with different fees, and a third.
Reach-IsExclusive_example :
    IsExclusive
      (add_transaction toy
        (spending 6)
        90_000
        30
        (add_transaction toy
          (record (spending 5) { outputs = [] })
          99_000
          20
          (add_transaction toy (spending 5) 80_000 10 empty_mempool).0).0).0
Reach-IsExclusive_example = Reach-IsExclusive toy (
    next
      (next (next here (add (spending 5) 80_000 10))
        (add (record (spending 5) { outputs = [] }) 99_000 20))
      (add (spending 6) 90_000 30))

abbrev family : QuantumMempool
family = record empty_mempool { child_index = (5, 6 ∷ 7 ∷ []) ∷ (6, 8 ∷ []) ∷ [] }

-- A full pool whose index holds two keys.
abbrev crowded : QuantumMempool
crowded = record family {
  fee_index =
      record { rate = 6_000_000; tx_hash = 5 } ∷ record { rate = 7_000_000; tx_hash = 6 } ∷ [];
  current_weight = 1_200_000_000;
}

-- Two transactions, and a third that spends an output of each.
abbrev child : Transaction
child = record (spending 0) {
  inputs =
      record { previous_output_hash = calculate_id toy (spending 5); vout = 0 }
      ∷ record { previous_output_hash = calculate_id toy (spending 6); vout = 0 }
      ∷ [];
}

abbrev parents : QuantumMempool
parents =
    (add_transaction toy (spending 6) 60_000 20
      (add_transaction toy (spending 5) 90_000 10 empty_mempool).0).0

abbrev family_pool : QuantumMempool
family_pool = (add_transaction toy child 95_000 30 parents).0

abbrev again : QuantumMempool
again =
    (add_transaction toy child 95_000 40
      (remove_with_descendants toy (calculate_id toy child ∷ []) family_pool)).0

abbrev reached : Reach toy family_pool
reached =
    next (next (next here (add (spending 5) 90_000 10)) (add (spending 6) 60_000 20))
      (add child 95_000 30)

family_template : get_txs_for_mining toy family_pool ≡ spending 5 ∷ spending 6 ∷ child ∷ []
unfolding get_txs_for_mining mine_loop next_round pop_last pack unlock sort_by_rate insert_by_rate
    rate_of empty_template count_parents pending_parents_count add_transaction insert_in_order
    calculate_rate drop_entry evict_loop evict_transaction_and_descendants make_room check_admission
    remove_with_descendants lookup insert remove contains set_insert set_remove keys_where
    calculate_id get_weight get_physical_size
family_template = refl

-- The second registration leaves the child twice among the children of each parent, and it is ready
-- before the second parent is taken.
again_template : get_txs_for_mining toy again ≡ spending 5 ∷ child ∷ spending 6 ∷ []
unfolding get_txs_for_mining mine_loop next_round pop_last pack unlock sort_by_rate insert_by_rate
    rate_of empty_template count_parents pending_parents_count add_transaction insert_in_order
    calculate_rate drop_entry evict_loop evict_transaction_and_descendants make_room check_admission
    remove_with_descendants lookup insert remove contains set_insert set_remove keys_where
    calculate_id get_weight get_physical_size
again_template = refl

toy-sized : (tx : Transaction) → 0 < get_physical_size toy tx
unfolding get_physical_size
toy-sized tx = omega arith

get_txs_for_mining-IsTemplate_example :
    IsTemplate toy family_pool (get_txs_for_mining toy family_pool)
get_txs_for_mining-IsTemplate_example = get_txs_for_mining-IsTemplate toy family_pool reached

parentless : pending_parents_count family_pool.tx_pool (spending 6).inputs ≡ 0
unfolding add_transaction mine_loop next_round pop_last pack unlock sort_by_rate insert_by_rate
    rate_of empty_template count_parents pending_parents_count insert_in_order calculate_rate
    drop_entry evict_loop evict_transaction_and_descendants make_room check_admission
    remove_with_descendants lookup insert remove contains set_insert set_remove keys_where
    calculate_id get_weight get_physical_size
parentless = refl

abbrev second : MempoolEntry
second = record { tx = spending 6; fee = 60_000; weight = 343; timestamp = 20 }

second_found : lookup (calculate_id toy (spending 6)) family_pool.tx_pool ≡ some second
unfolding add_transaction mine_loop next_round pop_last pack unlock sort_by_rate insert_by_rate
    rate_of empty_template count_parents pending_parents_count insert_in_order calculate_rate
    drop_entry evict_loop evict_transaction_and_descendants make_room check_admission
    remove_with_descendants lookup insert remove contains set_insert set_remove keys_where
    calculate_id get_weight get_physical_size
second_found = refl

get_txs_for_mining-Holds_example :
    Holds (spending 6) (get_txs_for_mining toy family_pool)
    ⊎ LeavesNoRoom toy family_pool (get_txs_for_mining toy family_pool) (spending 6)
get_txs_for_mining-Holds_example =
    get_txs_for_mining-Holds toy family_pool (calculate_id toy (spending 6)) second
      (λ tx. toy-sized tx) reached second_found parentless
