-- ===== src/Tests/Actor.antt =====
-- Runs of the wallet's and the actor's operations of src/utxo.rs.
use quantum_btc.Prelude.{
  ℕ, ◌<◌, ◌≡◌, ◌≢◌, ◌↔◌, refl, true, false, ◌||◌, none, List, [], ◌∷◌, Hash, arith, lookup,
  contains, nat_eq, err,
}
use quantum_btc.Crypto.Toy.{toy}
use quantum_btc.Transaction.{OutPoint, outpoint_eq, Transaction, calculate_id}
use quantum_btc.Utxo.Data.{UtxoRecord, UtxoState, insufficient_funds}
use quantum_btc.Utxo.Total.{IsMap}
use quantum_btc.Utxo.Wallet.{get_balance, get_spendable_utxos}
use quantum_btc.Utxo.Actor.{Pending, reconcile, validate_for_mempool}
use quantum_btc.Utxo.Cache.{is_ok, validate_for_mempool_lem}
use quantum_btc.Utxo.Spendable.{Selects, get_spendable_utxos_lem, get_balance-get_spendable_utxos}
use quantum_btc.Utxo.Ghosts.{unresolved, reconcile-unresolved}

abbrev coin : ℕ → ℕ → OutPoint × UtxoRecord
coin n value = (
  record { tx_hash = n; vout = 0 },
  record {
    output = record { value = value; public_key_hash = 9; recovery = none };
    height = 1;
    is_coinbase = false;
  },
)

-- Two coins of the key 9, the first of which a pending transaction spends.
abbrev purse : UtxoState
purse = record { unspent_outputs = coin 5 1000 ∷ coin 6 700 ∷ []; verified_tx_cache = [] }

abbrev pending : Transaction
pending = record {
  inputs = record { previous_output_hash = 5; vout = 0 } ∷ [];
  outputs = [];
  witnesses = [];
}

distinct : IsMap purse.unspent_outputs
unfolding lookup
distinct = (refl, (refl, tt))

get_spendable_utxos_lem_example :
    Selects purse 9 50 (pending ∷ []) 600 (get_spendable_utxos 9 50 600 (pending ∷ []) purse)
get_spendable_utxos_lem_example =
    get_spendable_utxos_lem purse 9 50 (pending ∷ []) 600 distinct (omega arith)

get_balance-get_spendable_utxos_example :
    (get_spendable_utxos 9 50 800 (pending ∷ []) purse ≡ err insufficient_funds)
    ↔ ((get_balance 9 50 (pending ∷ []) purse).0 < 800)
get_balance-get_spendable_utxos_example =
    get_balance-get_spendable_utxos purse 9 50 (pending ∷ []) 800 distinct (omega arith)

validate_for_mempool_lem_example :
    let (s', result) = validate_for_mempool toy pending 50 true purse in
    let id = calculate_id toy pending in
    (s'.unspent_outputs ≡ purse.unspent_outputs)
    × (contains id s'.verified_tx_cache ≡ (is_ok result || contains id purse.verified_tx_cache))
    × ((k : Hash)
        → k ≢ id
        → contains k s'.verified_tx_cache ≡ true
        → contains k purse.verified_tx_cache ≡ true)
    × (is_ok result ≡ false
        → (k : Hash) → contains k s'.verified_tx_cache ≡ contains k purse.verified_tx_cache)
validate_for_mempool_lem_example = validate_for_mempool_lem toy pending 50 true purse

-- The second spends the first's output, the third an output that nothing makes.
abbrev queue : List Pending
queue =
    record { tx_id = 20; inputs = pending.inputs; outputs = (coin 5 900).1.output ∷ [] }
    ∷ record {
      tx_id = 21;
      inputs = record { previous_output_hash = 20; vout = 0 } ∷ [];
      outputs = [];
    }
    ∷ record {
      tx_id = 22;
      inputs = record { previous_output_hash = 30; vout = 0 } ∷ [];
      outputs = [];
    }
    ∷ []

reconcile-unresolved_example :
    reconcile purse.unspent_outputs [] queue ≡ unresolved purse.unspent_outputs [] queue
reconcile-unresolved_example = reconcile-unresolved purse.unspent_outputs queue
