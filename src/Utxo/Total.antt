-- ===== src/Utxo/Total.antt =====
-- src/utxo.rs: the money in a set of unspent outputs, under the updates of the set.
use quantum_btc.Prelude.{
  ℕ, ◌+◌, ◌≡◌, refl, none, some, List, [], ◌∷◌, arith, lookup, insert, remove, lookup-remove,
  beq_refl, ok,
}
use quantum_btc.Transaction.{OutPoint, outpoint_eq, same_outpoint_iff, TxOut}
use quantum_btc.Utxo.Data.{UtxoRecord, output_sum_from, checked_output_sum}
use quantum_btc.Utxo.Process.{Coins}

abbrev pub total : Coins → ℕ
total [] = 0
total ((_, r) ∷ coins) = r.output.value + total coins

abbrev pub values : List TxOut → ℕ
values [] = 0
values (o ∷ os) = o.value + values os

-- No key stands twice, as in any `HashMap`.
abbrev pub IsMap : Coins → Type 0
IsMap [] = Unit
IsMap ((k, _) ∷ coins) = (lookup k coins ≡ none) × IsMap coins

pub remove-IsMap : (k : OutPoint) (coins : Coins) → IsMap coins → IsMap (remove k coins)
unfolding remove
remove-IsMap k [] h = tt
remove-IsMap k ((j, r) ∷ coins) h =
    ground (arith, remove-IsMap k coins h.1, lookup-remove k j coins)

pub insert-IsMap :
    (k : OutPoint) (r : UtxoRecord) (coins : Coins) → IsMap coins → IsMap (insert k r coins)
unfolding insert
insert-IsMap k r coins h = (rw (lookup-remove k k coins, beq_refl k), remove-IsMap k coins h)

pub total-remove_absent :
    (k : OutPoint) (coins : Coins) → lookup k coins ≡ none → total (remove k coins) ≡ total coins
unfolding remove lookup
total-remove_absent k [] h = refl
total-remove_absent k ((j, r) ∷ coins) h = ground (arith, total-remove_absent k coins)

pub total-remove :
    (k : OutPoint) (r : UtxoRecord) (coins : Coins)
    → IsMap coins
    → lookup k coins ≡ some r
    → total (remove k coins) + r.output.value ≡ total coins
unfolding remove lookup
total-remove k r [] m h = cc
total-remove k r ((j, r') ∷ coins) m h =
    ground (arith, total-remove k r coins m.1, total-remove_absent k coins, same_outpoint_iff j k)

pub total-insert_new :
    (k : OutPoint) (r : UtxoRecord) (coins : Coins)
    → lookup k coins ≡ none
    → total (insert k r coins) ≡ total coins + r.output.value
unfolding insert
total-insert_new k r coins h = omega (arith, total-remove_absent k coins h)

output_sum_from-ok :
    (sum : ℕ) (os : List TxOut) (t : ℕ) → output_sum_from sum os ≡ ok t → t ≡ sum + values os
unfolding output_sum_from
output_sum_from-ok sum [] t h = ground arith
output_sum_from-ok sum (o ∷ os) t h = ground (arith, output_sum_from-ok (sum + o.value) os t)

pub checked_output_sum-ok : (os : List TxOut) (t : ℕ) → checked_output_sum os ≡ ok t → t ≡ values os
unfolding checked_output_sum
checked_output_sum-ok os t h = omega (arith, output_sum_from-ok 0 os t h)
