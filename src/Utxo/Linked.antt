-- ===== src/Utxo/Linked.antt =====
-- src/utxo.rs: phase 1 of `process_block` finds for each input the record that phase 3 removes.
use quantum_btc.Prelude.{
  ℕ, suc, ◌+◌, ◌%◌, ◌^◌, ◌≤◌, ◌<◌, ◌≡◌, ◌≢◌, refl, Bool, true, false, none, some, List, [], ◌∷◌,
  ◌++◌, Hash, HashSet, arith, lookup, insert, remove, lookup-insert, lookup-remove, ok,
  if◌then◌else◌, length, contains, set_insert, contains-set_insert, >>=-eq-ok,
}
use quantum_btc.Transaction.{
  OutPoint, outpoint_eq, outpoint, same_outpoint_iff, TxIn, TxOut, Transaction,
}
use quantum_btc.Utxo.Data.{UtxoRecord, checked_money_add}
use quantum_btc.Utxo.Process.{
  Coins, InputPass, find_record, is_immature, preflight_input, preflight_inputs, spend_inputs,
  new_record, new_outpoint, create_outputs,
}
use quantum_btc.Utxo.Total.{
  total, values, IsMap, remove-IsMap, insert-IsMap, total-remove, total-insert_new,
}

-- `base` is the set of before the block, `made` the outputs of its transactions so far, `gone` the
-- inputs seen by phase 1, and `now` the set as phase 3 has changed it.
pub record IsLinked (base made : Coins) (gone : HashSet OutPoint) (now : Coins) : Type 0 where
  pub at :
      (op : OutPoint)
      → lookup op now ≡ (if contains op gone then none else find_record base made op)
  pub known : (op : OutPoint) → contains op gone ≡ true → find_record base made op ≢ none
  pub is_map : IsMap now

pub preflight_input-ok :
    (base made : Coins) (height : ℕ) (tx : Transaction) (id : Hash) (i : ℕ) (input : TxIn)
    (p p' : InputPass)
    → preflight_input base made height tx id i input p ≡ ok p'
    → (r : UtxoRecord) × (contains (outpoint input) p.spent ≡ false)
      × (find_record base made (outpoint input) ≡ some r)
      × (is_immature height r ≡ false)
      × (p' ≡ record {
        spent = set_insert (outpoint input) p.spent;
        tasks = p.tasks ++ record { tx = tx; index = i; core_hash = id; spent = r } ∷ [];
        input_sum = p.input_sum + r.output.value;
      })
unfolding preflight_input checked_money_add
preflight_input-ok base made height tx id i input p p' h = ground arith

module _ (base made : Coins) (height : ℕ) (tx : Transaction) (id : Hash) where
  remove-IsLinked :
      (op : OutPoint) (r : UtxoRecord) (gone : HashSet OutPoint) (now : Coins)
      → find_record base made op ≡ some r
      → IsLinked base made gone now
      → IsLinked base made (set_insert op gone) (remove op now)
  remove-IsLinked op r gone now found l = record {
    at = λ k. ground (arith, l.at k, lookup-remove op k now, contains-set_insert op k gone);
    known = λ k. ground (arith, l.known k, contains-set_insert op k gone, same_outpoint_iff op k);
    is_map = remove-IsMap op now l.is_map;
  }

  -- The inputs of a transaction: what phase 1 credits leaves the set in phase 3.
  pub spend_inputs-IsLinked :
      (inputs : List TxIn) (i : ℕ) (p p' : InputPass) (now : Coins)
      (log : List (OutPoint × UtxoRecord))
      → preflight_inputs base made height tx id i inputs p ≡ ok p'
      → IsLinked base made p.spent now
      → let (now', _) = spend_inputs inputs (now, log) in
        IsLinked base made p'.spent now' × (total now' + p'.input_sum ≡ total now + p.input_sum)
  unfolding preflight_inputs spend_inputs
  spend_inputs-IsLinked [] i p p' now log h l =
      let same : p' ≡ p = ground arith in rw same (l, refl)
  spend_inputs-IsLinked (input ∷ rest) i p p' now log h l =
      let (q, first, others) =
        >>=-eq-ok (preflight_input base made height tx id i input p)
          (preflight_inputs base made height tx id (suc i) rest) h in
      let (r, unspent, found, _, q_eq) =
        preflight_input-ok base made height tx id i input p q first in
      let op = outpoint input in
      let there : lookup op now ≡ some r = ground (arith, l.at op) in
      let linked : IsLinked base made q.spent (remove op now) =
        rw q_eq (remove-IsLinked op r p.spent now found l) in
      let (after, sums) =
        spend_inputs-IsLinked rest (suc i) q p' (remove op now) (log ++ (op, r) ∷ []) others
          linked in
      let credited : q.input_sum ≡ p.input_sum + r.output.value = rw q_eq in
      rw (there, spend_inputs) (after, omega (arith, total-remove op r now l.is_map there))

-- No output of the transaction `id` from number `i` on is in the set.
abbrev pub IsAbsent : Hash → ℕ → Coins → Type 0
IsAbsent id i coins = (j : ℕ) → i ≤ j → lookup (record { tx_hash = id; vout = j }) coins ≡ none

module _ (base : Coins) (height : ℕ) (b : Bool) (id : Hash) where
  insert-IsLinked :
      (op : OutPoint) (r : UtxoRecord) (made : Coins) (gone : HashSet OutPoint) (now : Coins)
      → lookup op base ≡ none
      → lookup op made ≡ none
      → IsLinked base made gone now
      → IsLinked base (insert op r made) gone (insert op r now) × (lookup op now ≡ none)
  insert-IsLinked op r made gone now fresh new l = (
    record {
      at = λ k. ground (
        arith,
        l.at k,
        l.known op,
        lookup-insert op k r now,
        lookup-insert op k r made,
        same_outpoint_iff op k,
      );
      known = λ k. ground (arith, l.known k, lookup-insert op k r made);
      is_map = insert-IsMap op r now l.is_map;
    },
    ground (arith, l.at op),
  )

  IsAbsent-insert :
      (i : ℕ) (r : UtxoRecord) (made : Coins)
      → i < 2 ^ 32
      → IsAbsent id i made
      → IsAbsent id (suc i) (insert (new_outpoint id i) r made)
  IsAbsent-insert i r made small a j le =
      ground
        (arith, a j, lookup-insert (new_outpoint id i) (record { tx_hash = id; vout = j }) r made)

  -- The outputs of a transaction enter the cache of phase 1 and the set of phase 3 alike.
  pub create_outputs-IsLinked :
      (os : List TxOut) (i : ℕ) (made : Coins) (gone : HashSet OutPoint) (now : Coins)
      → i + length os ≤ 2 ^ 32
      → IsAbsent id i base
      → IsAbsent id i made
      → IsLinked base made gone now
      → IsLinked base
          (create_outputs id height b i os made)
          gone
          (create_outputs id height b i os now)
        × (total (create_outputs id height b i os now) ≡ total now + values os)
  unfolding create_outputs
  create_outputs-IsLinked [] i made gone now fits fresh new l = (l, omega arith)
  create_outputs-IsLinked (o ∷ os) i made gone now fits fresh new l =
      let r = new_record height b o in
      let op = new_outpoint id i in
      let small : i < 2 ^ 32 = omega arith in
      let exact : i % 2 ^ 32 ≡ i = omega arith in
      let (l', free) =
        insert-IsLinked op r made gone now (rw exact (fresh i (omega arith)))
          (rw exact (new i (omega arith))) l in
      let (after, sums) =
        create_outputs-IsLinked os (suc i) (insert op r made) gone (insert op r now) (omega arith)
          (λ j le. fresh j (omega arith)) (IsAbsent-insert i r made small new) l' in
      (after, omega (arith, total-insert_new op r now free))
