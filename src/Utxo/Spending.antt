-- ===== src/Utxo/Spending.antt =====
-- src/utxo.rs: what every input of an accepted block satisfies.
use mathlib.Core.Path.{subst, subst₂, ◌∙◌}
use quantum_btc.Prelude.{
  ℕ, suc, ◌≡◌, refl, ap, Bool, true, false, ◌&&◌, some, List, [], ◌∷◌, ◌++◌, HashSet, arith,
  contains, set_insert, all, ok, >>=-eq-ok,
}
use quantum_btc.Crypto.Primitives.{Primitives}
use quantum_btc.Transaction.{OutPoint, outpoint_eq, outpoint, TxIn, Transaction, calculate_id}
use quantum_btc.Utxo.Data.{UtxoRecord, UtxoUndoLog, UtxoState}
use quantum_btc.Utxo.Authorize.{SignatureTask, signature_valid}
use quantum_btc.Utxo.Process.{
  Coins, Preflight, InputPass, find_record, is_immature, preflight_input, preflight_inputs,
  preflight_tx, preflight, create_outputs, new_preflight, process_block,
}
use quantum_btc.Utxo.Linked.{preflight_input-ok}
use quantum_btc.Utxo.Undo.{process_block-ok}
use quantum_btc.Utxo.Supply.{
  preflight_spend-ok, preflight_tx-suc, preflight_tx-zero, check_block-ok,
}

pub all-append :
    (p : SignatureTask → Bool) (xs ys : List SignatureTask)
    → all p (xs ++ ys) ≡ (all p xs && all p ys)
all-append p [] ys = refl
all-append p (x ∷ xs) ys = ground (arith, all-append p xs ys)

module _ (c : Primitives) (s : UtxoState) (height : ℕ) (hist : Bool) where
  -- The record that an input spends: in the set of before the block, or else made by an earlier
  -- transaction of it, not spent by an earlier input of it, mature, and its spending authorised.
  pub record IsSpendable (made : Coins) (gone : HashSet OutPoint) (tx : Transaction) (i : ℕ)
      (op : OutPoint) : Type 0 where
    pub spent : UtxoRecord
    pub unspent : contains op gone ≡ false
    pub found : find_record s.unspent_outputs made op ≡ some spent
    pub mature : is_immature height spent ≡ false
    pub authorised :
        signature_valid c s height hist
          (record { tx = tx; index = i; core_hash = calculate_id c tx; spent = spent })
        ≡ true

  -- The inputs of `tx` from number `i` on, where `gone` are the inputs of the block before.
  abbrev pub InputsSpendable : Coins → HashSet OutPoint → Transaction → ℕ → List TxIn → Type 0
  InputsSpendable made gone tx i [] = Unit
  InputsSpendable made gone tx i (input ∷ rest) =
      IsSpendable made gone tx i (outpoint input)
      × InputsSpendable made (set_insert (outpoint input) gone) tx (suc i) rest

  abbrev pub seen : HashSet OutPoint → List TxIn → HashSet OutPoint
  seen gone [] = gone
  seen gone (input ∷ rest) = seen (set_insert (outpoint input) gone) rest

  -- The transactions after the coinbase, where `made` are the outputs of those before.
  abbrev pub AllSpendable : Coins → HashSet OutPoint → List Transaction → Type 0
  AllSpendable made gone [] = Unit
  AllSpendable made gone (tx ∷ txs) =
      InputsSpendable made gone tx 0 tx.inputs
      × AllSpendable (create_outputs (calculate_id c tx) height false 0 tx.outputs made)
          (seen gone tx.inputs) txs

  abbrev Signed : List SignatureTask → Type 0
  Signed tasks = all (signature_valid c s height hist) tasks ≡ true

  Signed-snoc :
      (tasks : List SignatureTask) (t : SignatureTask)
      → Signed (tasks ++ t ∷ [])
      → Signed tasks × (signature_valid c s height hist t ≡ true)
  Signed-snoc tasks t h =
      ground (arith, all-append (signature_valid c s height hist) tasks (t ∷ []))

  preflight_inputs-spendable :
      (made : Coins) (tx : Transaction) (inputs : List TxIn) (i : ℕ) (p p' : InputPass)
      → preflight_inputs s.unspent_outputs made height tx (calculate_id c tx) i inputs p ≡ ok p'
      → Signed p'.tasks
      → Signed p.tasks × (p'.spent ≡ seen p.spent inputs) × InputsSpendable made p.spent tx i inputs
  unfolding preflight_inputs
  preflight_inputs-spendable made tx [] i p p' h g =
      let same : p' ≡ p = ground arith in (rw same at g, rw same, tt)
  preflight_inputs-spendable made tx (input ∷ rest) i p p' h g =
      let (q, first, others) =
        >>=-eq-ok (preflight_input s.unspent_outputs made height tx (calculate_id c tx) i input p)
          (preflight_inputs s.unspent_outputs made height tx (calculate_id c tx) (suc i) rest) h in
      let (r, unspent, found, mature, q_eq) =
        preflight_input-ok s.unspent_outputs made height tx (calculate_id c tx) i input p q first in
      let (before, gone, later) = preflight_inputs-spendable made tx rest (suc i) q p' others g in
      let task : SignatureTask = record {
        tx = tx;
        index = i;
        core_hash = calculate_id c tx;
        spent = r;
      } in
      let tasks_eq : q.tasks ≡ p.tasks ++ task ∷ [] = ap (λ x. x.tasks) q_eq in
      let spent_eq : q.spent ≡ set_insert (outpoint input) p.spent = ap (λ x. x.spent) q_eq in
      let (signed_before, valid) = Signed-snoc p.tasks task (subst Signed tasks_eq before) in
      (
        signed_before,
        subst (λ x. p'.spent ≡ seen x rest) spent_eq gone,
        (
          record {
            spent = r;
            unspent = unspent;
            found = found;
            mature = mature;
            authorised = valid;
          },
          subst (λ x. InputsSpendable made x tx (suc i) rest) spent_eq later,
        ),
      )

  preflight-spendable :
      (txs : List Transaction) (n : ℕ) (p p' : Preflight)
      → preflight c s.unspent_outputs height (suc n) txs p ≡ ok p'
      → Signed p'.signature_tasks
      → Signed p.signature_tasks × AllSpendable p.virtual_utxo_cache p.in_block_spent txs
  unfolding preflight
  preflight-spendable [] n p p' h g = let same : p' ≡ p = ground arith in (rw same at g, tt)
  preflight-spendable (tx ∷ txs) n p p' h g =
      let base = s.unspent_outputs in
      let (q, first, others) =
        >>=-eq-ok (preflight_tx c base height (suc n) tx p)
          (preflight c base height (suc (suc n)) txs) h in
      let (pass, inputs, _, q_eq) =
        preflight_spend-ok c height base tx p q (preflight_tx-suc c height base n tx p q first) in
      let (signed_q, later) = preflight-spendable txs (suc n) q p' others g in
      let begin : InputPass = record {
        spent = p.in_block_spent;
        tasks = p.signature_tasks;
        input_sum = 0;
      } in
      let (signed_p, gone, now) =
        preflight_inputs-spendable p.virtual_utxo_cache tx tx.inputs 0 begin pass inputs
          (subst Signed (ap (λ x. x.signature_tasks) q_eq) signed_q) in
      let spent_eq : q.in_block_spent ≡ seen p.in_block_spent tx.inputs =
        ap (λ x. x.in_block_spent) q_eq ∙ gone in
      (
        signed_p,
        (
          now,
          subst₂ (λ x y. AllSpendable x y txs) (ap (λ x. x.virtual_utxo_cache) q_eq) spent_eq later,
        ),
      )

  -- Every input of every transaction of an accepted block but the coinbase spends an output that
  -- is in the UTXO set of before the block or was made by an earlier transaction of the block, that
  -- no earlier input of the block spends, that is mature, and whose spending a signature task of the
  -- block allows.
  pub process_block-spendable :
      (first : Transaction) (rest : List Transaction) (s' : UtxoState) (log : UtxoUndoLog)
      → process_block c (first ∷ rest) height hist s ≡ (ok log, s')
      → AllSpendable (create_outputs (calculate_id c first) height true 0 first.outputs []) [] rest
  unfolding preflight
  process_block-spendable first rest s' log h =
      let base = s.unspent_outputs in
      let (checked, _) = process_block-ok c (first ∷ rest) height hist s s' log h in
      let (p, flight, _, all_signed) = check_block-ok c height first rest hist s checked in
      let (q, coinbase, others) =
        >>=-eq-ok (preflight_tx c base height 0 first new_preflight)
          (preflight c base height 1 rest) flight in
      let q_eq = preflight_tx-zero c height base first new_preflight q coinbase in
      let (_, spendable) = preflight-spendable rest 0 q p others all_signed in
      subst₂ (λ x y. AllSpendable x y rest) (ap (λ x. x.virtual_utxo_cache) q_eq)
        (ap (λ x. x.in_block_spent) q_eq) spendable
