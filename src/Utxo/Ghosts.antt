-- ===== src/Utxo/Ghosts.antt =====
-- src/utxo.rs: which transactions `ReconcileMempool` blacklists.
use quantum_btc.Prelude.{
  ℕ, suc, ◌≡◌, refl, Bool, false, not, ◌||◌, List, [], ◌∷◌, all, Hash, HashSet, arith, contains,
  contains_key, set_insert, contains-set_insert, nat_eq, if◌then◌else◌,
}
use quantum_btc.Transaction.{OutPoint, outpoint_eq, outpoint, TxIn, TxOut}
use quantum_btc.Utxo.Process.{Coins, new_outpoint, created_outpoints}
use quantum_btc.Utxo.Actor.{Pending, is_ghost, project_outputs, reconcile}

-- One of the transactions makes the output.
abbrev pub is_made : List Pending → OutPoint → Bool
is_made [] p = false
is_made (tx ∷ txs) p = contains p (created_outpoints tx.tx_id 0 tx.outputs) || is_made txs p

-- Each input is in the set or made by one of the transactions.
abbrev pub is_resolved : Coins → List Pending → List TxIn → Bool
is_resolved coins kept inputs =
    all (λ input. contains_key (outpoint input) coins || is_made kept (outpoint input)) inputs

-- The transactions left out when each one is kept whose inputs are resolved by the set and the kept
-- ones before it.
abbrev pub unresolved : Coins → List Pending → List Pending → List Hash
unresolved coins kept [] = []
unresolved coins kept (tx ∷ txs) =
    if is_resolved coins kept tx.inputs
    then unresolved coins (tx ∷ kept) txs
    else tx.tx_id ∷ unresolved coins kept txs

contains-project_outputs :
    (p : OutPoint) (id : Hash) (i : ℕ) (outputs : List TxOut) (sandbox : HashSet OutPoint)
    → contains p (project_outputs id i outputs sandbox)
      ≡ (contains p (created_outpoints id i outputs) || contains p sandbox)
unfolding project_outputs contains
contains-project_outputs p id i [] sandbox = refl
contains-project_outputs p id i (o ∷ outputs) sandbox = ground (
  arith,
  contains-project_outputs p id (suc i) outputs (set_insert (new_outpoint id i) sandbox),
  contains-set_insert (new_outpoint id i) p sandbox,
)

is_ghost-is_resolved :
    (coins : Coins) (sandbox : HashSet OutPoint) (kept : List Pending) (inputs : List TxIn)
    → ((p : OutPoint) → contains p sandbox ≡ is_made kept p)
    → is_ghost coins sandbox inputs ≡ not (is_resolved coins kept inputs)
unfolding is_ghost
is_ghost-is_resolved coins sandbox kept [] same = refl
is_ghost-is_resolved coins sandbox kept (input ∷ rest) same =
    ground (arith, is_ghost-is_resolved coins sandbox kept rest same, same (outpoint input))

reconcile-kept :
    (coins : Coins) (sandbox : HashSet OutPoint) (kept txs : List Pending)
    → ((p : OutPoint) → contains p sandbox ≡ is_made kept p)
    → reconcile coins sandbox txs ≡ unresolved coins kept txs
unfolding reconcile
reconcile-kept coins sandbox kept [] same = refl
reconcile-kept coins sandbox kept (tx ∷ txs) same = ground (
  arith,
  is_ghost-is_resolved coins sandbox kept tx.inputs same,
  reconcile-kept coins sandbox kept txs same,
  reconcile-kept coins (project_outputs tx.tx_id 0 tx.outputs sandbox) (tx ∷ kept) txs
      (λ p. ground (arith, contains-project_outputs p tx.tx_id 0 tx.outputs sandbox, same p)),
)

-- The blacklist holds, in order, the transactions that are left out when each one is kept whose
-- inputs are all in the set or made by kept transactions before it.
pub reconcile-unresolved :
    (coins : Coins) (txs : List Pending) → reconcile coins [] txs ≡ unresolved coins [] txs
unfolding contains
reconcile-unresolved coins txs = reconcile-kept coins [] [] txs (λ p. refl)
