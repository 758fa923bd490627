-- ===== src/Utxo/Chain.antt =====
-- src/utxo.rs and src/economics/mod.rs: the money of a whole chain of blocks.
use quantum_btc.Prelude.{ℕ, suc, ◌≤◌, ◌≡◌, Bool, List, ◌∷◌, ok, arith}
use quantum_btc.Economics.{max_supply}
use quantum_btc.Economics.Supply.{issued, issued-suc, issued-le-max_supply}
use quantum_btc.Crypto.Primitives.{Primitives}
use quantum_btc.Transaction.{Transaction}
use quantum_btc.Utxo.Data.{UtxoState, UtxoUndoLog, empty_state}
use quantum_btc.Utxo.Process.{process_block}
use quantum_btc.Utxo.Total.{total, IsMap}
use quantum_btc.Utxo.Supply.{IsWellNumbered, IsNew, process_block-moves}

module _ (c : Primitives) where
  -- The UTXO set after the blocks of the heights below `h`, each accepted by `process_block`. Their
  -- identifiers are new, as those of a collision-free hash are for coinbases that differ.
  pub data Chain : ℕ → UtxoState → Type 0 where
    genesis : Chain 0 empty_state
    connect :
        {h : ℕ} {s s' : UtxoState} {log : UtxoUndoLog} (first : Transaction)
        (rest : List Transaction) (hist : Bool)
        → Chain h s
        → process_block c (first ∷ rest) h hist s ≡ (ok log, s')
        → IsWellNumbered c (first ∷ rest)
        → IsNew c s.unspent_outputs (first ∷ rest)
        → Chain (suc h) s'

  Chain-issued :
      {h : ℕ} {s : UtxoState}
      → Chain h s
      → IsMap s.unspent_outputs × (total s.unspent_outputs ≤ issued h)
  Chain-issued genesis = (tt, omega arith)
  Chain-issued {h = suc h}
        (connect {s = s} {s' = s'} {log = log} first rest hist chain accepted w f) =
      let (m, below) = Chain-issued chain in
      let (p, _, moved, bound, m') =
        process_block-moves c h first rest hist s s' log accepted m w f in
      (m', omega (arith, issued-suc h))

  -- After any chain of accepted blocks from the empty set, each at the next height and making only
  -- outputs that the set before it does not hold, the outputs of the set are worth at most the
  -- subsidies of those blocks together, and so at most 21,000,000 coins.
  pub Chain-total :
      {h : ℕ} {s : UtxoState}
      → Chain h s
      → (total s.unspent_outputs ≤ issued h) × (total s.unspent_outputs ≤ max_supply)
  Chain-total {h} chain =
      ((Chain-issued chain).1, omega (arith, (Chain-issued chain).1, issued-le-max_supply h))
