-- ===== src/Transaction.antt =====
-- src/transaction.rs: identifiers, sizes and witnesses of transactions.
pub mod Data
pub use Data.*
use quantum_btc.Prelude.{
  ℕ, ◌+◌, ◌*◌, Bool, false, not, ◌&&◌, none, some, List, length, is_empty, get_elem?, Hash, ◌==◌,
}
use quantum_btc.Crypto.Primitives.{Primitives}
use quantum_btc.Crypto.MlDsa.{verify_signature}

module _ (c : Primitives) where
  -- The identifier leaves the witnesses out.
  unfoldable pub calculate_id : Transaction → Hash
  calculate_id tx = c.sha256 (c.serialize_core tx.inputs tx.outputs)

  unfoldable pub calculate_witness_hash : Transaction → Hash
  calculate_witness_hash tx = c.sha256 (c.serialize tx)

  unfoldable pub get_physical_size : Transaction → ℕ
  get_physical_size tx = elim (c.serialized_size tx) [ none ↦ 0 | some n ↦ n ]

  unfoldable pub get_weight : Transaction → ℕ
  unfolding get_physical_size
  get_weight tx = (length tx.inputs * 41 + length tx.outputs * 40) * 3 + get_physical_size tx

  -- `message_hash` is given as bytes.
  unfoldable pub verify_witness : Transaction → ℕ → List ℕ → Bool
  verify_witness tx input_idx message_hash = elim (get_elem? tx.witnesses input_idx) [
    | none ↦ false
    | some witness ↦ verify_signature c message_hash witness.signature witness.public_key
  ]

abbrev pub get_sigops_count : Transaction → ℕ
get_sigops_count tx = length tx.inputs

abbrev pub is_well_formed : Transaction → Bool
is_well_formed tx = not (is_empty tx.inputs) && (length tx.inputs == length tx.witnesses)
