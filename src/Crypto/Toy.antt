-- ===== src/Crypto/Toy.antt =====
-- Concrete primitives for runs: the digest writes the bytes down as one number.
use quantum_btc.Prelude.{ℕ, ◌+◌, ◌*◌, Option, none, some, List, [], ◌∷◌, ◌++◌, Hash, ◌==◌}
use quantum_btc.Crypto.Primitives.{Primitives}
use quantum_btc.Transaction.Data.{TxIn, TxOut, TxWitness}

abbrev pub digest : List ℕ → Hash
digest [] = 1
digest (b ∷ bs) = b + 1_000_000 * digest bs

abbrev pub encode_inputs : List TxIn → List ℕ
encode_inputs [] = []
encode_inputs (i ∷ is) = i.previous_output_hash ∷ i.vout ∷ encode_inputs is

abbrev pub encode_outputs : List TxOut → List ℕ
encode_outputs [] = []
encode_outputs (o ∷ os) = o.value ∷ o.public_key_hash ∷ encode_outputs os

abbrev pub encode_witnesses : List TxWitness → List ℕ
encode_witnesses [] = []
encode_witnesses (w ∷ ws) = w.signature ++ w.public_key ++ encode_witnesses ws

abbrev pub only : List ℕ → Option ℕ
only (k ∷ []) = some k
only _ = none

-- A signature is valid if it repeats the key.
abbrev pub toy : Primitives
toy = record {
  sha256 = digest;
  serialize_core = λ is os. encode_inputs is ++ 77 ∷ encode_outputs os;
  serialize = λ tx.
      encode_inputs tx.inputs
      ++ 77 ∷ encode_outputs tx.outputs
      ++ 78 ∷ encode_witnesses tx.witnesses;
  serialized_size = λ tx. some 100;
  VerifyingKey = ℕ;
  Signature = ℕ;
  from_public_key_der = only;
  signature_try_from = only;
  verify = λ key _ sig. key == sig;
}
