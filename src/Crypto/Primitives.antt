-- ===== src/Crypto/Primitives.antt =====
-- What the node takes from other packages: SHA-256, the `bincode` encoding and ML-DSA-65.
use quantum_btc.Prelude.{ℕ, Bool, Option, List, Hash}
use quantum_btc.Transaction.Data.{TxIn, TxOut, Transaction}

pub record Primitives : Type 1 where
  -- `Sha256::digest`, on bytes.
  pub sha256 : List ℕ → Hash
  -- `bincode::serialize(&(&inputs, &outputs))` and `bincode::serialize(&tx)`.
  pub serialize_core : List TxIn → List TxOut → List ℕ
  pub serialize : Transaction → List ℕ
  -- `bincode::serialized_size(&tx)`, which may fail.
  pub serialized_size : Transaction → Option ℕ
  -- ML-DSA-65: decoding of a DER public key and of a signature, and the check of a message.
  pub VerifyingKey : Type 0
  pub Signature : Type 0
  pub from_public_key_der : List ℕ → Option VerifyingKey
  pub signature_try_from : List ℕ → Option Signature
  pub verify : VerifyingKey → List ℕ → Signature → Bool
