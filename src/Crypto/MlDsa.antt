-- ===== src/Crypto/MlDsa.antt =====
-- src/crypto/ml_dsa.rs: the check of a signature. Malformed keys and signatures are refused.
use quantum_btc.Prelude.{ℕ, Bool, false, none, some, List}
use quantum_btc.Crypto.Primitives.{Primitives}

unfoldable pub verify_signature : (c : Primitives) → List ℕ → List ℕ → List ℕ → Bool
verify_signature c message signature public_key = elim (c.from_public_key_der public_key) [
  | none ↦ false
  | some pk ↦ elim (c.signature_try_from signature) [
    | none ↦ false
    | some sig ↦ c.verify pk message sig
  ]
]
