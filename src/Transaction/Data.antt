-- ===== src/Transaction/Data.antt =====
-- src/transaction.rs: the data of a transaction.
use quantum_btc.Prelude.{ℕ, ◌≡◌, ◌↔◌, Bool, true, ◌&&◌, Option, List, Hash, Eq, ◌==◌, arith}

-- The output `vout` of the transaction `tx_hash`.
pub record OutPoint : Type 0 where
  pub tx_hash : Hash
  pub vout : ℕ

abbrev pub same_outpoint : OutPoint → OutPoint → Bool
same_outpoint a b = (a.tx_hash == b.tx_hash) && (a.vout == b.vout)

pub same_outpoint_iff : (a b : OutPoint) → (same_outpoint a b ≡ true) ↔ (a ≡ b)
same_outpoint_iff a b = ground arith

instance abbrev pub outpoint_eq : Eq OutPoint
outpoint_eq = record { beq = same_outpoint; beq_iff = same_outpoint_iff }

pub record TxWitness : Type 0 where
  pub signature : List ℕ
  pub public_key : List ℕ

pub record TxIn : Type 0 where
  pub previous_output_hash : Hash
  pub vout : ℕ

pub record RecoveryInfo : Type 0 where
  pub recovery_hash : Hash
  pub recovery_delay : ℕ

pub record TxOut : Type 0 where
  pub value : ℕ
  pub public_key_hash : Hash
  pub recovery : Option RecoveryInfo

pub record Transaction : Type 0 where
  pub inputs : List TxIn
  pub outputs : List TxOut
  pub witnesses : List TxWitness

-- The coordinates of the output that an input spends.
abbrev pub outpoint : TxIn → OutPoint
outpoint input = record { tx_hash = input.previous_output_hash; vout = input.vout }
