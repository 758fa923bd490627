-- ===== src/Utxo/Data.antt =====
-- src/utxo.rs: the UTXO set, its undo logs, its errors and the sums of money.
use quantum_btc.Prelude.{
  ℕ, ◌+◌, ◌*◌, ◌%◌, Bool, Option, none, some, List, [], ◌∷◌, Hash, HashMap, HashSet, Result, ok,
  ◌>>=◌, ◌>>◌, fail_if, ok_or, leb, ltb, u64_mod, if◌then◌else◌,
}
use quantum_btc.Transaction.Data.{OutPoint, TxOut}

abbrev pub recovery_challenge_window : ℕ
recovery_challenge_window = 4320

abbrev pub max_money : ℕ
max_money = 21_000_000 * 100_000_000

pub record UtxoRecord : Type 0 where
  pub output : TxOut
  pub height : ℕ
  pub is_coinbase : Bool

pub record UtxoUndoLog : Type 0 where
  pub spent_utxos : List (OutPoint × UtxoRecord)
  pub newly_created_outpoints : List OutPoint

pub record UtxoState : Type 0 where
  pub unspent_outputs : HashMap OutPoint UtxoRecord
  pub verified_tx_cache : HashSet Hash

-- One constructor for each message.
pub data UtxoError : Type 0 where
  output_value_out_of_range output_total_out_of_range value_sum_out_of_range : UtxoError
  layer2_unsupported witness_count duplicate_inputs missing_utxo immature_coinbase : UtxoError
  missing_witness challenge_window invalid_reveal no_recovery outputs_exceed_inputs : UtxoError
  no_transactions bad_coinbase late_coinbase double_spend_in_block : UtxoError
  coinbase_too_large invalid_signature insufficient_funds : UtxoError

abbrev pub Outcome : Type 0 → Type 0
Outcome A = Result UtxoError A

-- `u64` addition as the release profile does it, without overflow checks.
abbrev pub add_u64 : ℕ → ℕ → ℕ
add_u64 a b = (a + b) % u64_mod

-- `a.checked_add(b).filter(|s| *s <= MAX_MONEY)`
abbrev pub bounded_add : ℕ → ℕ → Option ℕ
bounded_add a b =
    if ltb (a + b) u64_mod then (if leb (a + b) max_money then some (a + b) else none) else none

unfoldable pub checked_money_add : ℕ → ℕ → Outcome ℕ
checked_money_add total value = ok_or (bounded_add total value) value_sum_out_of_range

-- The loop of `checked_output_sum`, from a running total.
unfoldable pub output_sum_from : ℕ → List TxOut → Outcome ℕ
output_sum_from sum [] = ok sum
output_sum_from sum (o ∷ os) = do
  fail_if (ltb max_money o.value) output_value_out_of_range
  sum' ← ok_or (bounded_add sum o.value) output_total_out_of_range
  output_sum_from sum' os

unfoldable pub checked_output_sum : List TxOut → Outcome ℕ
unfolding output_sum_from
checked_output_sum outputs = output_sum_from 0 outputs

abbrev pub empty_state : UtxoState
empty_state = record { unspent_outputs = []; verified_tx_cache = [] }
