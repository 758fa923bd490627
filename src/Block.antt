-- ===== src/Block.antt =====
-- src/block.rs: headers, blocks, their hashes, weights and sizes, and the construction of a block.
-- `SystemTime::now()` is the argument `now`.
use quantum_btc.Prelude.{
  ℕ, ◌+◌, ◌-◌, ◌*◌, ◌/◌, ◌^◌, Bool, none, List, [], ◌∷◌, ◌++◌, Hash, HashSet, contains, set_insert,
  nat_eq, map, u64_mod, ◌==◌, if◌then◌else◌,
}
use quantum_btc.Crypto.Bytes.{to_be_bytes, hash_bytes}
use quantum_btc.Crypto.Primitives.{Primitives}
use quantum_btc.Crypto.Merkle.{build_merkle_root}
use quantum_btc.Transaction.{
  Transaction, calculate_id, calculate_witness_hash, get_weight, get_sigops_count,
  get_physical_size,
}

pub record BlockHeader : Type 0 where
  pub timestamp : ℕ
  pub previous_hash : Hash
  pub merkle_root : Hash
  pub commit_merkle_root : Hash
  pub nonce : ℕ
  pub target : ℕ

pub record Block : Type 0 where
  pub header : BlockHeader
  pub transactions : List Transaction

pub record BlockIndex : Type 0 where
  pub block_hash : Hash
  pub header : BlockHeader
  pub height : ℕ
  pub chain_work : ℕ
  pub has_data : Bool

-- `u64::MAX / target`
unfoldable pub get_block_proof : BlockHeader → ℕ
get_block_proof h = if h.target == 0 then 0 else (u64_mod - 1) / h.target

abbrev sum : List ℕ → ℕ
sum [] = 0
sum (n ∷ ns) = n + sum ns

abbrev pub get_block_sigops : Block → ℕ
get_block_sigops b = sum (map get_sigops_count b.transactions)

-- The 120 bytes that are hashed.
unfoldable pub header_bytes : BlockHeader → List ℕ
header_bytes h =
    to_be_bytes 8 h.timestamp
    ++ hash_bytes h.previous_hash
    ++ hash_bytes h.merkle_root
    ++ hash_bytes h.commit_merkle_root
    ++ to_be_bytes 8 h.nonce
    ++ to_be_bytes 8 h.target

module _ (c : Primitives) where
  unfoldable pub get_block_weight : Block → ℕ
  get_block_weight b = 120 * 4 + sum (map (get_weight c) b.transactions)

  unfoldable pub get_block_physical_size : Block → ℕ
  get_block_physical_size b = 120 + sum (map (get_physical_size c) b.transactions)

  unfoldable pub calculate_hash : Block → Hash
  unfolding header_bytes
  calculate_hash b = c.sha256 (header_bytes b.header)

  -- `filter(|tx| seen.insert(tx.calculate_id()))`
  unfoldable pub drop_repeats : HashSet Hash → List Transaction → List Transaction
  drop_repeats seen [] = []
  drop_repeats seen (tx ∷ txs) =
      let id = calculate_id c tx in
      if contains id seen then drop_repeats seen txs else tx ∷ drop_repeats (set_insert id seen) txs

  abbrev pub with_roots : ℕ → Hash → List Transaction → ℕ → ℕ → Block
  with_roots now previous_hash transactions target nonce = record {
    header = record {
      timestamp = now;
      previous_hash = previous_hash;
      merkle_root = build_merkle_root c (map (calculate_id c) transactions);
      commit_merkle_root = build_merkle_root c (map (calculate_witness_hash c) transactions);
      nonce = nonce;
      target = target;
    };
    transactions = transactions;
  }

  -- `Block::new`
  unfoldable pub new_block : ℕ → Hash → List Transaction → ℕ → ℕ → Block
  unfolding drop_repeats
  new_block now previous_hash transactions target nonce =
      with_roots now previous_hash (drop_repeats [] transactions) target nonce

  -- `motto` and `founder_address` are the two byte strings of the source.
  abbrev pub genesis_tx : List ℕ → List ℕ → Transaction
  genesis_tx motto founder_address = record {
    inputs = record { previous_output_hash = 0; vout = 4294967295 } ∷ [];
    outputs = record { value = 50_0000_0000; public_key_hash = 0; recovery = none } ∷ [];
    witnesses = record { signature = motto; public_key = founder_address } ∷ [];
  }

  pub genesis : List ℕ → List ℕ → Block
  genesis motto founder_address =
      with_roots 1778976000 0 (genesis_tx motto founder_address ∷ []) 1099511627775 6759977

-- A little-endian number of bytes.
abbrev from_le_bytes : List ℕ → ℕ
from_le_bytes [] = 0
from_le_bytes (b ∷ bs) = b + 256 * from_le_bytes bs

abbrev first_8 : Hash → ℕ
first_8 h = h / 256 ^ 24

-- The first 8 bytes of the digest, read as a little-endian number.
pub calculate_short_id : Primitives → Hash → ℕ → ℕ
calculate_short_id c tx_hash nonce =
    from_le_bytes (to_be_bytes 8 (first_8 (c.sha256 (hash_bytes tx_hash ++ to_be_bytes 8 nonce))))
