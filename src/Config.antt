-- ===== src/Config.antt =====
-- src/config.rs: the consensus and policy parameters.
use quantum_btc.Prelude.{ℕ, ◌*◌}

abbrev pub max_block_weight : ℕ
max_block_weight = 32_000_000

abbrev pub max_block_size_bytes : ℕ
max_block_size_bytes = 8 * 1024 * 1024

abbrev pub block_template_reserve_bytes : ℕ
block_template_reserve_bytes = 64 * 1024

abbrev pub max_template_block_bytes : ℕ
max_template_block_bytes = 4_500_000

abbrev pub witness_commitment_activation_height : ℕ
witness_commitment_activation_height = 25_000

abbrev pub max_block_sigops : ℕ
max_block_sigops = 80_000

abbrev pub min_relay_fee_rate : ℕ
min_relay_fee_rate = 5

abbrev pub coinbase_maturity : ℕ
coinbase_maturity = 100

abbrev pub consensus_hardfork_v2_height : ℕ
consensus_hardfork_v2_height = 21_500
