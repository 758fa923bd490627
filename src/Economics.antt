-- ===== src/Economics.antt =====
-- src/economics/mod.rs: the emission schedule.
pub mod Supply
use quantum_btc.Prelude.{ℕ, ◌*◌, ◌/◌, ◌^◌, leb, if◌then◌else◌}

abbrev pub initial_reward : ℕ
initial_reward = 50_0000_0000

abbrev pub halving_interval : ℕ
halving_interval = 210000

-- `INITIAL_REWARD >> halvings`
unfoldable pub get_block_reward : ℕ → ℕ
get_block_reward current_height =
    let halvings = current_height / halving_interval in
    if leb 64 halvings then 0 else initial_reward / 2 ^ halvings

abbrev pub max_supply : ℕ
max_supply = 21_000_000 * 100_000_000
