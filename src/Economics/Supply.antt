-- ===== src/Economics/Supply.antt =====
-- The subsidies of all blocks together, against the supply cap.
use native.Mathlib.Nat.{add_comm, suc-add, zero-add}
use quantum_btc.Prelude.{
  ℕ, zero, suc, ◌+◌, ◌*◌, ◌/◌, ◌%◌, ◌^◌, ◌≤◌, ◌≡◌, refl, ◌⊎◌, inl, inr, arith, leb, if◌then◌else◌,
}
use quantum_btc.Economics.{initial_reward, halving_interval, get_block_reward, max_supply}

-- The subsidies of the blocks below height `n`.
unfoldable pub issued : ℕ → ℕ
issued zero = 0
issued (suc n) = issued n + get_block_reward n

pub issued-suc : (n : ℕ) → issued (suc n) ≡ issued n + get_block_reward n
unfolding issued
issued-suc n = refl

-- The subsidy in the `k`-th halving period.
era_reward : ℕ → ℕ
era_reward k = if leb 64 k then 0 else initial_reward / 2 ^ k

-- The subsidies of the first `k` halving periods.
eras : ℕ → ℕ
eras zero = 0
eras (suc k) = eras k + halving_interval * era_reward k

get_block_reward-era : (n : ℕ) → get_block_reward n ≡ era_reward (n / halving_interval)
unfolding get_block_reward era_reward
get_block_reward-era n = refl

next_era :
    (n : ℕ)
    → ((suc n / 210000 ≡ n / 210000) × (suc n % 210000 ≡ suc (n % 210000)))
      ⊎ ((suc n / 210000 ≡ suc (n / 210000)) × (suc n % 210000 ≡ 0) × (n % 210000 ≡ 209999))
next_era n = omega arith

issued-closed : (n : ℕ) → issued n ≡ eras (n / 210000) + n % 210000 * era_reward (n / 210000)
unfolding issued eras era_reward
issued-closed zero = refl
issued-closed (suc n) = elim (next_era n) [
  | inl (same, step) ↦ rw (same, step) (omega (arith, issued-closed n, get_block_reward-era n))
  | inr (up, start, full) ↦
      rw (up, start) (omega (arith, rw full at (issued-closed n), get_block_reward-era n))
]

eras-le : (k j : ℕ) → eras k ≤ eras (j + k)
unfolding eras
eras-le k zero = rw zero-add (omega arith)
eras-le k (suc j) = rw suc-add (omega (arith, eras-le k j))

era_reward-late : (j : ℕ) → era_reward (j + 64) ≡ 0
unfolding era_reward
era_reward-late j = ground arith

eras-suc : (k : ℕ) → eras (suc k) ≡ eras k + 210000 * era_reward k
unfolding eras
eras-suc k = refl

-- After 64 halvings nothing is issued.
eras-last : (j : ℕ) → eras (j + 64) ≡ eras 64
eras-last zero = refl
eras-last (suc j) = rw suc-add (omega (arith, eras-suc (j + 64), eras-last j, era_reward-late j))

eras-bound : (k : ℕ) → eras k ≤ 2099999997690000
unfolding eras era_reward
eras-bound k = omega (arith, eras-le k 64, rw (add_comm k 64) at (eras-last k))

part_of_era : (r e : ℕ) → r ≤ 210000 → r * e ≤ 210000 * e
part_of_era r e h = grind arith

-- The subsidies of all blocks below any height are at most 21,000,000 coins.
pub issued-le-max_supply : (n : ℕ) → issued n ≤ max_supply
unfolding eras
issued-le-max_supply n = omega (
  arith,
  issued-closed n,
  eras-bound (suc (n / 210000)),
  part_of_era (n % 210000) (era_reward (n / 210000)) (omega arith),
)
