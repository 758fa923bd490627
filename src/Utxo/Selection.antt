-- ===== src/Utxo/Selection.antt =====
-- src/utxo.rs: the sorting and the gathering of coins.
use quantum_btc.Prelude.{
  ℕ, ◌+◌, ◌≤◌, ◌<◌, ◌≡◌, ◌⊎◌, inr, refl, [], ◌∷◌, ◌++◌, All, arith, nat_eq, u64_mod,
}
use quantum_btc.Transaction.{OutPoint, outpoint_eq}
use quantum_btc.Utxo.Data.{UtxoRecord, add_u64}
use quantum_btc.Utxo.Process.{Coins}
use quantum_btc.Utxo.Total.{total}
use quantum_btc.Utxo.Wallet.{insert_by_value, sort_by_value, gather}

total-append : (xs ys : Coins) → total (xs ++ ys) ≡ total xs + total ys
total-append [] ys = omega arith
total-append (_ ∷ xs) ys = omega (arith, total-append xs ys)

total-insert_by_value :
    (a : OutPoint × UtxoRecord) (coins : Coins)
    → total (insert_by_value a coins) ≡ total (a ∷ coins)
unfolding insert_by_value
total-insert_by_value a [] = refl
total-insert_by_value a (b ∷ coins) = ground (arith, total-insert_by_value a coins)

pub total-sort_by_value : (coins : Coins) → total (sort_by_value coins) ≡ total coins
unfolding sort_by_value
total-sort_by_value [] = refl
total-sort_by_value (a ∷ coins) =
    omega (arith, total-insert_by_value a (sort_by_value coins), total-sort_by_value coins)

module _ (P : OutPoint × UtxoRecord → Type 0) where
  All-insert_by_value :
      (a : OutPoint × UtxoRecord) (coins : Coins)
      → P a
      → All P coins
      → All P (insert_by_value a coins)
  unfolding insert_by_value
  All-insert_by_value a [] pa ps = (pa, tt)
  All-insert_by_value a (b ∷ coins) pa ps = ground (arith, All-insert_by_value a coins pa ps.1)

  pub All-sort_by_value : (coins : Coins) → All P coins → All P (sort_by_value coins)
  unfolding sort_by_value
  All-sort_by_value [] ps = tt
  All-sort_by_value (a ∷ coins) ps =
      All-insert_by_value a (sort_by_value coins) ps.0 (All-sort_by_value coins ps.1)

  All-append : (xs ys : Coins) → All P xs → All P ys → All P (xs ++ ys)
  All-append [] ys px py = py
  All-append (x ∷ xs) ys px py = (px.0, All-append xs ys px.1 py)

  pub All-gather :
      (required : ℕ) (coins : Coins) (g : ℕ) (selected : Coins)
      → All P coins
      → All P selected
      → All P (gather required coins (g, selected)).1
  unfolding gather
  All-gather required [] g selected ps qs = qs
  All-gather required ((p, r) ∷ coins) g selected ps qs =
      let qs' = All-append selected ((p, r) ∷ []) qs (ps.0, tt) in
      ground (
        arith,
        qs',
        All-gather required coins (add_u64 g r.output.value) (selected ++ (p, r) ∷ []) ps.1 qs',
      )

pub gather-total :
    (required : ℕ) (coins : Coins) (g : ℕ) (selected : Coins)
    → g ≡ total selected
    → g + total coins < u64_mod
    → let (g', selected') = gather required coins (g, selected) in
      (g' ≡ total selected') × ((required ≤ g') ⊎ (g' ≡ g + total coins))
unfolding gather
gather-total required [] g selected e fits = (e, inr (omega arith))
gather-total required ((p, r) ∷ coins) g selected e fits =
    let sum : add_u64 g r.output.value ≡ g + r.output.value = omega arith in
    let more =
      gather-total required coins (g + r.output.value) (selected ++ (p, r) ∷ [])
        (omega (arith, total-append selected ((p, r) ∷ []))) (omega arith) in
    ground (arith, sum, more, total-append selected ((p, r) ∷ []))

pub gather-le :
    (required : ℕ) (coins : Coins) (g : ℕ) (selected : Coins)
    → (gather required coins (g, selected)).0 ≤ g + total coins
unfolding gather
gather-le required [] g selected = omega arith
gather-le required ((p, r) ∷ coins) g selected =
    ground (arith, gather-le required coins (add_u64 g r.output.value) (selected ++ (p, r) ∷ []))
