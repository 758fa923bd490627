-- ===== src/Storage/BestTip.antt =====
-- src/storage.rs: the tip that `QuantumStorage::new` chooses.
use quantum_btc.Prelude.{
  ℕ, ◌<◌, ◌≤◌, Bool, true, none, some, List, [], ◌∷◌, Hash, HashMap, lookup, contains, nat_eq, ◌==◌,
  ◌≡◌, ◌⊎◌, refl, arith, Bool-cases, Option-cases, inl, inr, ltb, ◌&&◌,
}
use quantum_btc.Block.{BlockIndex}
use quantum_btc.Storage.Boot.{Indices, or_false, better, best_tip}
use quantum_btc.Storage.Marked.{IsMarked}
use quantum_btc.Storage.Judged.{Agrees}

module _ (map_index : Indices) where
  -- The chosen tip: none without work, and else a marked block with its work; no marked block among
  -- those looked at has more.
  pub record IsBestOf (seen : Hash → Type 0) (best : Hash × ℕ) : Type 0 where
    pub chosen :
        0 < best.1
        → IsMarked map_index best.0
          × ((i : BlockIndex) × (lookup best.0 map_index ≡ some i) × (i.chain_work ≡ best.1))
    pub highest :
        (h : Hash) (i : BlockIndex)
        → seen h
        → lookup h map_index ≡ some i
        → IsMarked map_index h
        → i.chain_work ≤ best.1

  module _ (fully_stored : HashMap Hash Bool)
      (ok : (h : Hash) (i : BlockIndex)
        → lookup h map_index ≡ some i
        → Agrees map_index (or_false (lookup h fully_stored)) h) where
    best_tip-none :
        (h : Hash) (hs : List Hash) (best : Hash × ℕ)
        → lookup h map_index ≡ none
        → best_tip map_index fully_stored (h ∷ hs) best ≡ best_tip map_index fully_stored hs best
    unfolding best_tip
    best_tip-none h hs best missing = ground arith

    best_tip-some :
        (h : Hash) (hs : List Hash) (best : Hash × ℕ) (i : BlockIndex)
        → lookup h map_index ≡ some i
        → best_tip map_index fully_stored (h ∷ hs) best
          ≡ best_tip map_index fully_stored hs (better map_index fully_stored h i best)
    unfolding best_tip
    best_tip-some h hs best i found = ground arith

    better-IsBestOf :
        (seen : Hash → Type 0) (h : Hash) (i : BlockIndex) (best : Hash × ℕ)
        → lookup h map_index ≡ some i
        → IsBestOf seen best
        → IsBestOf (λ k. (k ≡ h) ⊎ seen k) (better map_index fully_stored h i best)
    better-IsBestOf seen h i best found x =
        elim (Bool-cases (ltb best.1 i.chain_work && or_false (lookup h fully_stored))) [
          | inl wins ↦ rw wins (record {
            chosen = λ some_work. ((ok h i found).0 (ground arith), (i, found, refl));
            highest = λ k j is_seen held stored. elim is_seen [
              | inl same ↦ ground (arith, rw same at held)
              | inr before ↦ ground (arith, x.highest k j before held stored)
            ];
          })
          | inr loses ↦ rw loses (record {
            chosen = x.chosen;
            highest = λ k j is_seen held stored. elim is_seen [
              | inl same ↦ ground (arith, rw same at held, (ok h i found).1 (rw same at stored))
              | inr before ↦ x.highest k j before held stored
            ];
          })
        ]

    best_tip-empty : (best : Hash × ℕ) → best_tip map_index fully_stored [] best ≡ best
    unfolding best_tip
    best_tip-empty best = refl

    IsBestOf-seen :
        (seen wider : Hash → Type 0) (best : Hash × ℕ)
        → ((h : Hash) (i : BlockIndex) → lookup h map_index ≡ some i → wider h → seen h)
        → IsBestOf seen best
        → IsBestOf wider best
    IsBestOf-seen seen wider best narrow x = record {
      chosen = x.chosen;
      highest = λ h i is_seen held stored. x.highest h i (narrow h i held is_seen) held stored;
    }

    pub best_tip-IsBestOf :
        (hs : List Hash) (seen : Hash → Type 0) (best : Hash × ℕ)
        → IsBestOf seen best
        → IsBestOf (λ k. (contains k hs ≡ true) ⊎ seen k) (best_tip map_index fully_stored hs best)
    unfolding contains
    best_tip-IsBestOf [] seen best x = rw (best_tip-empty best) (
        IsBestOf-seen seen _ best
          (λ h i held is_seen. elim is_seen [
            | inl has ↦ absurd (ground arith)
            | inr before ↦ before
          ])
          x)
    best_tip-IsBestOf (h ∷ hs) seen best x = elim (Option-cases (lookup h map_index)) [
      | inl missing ↦ rw (best_tip-none h hs best missing) (
          IsBestOf-seen _ _ _
            (λ k i held is_seen. elim is_seen [
              | inr before ↦ inr before
              | inl has ↦ elim (Bool-cases (h == k)) [
                | inl same ↦
                    let one : h ≡ k = ground arith in absurd (ground (arith, rw one at missing))
                | inr other ↦ inl (ground arith)
              ]
            ])
            (best_tip-IsBestOf hs seen best x))
      | inr (i, found) ↦ rw (best_tip-some h hs best i found) (
          IsBestOf-seen _ _ _
            (λ k j held is_seen. elim is_seen [
              | inr before ↦ inr (inr before)
              | inl has ↦ elim (Bool-cases (h == k)) [
                | inl same ↦ inr (inl (ground arith))
                | inr other ↦ inl (ground arith)
              ]
            ])
            (best_tip-IsBestOf hs (λ k. (k ≡ h) ⊎ seen k) (better map_index fully_stored h i best)
              (better-IsBestOf seen h i best found x)))
    ]
