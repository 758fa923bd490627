-- ===== src/Storage/Marked.antt =====
-- src/storage.rs: blocks that are marked as having their data, `has_data`, with their whole ancestry.
use quantum_btc.Prelude.{
  ℕ, suc, ◌<◌, ◌≤◌, true, false, some, length, Hash, lookup, remove, lookup-remove,
  length-remove_found, nat_eq, ◌==◌, ◌≡◌, refl, ap, arith, Bool-cases, inl, inr,
}
use quantum_btc.Block.{BlockIndex}
use quantum_btc.Storage.Boot.{Indices}

module _ (map_index : Indices) where
  -- The index marks the block as having its data, and each of so many ancestors, the last of which has
  -- no parent.
  pub data IsMarkedAt : Hash → ℕ → Type 0 where
    root :
        {h : Hash} (i : BlockIndex)
        → lookup h map_index ≡ some i
        → i.has_data ≡ true
        → (i.header.previous_hash == 0) ≡ true
        → IsMarkedAt h 0
    child :
        {h : Hash} {n : ℕ} (i : BlockIndex)
        → lookup h map_index ≡ some i
        → i.has_data ≡ true
        → (i.header.previous_hash == 0) ≡ false
        → IsMarkedAt i.header.previous_hash n
        → IsMarkedAt h (suc n)

  abbrev pub IsMarked : Hash → Type 0
  IsMarked h = (n : ℕ) × IsMarkedAt h n

  pub IsMarkedAt-unique : {h : Hash} {m n : ℕ} → IsMarkedAt h m → IsMarkedAt h n → m ≡ n
  IsMarkedAt-unique (root i hi di ri) (root j hj dj rj) = ground arith
  IsMarkedAt-unique (root i hi di ri) (child j hj dj rj later) = absurd (ground arith)
  IsMarkedAt-unique (child i hi di ri later) (root j hj dj rj) = absurd (ground arith)
  IsMarkedAt-unique (child i hi di ri later) (child j hj dj rj later') =
      let same : i ≡ j = ground arith in ap suc (IsMarkedAt-unique (rw same at later) later')

  pub IsMarkedAt-found :
      {h : Hash} {n : ℕ}
      → IsMarkedAt h n
      → (i : BlockIndex) × (lookup h map_index ≡ some i) × (i.has_data ≡ true)
  IsMarkedAt-found (root i hi di ri) = (i, hi, di)
  IsMarkedAt-found (child i hi di ri later) = (i, hi, di)

  IsMarkedAt-smaller :
      {h : Hash} {n : ℕ} (entries : Indices)
      → IsMarkedAt h n
      → lookup h entries ≡ lookup h map_index
      → suc (length (remove h entries)) ≤ length entries
  IsMarkedAt-smaller {h} entries x same =
      let (i, found, _) = IsMarkedAt-found x in
      length-remove_found h entries (rw (same, found) refl)

  -- The ancestors have different depths, so a map that holds them all has more entries than depths.
  depth-below :
      (h : Hash) (n : ℕ)
      → IsMarkedAt h n
      → (entries : Indices)
      → ((k : Hash) (j : ℕ) → IsMarkedAt k j → j ≤ n → lookup k entries ≡ lookup k map_index)
      → n < length entries
  depth-below h _ (root i hi di ri) entries holds =
      let x : IsMarkedAt h 0 = root i hi di ri in
      omega (arith, IsMarkedAt-smaller entries x (holds h 0 x (omega arith)))
  depth-below h _ (child {n = n} i hi di ri later) entries holds =
      let x : IsMarkedAt h (suc n) = child i hi di ri later in
      let rest = depth-below i.header.previous_hash n later (remove h entries) (λ k j y le.
        rw (lookup-remove h k entries) (elim (Bool-cases (h == k)) [
          | inl same ↦
              let one : h ≡ k = ground arith in
              absurd (omega (arith, IsMarkedAt-unique x (rw (← one) at y)))
          | inr other ↦ rw other (holds k j y (omega arith))
        ])) in
      omega (arith, rest, IsMarkedAt-smaller entries x (holds h (suc n) x (omega arith)))

  pub IsMarkedAt-depth : {h : Hash} {n : ℕ} → IsMarkedAt h n → n < length map_index
  IsMarkedAt-depth {h} {n} x = depth-below h n x map_index (λ k j y le. refl)
