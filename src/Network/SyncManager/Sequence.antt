-- ===== src/Network/SyncManager/Sequence.antt =====
-- src/network/sync_manager.rs: the blocks received so far, the height and the pool of orphans.
use quantum_btc.Prelude.{
  ℕ, zero, suc, ◌+◌, ◌≤◌, ◌<◌, ◌≡◌, refl, ap, true, false, ◌∷◌, length, arith, HashSet, insert,
  remove, contains_key, contains, length-remove_found, lookup-empty, nat_eq, u64_mod, lookup-insert,
  lookup-remove, Bool-cases, inl, inr, ◌⊎◌, is_some,
}
use quantum_btc.Network.SyncManager.{SyncManager, resolve, process_incoming_block}

-- No height is the last of `u64`.
abbrev pub Small : HashSet ℕ → Type 0
Small received = (h : ℕ) → contains h received ≡ true → h + 1 < u64_mod

order : (h c : ℕ) → (h ≤ c) ⊎ ((h ≡ c + 1) ⊎ (c + 1 < h))
order h c = omega arith

module _ {Data : Type 0} (start : ℕ) where
  -- The blocks above `start` up to the current height have been received, and the pool holds exactly
  -- the received ones above it.
  pub record IsTracked (received : HashSet ℕ) (m : SyncManager Data) : Type 0 where
    pub at_least : start ≤ m.current_height
    pub below : (h : ℕ) → start < h → h ≤ m.current_height → contains h received ≡ true
    pub pooled :
        (h : ℕ)
        → contains_key h m.orphan_pool ≡ true
        → (contains h received ≡ true) × (m.current_height < h)
    pub kept :
        (h : ℕ)
        → contains h received ≡ true
        → m.current_height < h
        → contains_key h m.orphan_pool ≡ true

  step-IsTracked :
      (received : HashSet ℕ) (m : SyncManager Data)
      → IsTracked received m
      → contains_key (m.current_height + 1) m.orphan_pool ≡ true
      → IsTracked received (record {
        current_height = m.current_height + 1;
        orphan_pool = remove (m.current_height + 1) m.orphan_pool;
      })
  step-IsTracked received m t found = record {
    at_least = omega (arith, t.at_least);
    below = λ h. grind (arith, t.below h, t.pooled h);
    pooled = λ h. grind (arith, t.pooled h, lookup-remove (m.current_height + 1) h m.orphan_pool);
    kept = λ h. grind (arith, t.kept h, lookup-remove (m.current_height + 1) h m.orphan_pool);
  }

  current_fits :
      (received : HashSet ℕ) (m : SyncManager Data)
      → start + 1 < u64_mod
      → Small received
      → IsTracked received m
      → m.current_height + 1 < u64_mod
  current_fits received m fits small t =
      grind (arith, t.at_least, t.below m.current_height, small m.current_height)

  resolve-missing :
      (n : ℕ) (m : SyncManager Data)
      → m.current_height + 1 < u64_mod
      → contains_key (m.current_height + 1) m.orphan_pool ≡ false
      → resolve n m ≡ m
  unfolding resolve
  resolve-missing zero m fits missing = refl
  resolve-missing (suc n) m fits missing = ground arith

  resolve-found :
      (n : ℕ) (m : SyncManager Data)
      → m.current_height + 1 < u64_mod
      → contains_key (m.current_height + 1) m.orphan_pool ≡ true
      → resolve (suc n) m
        ≡ resolve n (record {
          current_height = m.current_height + 1;
          orphan_pool = remove (m.current_height + 1) m.orphan_pool;
        })
  unfolding resolve
  resolve-found n m fits found = ground arith

  abbrev pub Settled : HashSet ℕ → SyncManager Data → Type 0
  Settled received m =
      IsTracked received m × (contains_key (m.current_height + 1) m.orphan_pool ≡ false)

  resolve-Settled :
      (n : ℕ) (received : HashSet ℕ) (m : SyncManager Data)
      → start + 1 < u64_mod
      → Small received
      → length m.orphan_pool ≤ n
      → IsTracked received m
      → Settled received (resolve n m)
  resolve-Settled zero received m fits small le t =
      let missing = ap is_some (lookup-empty (m.current_height + 1) m.orphan_pool le) in
      rw (resolve-missing 0 m (current_fits received m fits small t) missing) (t, missing)
  resolve-Settled (suc n) received m fits small le t =
      let fits_next = current_fits received m fits small t in
      elim (Bool-cases (contains_key (m.current_height + 1) m.orphan_pool)) [
        | inr missing ↦ rw (resolve-missing (suc n) m fits_next missing) (t, missing)
        | inl found ↦ rw (resolve-found n m fits_next found) (
            resolve-Settled n received
              (record {
                current_height = m.current_height + 1;
                orphan_pool = remove (m.current_height + 1) m.orphan_pool;
              })
              fits small
              (omega (arith, length-remove_found (m.current_height + 1) m.orphan_pool found))
              (step-IsTracked received m t found))
      ]

  process-stale :
      (h : ℕ) (d : Data) (m : SyncManager Data)
      → h ≤ m.current_height
      → (process_incoming_block h d m).0 ≡ m
  unfolding process_incoming_block
  process-stale h d m stale = ground arith

  process-next :
      (h : ℕ) (d : Data) (m : SyncManager Data)
      → h ≡ m.current_height + 1
      → h < u64_mod
      → (process_incoming_block h d m).0
        ≡ resolve (length m.orphan_pool) (record m { current_height = h })
  unfolding process_incoming_block
  process-next h d m next fits = ground arith

  process-ahead :
      (h : ℕ) (d : Data) (m : SyncManager Data)
      → m.current_height + 1 < h
      → h < u64_mod
      → (process_incoming_block h d m).0 ≡ record m { orphan_pool = insert h d m.orphan_pool }
  unfolding process_incoming_block
  process-ahead h d m ahead fits = ground arith

  pub process-Settled :
      (received : HashSet ℕ) (h : ℕ) (d : Data) (m : SyncManager Data)
      → start + 1 < u64_mod
      → Small (h ∷ received)
      → Settled received m
      → Settled (h ∷ received) (process_incoming_block h d m).0
  unfolding contains
  process-Settled received h d m fits small (t, gap) = elim (order h m.current_height) [
    | inl stale ↦ rw (process-stale h d m stale) (
      record {
        at_least = t.at_least;
        below = λ k. grind (arith, t.below k);
        pooled = λ k. grind (arith, t.pooled k);
        kept = λ k. grind (arith, t.kept k);
      },
      gap,
    )
    | inr (inl next) ↦ rw (process-next h d m next (grind (arith, small h))) (
        resolve-Settled (length m.orphan_pool) (h ∷ received) (record m { current_height = h }) fits
          small (omega arith)
          (record {
            at_least = omega (arith, t.at_least);
            below = λ k. grind (arith, t.below k);
            pooled = λ k. grind (arith, t.pooled k);
            kept = λ k. grind (arith, t.kept k);
          }))
    | inr (inr ahead) ↦ rw (process-ahead h d m ahead (grind (arith, small h))) (
      record {
        at_least = t.at_least;
        below = λ k. grind (arith, t.below k);
        pooled = λ k. grind (arith, t.pooled k, lookup-insert h k d m.orphan_pool);
        kept = λ k. grind (arith, t.kept k, lookup-insert h k d m.orphan_pool);
      },
      grind (arith, lookup-insert h (m.current_height + 1) d m.orphan_pool),
    )
  ]
