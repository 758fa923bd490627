-- ===== src/Storage/StartChain.antt =====
-- src/storage.rs: the active chain that `QuantumStorage::new` starts with.
use quantum_btc.Prelude.{
  ℕ, zero, suc, ◌<◌, ◌≤◌, ◌||◌, true, false, none, some, is_empty, List, [], ◌∷◌, length, Hash,
  lookup, lookup-insert, All, contains, contains-keys_where, nat_eq, ◌==◌, ◌≡◌, ◌⊎◌, refl, arith,
  Bool-cases, inl, inr, ltb,
}
use quantum_btc.Block.{BlockIndex}
use quantum_btc.Storage.Database.{
  Database, Key, Value, plain_key, chain_list, number, prefix_block_index, index_value,
}
use quantum_btc.Storage.Staging.{chain_or}
use quantum_btc.Storage.Boot.{
  Indices, add_index, judge_all, keys_of, collect, chosen_tip, dynamic_chain, load_indices,
  new_storage,
}
use quantum_btc.Storage.Marked.{IsMarkedAt, root, child, IsMarked, IsMarkedAt-depth}
use quantum_btc.Storage.Verdicts.{verdict_lem}
use quantum_btc.Storage.BestTip.{IsBestOf, best_tip-IsBestOf}

module _ (map_index : Indices) where
  -- From the given parent on, every block is marked and is the child of the one before.
  abbrev pub IsMarkedChain : Hash → List Hash → Type 0
  IsMarkedChain parent [] = Unit
  IsMarkedChain parent (h ∷ hs) =
      ((i : BlockIndex) × (lookup h map_index ≡ some i)
        × (i.has_data ≡ true)
        × (i.header.previous_hash ≡ parent))
      × IsMarkedChain h hs

  collect-none :
      (n : ℕ) (cur : Hash) (chain : List Hash) (i : BlockIndex)
      → lookup cur map_index ≡ some i
      → (cur == 0 || i.header.previous_hash == 0) ≡ true
      → collect map_index (suc n) cur chain ≡ cur ∷ chain
  unfolding collect
  collect-none n cur chain i found first = ground arith

  collect-up :
      (n : ℕ) (cur : Hash) (chain : List Hash) (i : BlockIndex)
      → lookup cur map_index ≡ some i
      → (cur == 0 || i.header.previous_hash == 0) ≡ false
      → collect map_index (suc n) cur chain
        ≡ collect map_index n i.header.previous_hash (cur ∷ chain)
  unfolding collect
  collect-up n cur chain i found later = ground arith

  abbrev pub last_of : Hash → List Hash → Hash
  last_of h [] = h
  last_of h (k ∷ ks) = last_of k ks

  collect_lem :
      (n d : ℕ) (cur : Hash) (chain : List Hash)
      → lookup 0 map_index ≡ none
      → d < n
      → IsMarkedAt map_index cur d
      → IsMarkedChain cur chain
      → IsMarkedChain 0 (collect map_index n cur chain)
        × (last_of 0 (collect map_index n cur chain) ≡ last_of cur chain)
  collect_lem zero d cur chain no_zero fuel x linked = absurd (omega arith)
  collect_lem (suc n) _ cur chain no_zero fuel (root i found full first) linked =
      rw (collect-none n cur chain i found (ground arith))
        (((i, found, full, ground arith), linked), refl)
  collect_lem (suc n) _ cur chain no_zero fuel (child {n = d} i found full later x) linked =
      let named : (cur == 0) ≡ false = elim (Bool-cases (cur == 0)) [
        | inr other ↦ other
        | inl zeroed ↦ let one : cur ≡ 0 = ground arith in absurd (ground (arith, rw one at found))
      ] in
      rw (collect-up n cur chain i found (ground arith)) (
        collect_lem n d i.header.previous_hash (cur ∷ chain) no_zero (omega arith) x
          ((i, found, full, refl), linked))

  -- The chain is linked from a first block on, every block of it is marked, and no marked block
  -- has more work than its tip.
  pub record IsBestChain (chain : List Hash) : Type 0 where
    pub linked : IsMarkedChain 0 chain
    pub tip : BlockIndex
    pub tip_found : lookup (last_of 0 chain) map_index ≡ some tip
    pub highest :
        (h : Hash) (i : BlockIndex)
        → lookup h map_index ≡ some i
        → IsMarked map_index h
        → i.chain_work ≤ tip.chain_work

  chosen_tip-IsBestOf :
      IsBestOf map_index (λ k. (contains k (keys_of map_index) ≡ true) ⊎ ⊥) (chosen_tip map_index)
  chosen_tip-IsBestOf =
      best_tip-IsBestOf map_index (judge_all map_index (keys_of map_index) [])
        (λ h i found. verdict_lem map_index h i found) (keys_of map_index) (λ _. ⊥) (0, 0)
        (record {
          chosen = λ some_work. absurd (omega arith);
          highest = λ h i is_seen. absurd is_seen;
        })

  seen_all :
      (h : Hash) (i : BlockIndex)
      → lookup h map_index ≡ some i
      → contains h (keys_of map_index) ≡ true
  seen_all h i found = ground (arith, contains-keys_where (λ _ _. true) h map_index)

  highest_all :
      (h : Hash) (i : BlockIndex)
      → lookup h map_index ≡ some i
      → IsMarked map_index h
      → i.chain_work ≤ (chosen_tip map_index).1
  highest_all h i found stored =
      chosen_tip-IsBestOf.highest h i (inl (seen_all h i found)) found stored

  -- Without a marked block that has work there is no chain.
  abbrev pub HasNoWork : Type 0
  HasNoWork =
      (h : Hash) (i : BlockIndex)
      → lookup h map_index ≡ some i
      → IsMarked map_index h
      → i.chain_work ≤ 0

  pub dynamic_chain_lem :
      lookup 0 map_index ≡ none
      → ((is_empty (dynamic_chain map_index) ≡ false) × IsBestChain (dynamic_chain map_index))
        ⊎ ((dynamic_chain map_index ≡ []) × HasNoWork)
  unfolding dynamic_chain
  dynamic_chain_lem no_zero = elim (Bool-cases (ltb 0 (chosen_tip map_index).1)) [
    | inr idle ↦
        inr (rw idle refl, (λ h i found stored. ground (arith, highest_all h i found stored)))
    | inl works ↦
        let ((d, x), (i, found, work)) = chosen_tip-IsBestOf.chosen (ground arith) in
        let tip = (chosen_tip map_index).0 in
        let chain = collect map_index (length map_index) tip [] in
        let (linked, last) =
          collect_lem (length map_index) d tip [] no_zero (IsMarkedAt-depth map_index x) x tt in
        let best : IsBestChain chain = record {
          linked = linked;
          tip = i;
          tip_found = rw last found;
          highest = λ h j held stored. rw work (highest_all h j held stored);
        } in
        rw works (inl (full chain i no_zero best.tip_found, best))
  ]
    where
      full :
          (chain : List Hash) (i : BlockIndex)
          → lookup 0 map_index ≡ none
          → lookup (last_of 0 chain) map_index ≡ some i
          → is_empty chain ≡ false
      full [] i no_zero found = absurd (ground arith)
      full (h ∷ hs) i no_zero found = refl

-- The entries of the database hold the index of the block.
abbrev pub IsIndexed : Hash → BlockIndex → List (Key × Value) → Type 0
IsIndexed h i [] = ⊥
IsIndexed h i ((key, value) ∷ rest) =
    ((key.prefix ≡ number prefix_block_index) × (value ≡ index_value i) × (i.block_hash ≡ h))
    ⊎ IsIndexed h i rest

add_index-lookup :
    (key : Key) (value : Value) (indices : Indices) (h : Hash) (i : BlockIndex)
    → lookup h (add_index key value indices) ≡ some i
    → IsIndexed h i ((key, value) ∷ []) ⊎ (lookup h indices ≡ some i)
add_index-lookup key (index_value index) indices h i found =
    ground (arith, lookup-insert index.block_hash h index indices)
add_index-lookup key _ indices h i found = inr found

load_indices-lookup :
    (entries : List (Key × Value)) (indices : Indices) (h : Hash) (i : BlockIndex)
    → lookup h (load_indices entries indices) ≡ some i
    → IsIndexed h i entries ⊎ (lookup h indices ≡ some i)
unfolding load_indices
load_indices-lookup [] indices h i found = inr found
load_indices-lookup ((key, value) ∷ rest) indices h i found =
    elim (load_indices-lookup rest (add_index key value indices) h i found) [
      | inl later ↦ inl (inr later)
      | inr before ↦ elim (add_index-lookup key value indices h i before) [
        | inl (inl here) ↦ inl (inl here)
        | inl (inr nowhere) ↦ absurd nowhere
        | inr known ↦ inr known
      ]
    ]

-- The entries mark every block of the chain as having its data.
abbrev pub AreMarked : List (Key × Value) → List Hash → Type 0
AreMarked entries chain =
    All (λ h. (i : BlockIndex) × IsIndexed h i entries × (i.has_data ≡ true)) chain

AreMarked-chain :
    (entries : List (Key × Value)) (parent : Hash) (chain : List Hash)
    → IsMarkedChain (load_indices entries []) parent chain
    → AreMarked entries chain
unfolding lookup
AreMarked-chain entries parent [] linked = tt
AreMarked-chain entries parent (h ∷ hs) ((i, found, full, _), linked) =
    elim (load_indices-lookup entries [] h i found) [
      | inl held ↦ ((i, held, full), AreMarked-chain entries h hs linked)
      | inr nothing ↦ absurd (ground arith)
    ]

-- When the storage is opened on a database whose index has no block of hash 0, the active chain
-- starts with a block without a parent, every block of it is the child of the one before and is
-- marked by its index on disk as having its data, and no block that is so marked with its whole
-- ancestry has more work than its tip; or no such block has any work, and the active chain is the
-- list on disk. The mark is `has_data`; whether the data is there is not looked up.
pub new_storage_lem :
    (d : Database) (entries : List (Key × Value)) (db : d.Db)
    → lookup 0 (load_indices entries []) ≡ none
    → let chain = (new_storage d entries db).vault.active_chain in
      (IsBestChain (load_indices entries []) chain × AreMarked entries chain)
      ⊎ ((chain ≡ chain_or [] (d.get (plain_key chain_list) db))
          × HasNoWork (load_indices entries []))
unfolding new_storage
new_storage_lem d entries db no_zero = elim (dynamic_chain_lem (load_indices entries []) no_zero) [
  | inl (full, best) ↦ inl (
      rw full
        (best, AreMarked-chain entries 0 (dynamic_chain (load_indices entries [])) best.linked))
  | inr (empty, idle) ↦ inr (rw empty refl, idle)
]
