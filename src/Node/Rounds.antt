-- ===== src/Node/Rounds.antt =====
-- src/main.rs: the loop over orphans ends.
use quantum_btc.Prelude.{
  false, ℕ, zero, suc, ◌+◌, ◌≤◌, ◌<◌, ◌≡◌, refl, some, List, [], ◌∷◌, length, Hash, HashMap, lookup,
  remove, length-remove_found, nat_eq, Eq, Option-cases, inl, inr, arith,
}
use quantum_btc.Crypto.Primitives.{Primitives}
use quantum_btc.Block.{Block, calculate_hash}
use quantum_btc.Utxo.Process.{process_block}
use quantum_btc.Storage.Database.{Database}
use quantum_btc.Storage.Vault.{MemoryVault}
use quantum_btc.Storage.Commit.{commit_state_transition}
use quantum_btc.Storage.Orphans.{take_orphans, get_orphans_by_parent}
use quantum_btc.Node.State.{Node}
use quantum_btc.Node.Receive.{connect, try_orphans, cascade}

length-take_orphans :
    (hs : List Hash) (orphans : HashMap Hash Block)
    → length (take_orphans hs orphans).0 + length (take_orphans hs orphans).1 ≤ length orphans
unfolding take_orphans
length-take_orphans [] orphans = omega arith
length-take_orphans (h ∷ hs) orphans = elim (Option-cases (lookup h orphans)) [
  | inl missing ↦ rw (take_orphans, missing) (length-take_orphans hs orphans)
  | inr (b, found) ↦
      rw (take_orphans, found)
        (omega (
          arith,
          length-take_orphans hs (remove h orphans),
          length-remove_found h orphans (rw found refl),
        ))
]

length-get_orphans_by_parent :
    (parent : Hash) (v : MemoryVault)
    → let (recovered, left) = get_orphans_by_parent parent v in
      length recovered + length left.map_orphan_blocks ≤ length v.map_orphan_blocks
unfolding get_orphans_by_parent
length-get_orphans_by_parent parent v =
    elim (Option-cases (lookup parent v.map_orphan_blocks_by_prev)) [
      | inl missing ↦ rw (get_orphans_by_parent, missing) (omega arith)
      | inr (hs, found) ↦
          rw (get_orphans_by_parent, found) (length-take_orphans hs v.map_orphan_blocks)
    ]

module _ (c : Primitives) (d : Database) {PeerId : Type 0} ⦃e : Eq PeerId⦄ where
  abbrev pool_size : Node d.Db PeerId → ℕ
  pool_size node = length node.storage.vault.map_orphan_blocks

  -- The loop leaves the pool alone, and if a block has connected the list holds one.
  try_orphans-pool :
      (orphans : List Block) (node : Node d.Db PeerId)
      → let r = try_orphans c d orphans node in
        (pool_size r.1 ≡ pool_size node)
        × ((orphan : Block) → r.0 ≡ some orphan → 0 < length orphans)
  unfolding try_orphans connect commit_state_transition
  try_orphans-pool [] node = (refl, λ orphan found. absurd (ground arith))
  try_orphans-pool (b ∷ orphans) node =
      let o_height = length node.storage.vault.active_chain in
      let left = (process_block c b.transactions o_height false node.utxo).1 in
      (
        ground (
          arith,
          (try_orphans-pool orphans node).0,
          (try_orphans-pool orphans (record node { utxo = left })).0,
        ),
        λ orphan found. omega arith,
      )

  -- More rounds than the pool holds orphans are enough for the loop over orphans: with any two such
  -- numbers of rounds it ends with the same node.
  pub cascade-ends :
      (m n : ℕ) (parent : Hash) (node : Node d.Db PeerId)
      → pool_size node < m
      → pool_size node < n
      → cascade c d m parent node ≡ cascade c d n parent node
  unfolding cascade
  cascade-ends zero n parent node short short' = absurd (omega arith)
  cascade-ends (suc m) zero parent node short short' = absurd (omega arith)
  cascade-ends (suc m) (suc n) parent node short short' =
      let r = get_orphans_by_parent parent node.storage.vault in
      let fetched : Node d.Db PeerId = record node {
        storage = record node.storage { vault = r.1 };
      } in
      let fewer = length-get_orphans_by_parent parent node.storage.vault in
      let (same, some_orphan) = try_orphans-pool r.0 fetched in
      elim (Option-cases (try_orphans c d r.0 fetched).0) [
        | inl stuck ↦ rw (cascade, stuck) refl
        | inr (orphan, found) ↦
            let listed = some_orphan orphan found in
            rw (cascade, found)
              (cascade-ends m n (calculate_hash c orphan) (try_orphans c d r.0 fetched).1
                (omega (arith, same, listed, fewer)) (omega (arith, same, listed, fewer)))
      ]
