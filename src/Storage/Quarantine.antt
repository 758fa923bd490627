-- ===== src/Storage/Quarantine.antt =====
-- src/storage.rs: the pool of orphan blocks and its index by parent stay consistent.
use quantum_btc.Prelude.{
  suc, ◌≤◌, false, not, none, some, List, [], ◌∷◌, ◌++◌, length, filter, Hash, HashMap, lookup,
  remove, contains, nat_eq, leb, ◌==◌, if◌then◌else◌, ◌≡◌, ◌⊎◌, refl, arith, beq_refl,
  lookup-insert, lookup-remove, Option-cases, Bool-cases, inl, inr, length-insert,
  length-remove_found, length-remove, ◌||◌,
}
use quantum_btc.Crypto.Primitives.{Primitives}
use quantum_btc.Block.{Block, calculate_hash}
use quantum_btc.Storage.Orphans.{
  max_orphan_blocks, or_nothing, set_list, forget_waiting, drop_orphan, evict_orphan, quarantine,
  make_room_for_orphan, add_orphan_block, take_orphans, get_orphans_by_parent, waiting_for,
  IsOrphanPool,
}
use quantum_btc.Storage.Vault.{MemoryVault}

contains-filter-not :
    (k h : Hash) (hs : List Hash)
    → contains k (filter (λ j. not (j == h)) hs) ≡ (if h == k then false else contains k hs)
unfolding contains
contains-filter-not k h [] = ground arith
contains-filter-not k h (j ∷ hs) = ground (arith, contains-filter-not k h hs)

contains-append_one :
    (k h : Hash) (hs : List Hash) → contains k (hs ++ h ∷ []) ≡ (contains k hs || (h == k))
unfolding contains
contains-append_one k h [] = ground arith
contains-append_one k h (j ∷ hs) = ground (arith, contains-append_one k h hs)

waiting-set_list :
    (parent p k : Hash) (hs : List Hash) (by_prev : HashMap Hash (List Hash))
    → contains k (or_nothing (lookup p (set_list parent hs by_prev)))
      ≡ (if parent == p then contains k hs else contains k (or_nothing (lookup p by_prev)))
unfolding contains
waiting-set_list parent p k [] by_prev = ground (arith, lookup-remove parent p by_prev)
waiting-set_list parent p k (h ∷ hs) by_prev =
    ground (arith, lookup-insert parent p (h ∷ hs) by_prev)

-- A hash that is forgotten under its parent waits no longer there; nothing else changes.
waiting-forget_waiting :
    (parent h p k : Hash) (by_prev : HashMap Hash (List Hash))
    → contains k (or_nothing (lookup p (forget_waiting parent h by_prev))) ≡ (
        if parent == p
        then (if h == k then false else contains k (or_nothing (lookup p by_prev)))
        else contains k (or_nothing (lookup p by_prev)))
unfolding contains
waiting-forget_waiting parent h p k by_prev = elim (Option-cases (lookup parent by_prev)) [
  | inl missing ↦ ground arith
  | inr (hs, found) ↦ ground (
    arith,
    waiting-set_list parent p k (filter (λ j. not (j == h)) hs) by_prev,
    contains-filter-not k h hs,
  )
]

drop_orphan-IsOrphanPool :
    (h : Hash) (block : Block) (v : MemoryVault)
    → lookup h v.map_orphan_blocks ≡ some block
    → IsOrphanPool v
    → IsOrphanPool (drop_orphan h block v)
drop_orphan-IsOrphanPool h block v found x =
    let parent = block.header.previous_hash in
    let waits = waiting-forget_waiting parent h in
    record {
      listed = λ k b held.
          rw (waits b.header.previous_hash k v.map_orphan_blocks_by_prev)
            (ground (arith, x.listed k b, lookup-remove h k v.map_orphan_blocks));
      known = λ p k waiting.
          let was = rw (waits p k v.map_orphan_blocks_by_prev) at waiting in
          let (b, held, same) = x.known p k (ground arith) in
          (b, ground (arith, lookup-remove h k v.map_orphan_blocks), same);
      capped = omega (arith, length-remove h v.map_orphan_blocks, x.capped);
    }

evict_orphan-cases :
    (v : MemoryVault)
    → (v.map_orphan_blocks ≡ [])
      ⊎ ((h : Hash) × (block : Block) × (lookup h v.map_orphan_blocks ≡ some block)
          × (evict_orphan v ≡ drop_orphan h block v))
unfolding evict_orphan lookup
evict_orphan-cases v = from v.map_orphan_blocks refl
  where
    from :
        (orphans : HashMap Hash Block)
        → v.map_orphan_blocks ≡ orphans
        → (v.map_orphan_blocks ≡ [])
          ⊎ ((h : Hash) × (block : Block) × (lookup h v.map_orphan_blocks ≡ some block)
              × (evict_orphan v ≡ drop_orphan h block v))
    from [] same = inl same
    from ((h, block) ∷ rest) same =
        inr (h, block, rw same (ground (arith, beq_refl h)), ground arith)

make_room-IsOrphanPool :
    (v : MemoryVault)
    → IsOrphanPool v
    → IsOrphanPool (make_room_for_orphan v)
      × (suc (length (make_room_for_orphan v).map_orphan_blocks) ≤ max_orphan_blocks)
make_room-IsOrphanPool v x =
    elim (Bool-cases (leb max_orphan_blocks (length v.map_orphan_blocks))) [
      | inr few ↦ rw few (x, ground arith)
      | inl full ↦ elim (evict_orphan-cases v) [
        | inl empty ↦ absurd (ground arith)
        | inr (h, block, found, same) ↦
            rw (full, same)
              (
                drop_orphan-IsOrphanPool h block v found x,
                omega (arith, length-remove_found h v.map_orphan_blocks (rw found refl), x.capped),
              )
      ]
    ]

quarantine-IsOrphanPool :
    (h : Hash) (block : Block) (v : MemoryVault)
    → lookup h v.map_orphan_blocks ≡ none
    → suc (length v.map_orphan_blocks) ≤ max_orphan_blocks
    → IsOrphanPool v
    → IsOrphanPool (quarantine h block v)
quarantine-IsOrphanPool h block v new room x =
    let parent = block.header.previous_hash in
    let list = or_nothing (lookup parent v.map_orphan_blocks_by_prev) ++ h ∷ [] in
    let waits : (p k : Hash)
        → contains k (waiting_for p (quarantine h block v)) ≡ (
            if parent == p
            then contains k (waiting_for p v) || (h == k)
            else contains k (waiting_for p v)) =
      λ p k. ground (
        arith,
        lookup-insert parent p list v.map_orphan_blocks_by_prev,
        contains-append_one k h (or_nothing (lookup parent v.map_orphan_blocks_by_prev)),
      ) in
    record {
      listed = λ k b held.
          rw (waits b.header.previous_hash k)
            (ground (arith, x.listed k b, lookup-insert h k block v.map_orphan_blocks));
      known = λ p k waiting. elim (Bool-cases (h == k)) [
        | inl same ↦ (
          block,
          ground (arith, lookup-insert h k block v.map_orphan_blocks),
          ground (arith, rw (waits p k) at waiting, x.known p k),
        )
        | inr other ↦
            let was = rw (waits p k) at waiting in
            let (b, held, parent_of) = x.known p k (ground arith) in
            (b, ground (arith, lookup-insert h k block v.map_orphan_blocks), parent_of)
      ];
      capped = omega (arith, length-insert h block v.map_orphan_blocks);
    }

pub add_orphan_block-IsOrphanPool :
    (c : Primitives) (block : Block) (v : MemoryVault)
    → IsOrphanPool v
    → IsOrphanPool (add_orphan_block c block v).1
unfolding add_orphan_block
add_orphan_block-IsOrphanPool c block v x =
    let h = calculate_hash c block in
    let room = make_room_for_orphan v in
    let (kept, few) = make_room-IsOrphanPool v x in
    elim (Option-cases (lookup h room.map_orphan_blocks)) [
      | inl new ↦ rw new (quarantine-IsOrphanPool h block room new few kept)
      | inr (b, old) ↦ rw old kept
    ]

pub lookup-take_orphans :
    (hs : List Hash) (k : Hash) (orphans : HashMap Hash Block)
    → lookup k (take_orphans hs orphans).1 ≡ (if contains k hs then none else lookup k orphans)
unfolding take_orphans contains
lookup-take_orphans [] k orphans = refl
lookup-take_orphans (h ∷ hs) k orphans = elim (Option-cases (lookup h orphans)) [
  | inl missing ↦ ground (arith, lookup-take_orphans hs k orphans)
  | inr (block, found) ↦
      ground (arith, lookup-take_orphans hs k (remove h orphans), lookup-remove h k orphans)
]

length-take_orphans :
    (hs : List Hash) (orphans : HashMap Hash Block)
    → length (take_orphans hs orphans).1 ≤ length orphans
unfolding take_orphans
length-take_orphans [] orphans = omega arith
length-take_orphans (h ∷ hs) orphans = elim (Option-cases (lookup h orphans)) [
  | inl missing ↦ ground (arith, length-take_orphans hs orphans)
  | inr (block, found) ↦
      ground (arith, length-take_orphans hs (remove h orphans), length-remove h orphans)
]

pub get_orphans_by_parent-none :
    (parent : Hash) (v : MemoryVault)
    → lookup parent v.map_orphan_blocks_by_prev ≡ none
    → get_orphans_by_parent parent v ≡ ([], v)
unfolding get_orphans_by_parent
get_orphans_by_parent-none parent v missing = ground arith

abbrev without_children : Hash → List Hash → MemoryVault → MemoryVault
without_children parent hs v = record v {
  map_orphan_blocks = (take_orphans hs v.map_orphan_blocks).1;
  map_orphan_blocks_by_prev = remove parent v.map_orphan_blocks_by_prev;
}

pub get_orphans_by_parent-some :
    (parent : Hash) (hs : List Hash) (v : MemoryVault)
    → lookup parent v.map_orphan_blocks_by_prev ≡ some hs
    → get_orphans_by_parent parent v
      ≡ ((take_orphans hs v.map_orphan_blocks).0, without_children parent hs v)
unfolding get_orphans_by_parent
get_orphans_by_parent-some parent hs v found = ground arith

pub without_children-IsOrphanPool :
    (parent : Hash) (hs : List Hash) (v : MemoryVault)
    → lookup parent v.map_orphan_blocks_by_prev ≡ some hs
    → IsOrphanPool v
    → IsOrphanPool (without_children parent hs v)
unfolding contains
without_children-IsOrphanPool parent hs v found x = record {
  listed = λ k b held. ground (
    arith,
    lookup-take_orphans hs k v.map_orphan_blocks,
    x.listed k b,
    lookup-remove parent b.header.previous_hash v.map_orphan_blocks_by_prev,
  );
  known = λ p k waiting.
      let (b, held, parent_of) =
        x.known p k (ground (arith, lookup-remove parent p v.map_orphan_blocks_by_prev)) in
      (
        b,
        ground (
          arith,
          lookup-take_orphans hs k v.map_orphan_blocks,
          lookup-remove parent p v.map_orphan_blocks_by_prev,
          x.known parent k,
        ),
        parent_of,
      );
  capped = omega (arith, length-take_orphans hs v.map_orphan_blocks, x.capped);
}

pub get_orphans_by_parent-IsOrphanPool :
    (parent : Hash) (v : MemoryVault)
    → IsOrphanPool v
    → IsOrphanPool (get_orphans_by_parent parent v).1
get_orphans_by_parent-IsOrphanPool parent v x =
    elim (Option-cases (lookup parent v.map_orphan_blocks_by_prev)) [
      | inl missing ↦ rw (get_orphans_by_parent-none parent v missing) x
      | inr (hs, found) ↦
          rw (get_orphans_by_parent-some parent hs v found)
            (without_children-IsOrphanPool parent hs v found x)
    ]
