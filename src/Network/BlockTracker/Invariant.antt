-- ===== src/Network/BlockTracker/Invariant.antt =====
-- src/network/block_tracker.rs: every request of the tracker is for a block in flight, and no
-- block has two requests.
use quantum_btc.Prelude.{
  ℕ, ◌≡◌, some, true, not, Hash, arith, Eq, nat_eq, beq, beq_iff, ◌==◌, HashMap, lookup, retain,
  contains_key, lookup-insert, lookup-remove, lookup-retain, keep_if, map_laws, if◌then◌else◌,
}
use quantum_btc.Network.BlockTracker.{
  BlockDownloadTracker, assign_request, on_request_compact, on_compact_failed,
  register_full_request, on_block_saved, on_network_failure, prune_stale_tasks,
}

-- No request is for a block that is not in flight, and no block has two requests.
pub record IsConsistent {PeerId ReqId : Type 0} ⦃e : Eq ReqId⦄
    (t : BlockDownloadTracker PeerId ReqId) : Type 0 where
  pub no_ghosts :
      (r : ReqId) (h : Hash) → lookup r t.req_map ≡ some h → contains_key h t.in_flight ≡ true
  pub one_request :
      (r s : ReqId) (h : Hash) → lookup r t.req_map ≡ some h → lookup s t.req_map ≡ some h → r ≡ s

module _ {ReqId : Type 0} ⦃e : Eq ReqId⦄ where
  pub lookup-assign_request :
      (q r : ReqId) (h : Hash) (m : HashMap ReqId Hash)
      → lookup r (assign_request q h m)
        ≡ (if beq q r then some h else keep_if (λ k. not (k == h)) (lookup r m))
  unfolding assign_request
  lookup-assign_request q r h m = ground (
    arith,
    lookup-insert q r h (retain (λ _ k. not (k == h)) m),
    lookup-retain (λ _ k. not (k == h)) r m,
  )

module _ {PeerId ReqId : Type 0} ⦃e : Eq ReqId⦄ where
  pub on_request_compact-IsConsistent :
      (now : ℕ) (q : ReqId) (h : Hash) (p : PeerId) (t : BlockDownloadTracker PeerId ReqId)
      → IsConsistent t
      → IsConsistent (on_request_compact now q h p t)
  unfolding on_request_compact
  on_request_compact-IsConsistent now q h p t c = record {
    no_ghosts =
        λ r k. grind (arith, c.no_ghosts r k, lookup-assign_request q r h t.req_map, lookup-insert);
    one_request = λ r s k. ground (
      arith,
      c.one_request r s k,
      lookup-assign_request q r h t.req_map,
      lookup-assign_request q s h t.req_map,
      beq_iff q r,
      beq_iff q s,
    );
  }

  pub on_compact_failed-IsConsistent :
      (now : ℕ) (q : ReqId) (t : BlockDownloadTracker PeerId ReqId)
      → IsConsistent t
      → IsConsistent (on_compact_failed now q t).0
  unfolding on_compact_failed
  on_compact_failed-IsConsistent now q t c = record {
    no_ghosts = λ r k. grind (arith, c.no_ghosts r k, lookup-remove q r t.req_map, lookup-insert);
    one_request = λ r s k.
        ground
          (arith, c.one_request r s k, lookup-remove q r t.req_map, lookup-remove q s t.req_map);
  }

  pub register_full_request-IsConsistent :
      (q : ReqId) (h : Hash) (t : BlockDownloadTracker PeerId ReqId)
      → IsConsistent t
      → IsConsistent (register_full_request q h t)
  unfolding register_full_request
  register_full_request-IsConsistent q h t c = record {
    no_ghosts = λ r k. ground (arith, c.no_ghosts r k, lookup-assign_request q r h t.req_map);
    one_request = λ r s k. ground (
      arith,
      c.one_request r s k,
      lookup-assign_request q r h t.req_map,
      lookup-assign_request q s h t.req_map,
      beq_iff q r,
      beq_iff q s,
    );
  }

  pub on_block_saved-IsConsistent :
      (h : Hash) (t : BlockDownloadTracker PeerId ReqId)
      → IsConsistent t
      → IsConsistent (on_block_saved h t)
  unfolding on_block_saved
  on_block_saved-IsConsistent h t c = record {
    no_ghosts = λ r k. ground (
      arith,
      c.no_ghosts r k,
      lookup-retain (λ _ j. not (j == h)) r t.req_map,
      lookup-remove h k t.in_flight,
    );
    one_request = λ r s k. ground (
      arith,
      c.one_request r s k,
      lookup-retain (λ _ j. not (j == h)) r t.req_map,
      lookup-retain (λ _ j. not (j == h)) s t.req_map,
    );
  }

  pub on_network_failure-IsConsistent :
      (now : ℕ) (q : ReqId) (t : BlockDownloadTracker PeerId ReqId)
      → IsConsistent t
      → IsConsistent (on_network_failure now q t).0
  unfolding on_network_failure
  on_network_failure-IsConsistent now q t c = record {
    no_ghosts = λ r k. grind (arith, c.no_ghosts r k, lookup-remove q r t.req_map, map_laws);
    one_request = λ r s k. grind (arith, c.one_request r s k, map_laws);
  }

  pub prune_stale_tasks-IsConsistent :
      (now timeout : ℕ) (t : BlockDownloadTracker PeerId ReqId)
      → IsConsistent t
      → IsConsistent (prune_stale_tasks now timeout t).0
  unfolding prune_stale_tasks
  prune_stale_tasks-IsConsistent now timeout t c = record {
    no_ghosts = λ r k. grind (arith, map_laws);
    one_request = λ r s k. grind (arith, c.one_request r s k, map_laws);
  }
