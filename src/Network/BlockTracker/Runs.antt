-- ===== src/Network/BlockTracker/Runs.antt =====
-- src/network/block_tracker.rs: runs of the tracker, as any peers, clock and order of events make
-- them.
use quantum_btc.Prelude.{
  ℕ, ◌≡◌, some, none, Hash, arith, Eq, nat_eq, lookup, is_some, keep_if, ◌==◌, beq_iff, beq_refl,
  if◌then◌else◌, map_laws, not, lookup-insert, lookup-retain, contains, ◌≢◌, lookup-remove_all,
  contains-keys_where, Option,
}
use quantum_btc.Network.BlockTracker.{
  TaskStatus, requested_compact, requested_full, TrackerAction, no_action, fetch_full_block,
  rescue_sync, BlockDownloadTracker, new, is_stale, on_request_compact, on_compact_failed,
  register_full_request, on_block_saved, on_network_failure, prune_stale_tasks, is_in_flight,
}
use quantum_btc.Network.BlockTracker.Invariant.{
  IsConsistent, on_request_compact-IsConsistent, on_compact_failed-IsConsistent,
  register_full_request-IsConsistent, on_block_saved-IsConsistent, on_network_failure-IsConsistent,
  prune_stale_tasks-IsConsistent, lookup-assign_request,
}

module _ {PeerId : Type 0} where
  -- What a failure makes of the status of the block it is for.
  abbrev pub escalate : ℕ → Option (TaskStatus PeerId) → Option (TaskStatus PeerId)
  escalate now (some (requested_compact p _)) = some (requested_full p now)
  escalate now _ = none

  -- What the caller is asked to do about it.
  abbrev pub escalation : Hash → Option (TaskStatus PeerId) → TrackerAction PeerId
  escalation h (some (requested_compact p _)) = fetch_full_block p h
  escalation h (some (requested_full p _)) = rescue_sync p
  escalation h none = no_action

module _ {PeerId ReqId : Type 0} ⦃e : Eq ReqId⦄ where
  -- One call of a method, at any time and with any arguments.
  pub data Step (t : BlockDownloadTracker PeerId ReqId)
      : BlockDownloadTracker PeerId ReqId → Type 0 where
    request_compact :
        (now : ℕ) (q : ReqId) (h : Hash) (p : PeerId) → Step t (on_request_compact now q h p t)
    compact_failed : (now : ℕ) (q : ReqId) → Step t (on_compact_failed now q t).0
    full_request : (q : ReqId) (h : Hash) → Step t (register_full_request q h t)
    block_saved : (h : Hash) → Step t (on_block_saved h t)
    network_failure : (now : ℕ) (q : ReqId) → Step t (on_network_failure now q t).0
    prune : (now timeout : ℕ) → Step t (prune_stale_tasks now timeout t).0

  pub data Reach (s : BlockDownloadTracker PeerId ReqId)
      : BlockDownloadTracker PeerId ReqId → Type 0 where
    here : Reach s s
    next : {t u : BlockDownloadTracker PeerId ReqId} → Reach s t → Step t u → Reach s u

  Step-IsConsistent :
      {t u : BlockDownloadTracker PeerId ReqId} → Step t u → IsConsistent t → IsConsistent u
  Step-IsConsistent {t} (request_compact now q h p) c =
      on_request_compact-IsConsistent now q h p t c
  Step-IsConsistent {t} (compact_failed now q) c = on_compact_failed-IsConsistent now q t c
  Step-IsConsistent {t} (full_request q h) c = register_full_request-IsConsistent q h t c
  Step-IsConsistent {t} (block_saved h) c = on_block_saved-IsConsistent h t c
  Step-IsConsistent {t} (network_failure now q) c = on_network_failure-IsConsistent now q t c
  Step-IsConsistent {t} (prune now timeout) c = prune_stale_tasks-IsConsistent now timeout t c

  Reach-keeps :
      {s t : BlockDownloadTracker PeerId ReqId} → Reach s t → IsConsistent s → IsConsistent t
  Reach-keeps here c = c
  Reach-keeps (next r st) c = Step-IsConsistent st (Reach-keeps r c)

  new-IsConsistent : IsConsistent (new {PeerId = PeerId} {ReqId = ReqId})
  unfolding lookup
  new-IsConsistent = record { no_ghosts = λ r h. cc; one_request = λ r s h. cc }

  -- After any calls from the empty tracker, every request is for a block in flight, and no block
  -- has two requests.
  pub Reach-IsConsistent : {t : BlockDownloadTracker PeerId ReqId} → Reach new t → IsConsistent t
  Reach-IsConsistent r = Reach-keeps r new-IsConsistent

  -- A network failure of a request moves its block one step along compact, full, given up: the
  -- action names the peer of the status and, for a full fetch, the block; the request is
  -- forgotten, and no other block's status changes.
  on_network_failure_lem :
      (now : ℕ) (q : ReqId) (h : Hash) (t : BlockDownloadTracker PeerId ReqId)
      → lookup q t.req_map ≡ some h
      → let (t', action) = on_network_failure now q t in
        (action ≡ escalation h (lookup h t.in_flight))
        × (lookup q t'.req_map ≡ none)
        × ((k : Hash)
            → lookup k t'.in_flight
              ≡ (if h == k then escalate now (lookup h t.in_flight) else lookup k t.in_flight))
  unfolding on_network_failure
  on_network_failure_lem now q h t mapped =
      (grind arith, grind (arith, beq_refl q, map_laws), λ k. grind (arith, map_laws))

  -- A request that a later one for the same block has replaced no longer does anything when its
  -- compact block fails, whatever the block's status was.
  pub superseded_request_is_ignored :
      (now later : ℕ) (q r : ReqId) (h : Hash) (p : PeerId) (t : BlockDownloadTracker PeerId ReqId)
      → lookup r t.req_map ≡ some h
      → r ≢ q
      → (on_compact_failed later r (on_request_compact now q h p t)).1 ≡ no_action
  unfolding on_compact_failed on_request_compact
  superseded_request_is_ignored now later q r h p t mapped ne =
      grind (arith, lookup-assign_request q r h t.req_map, beq_iff q r, lookup-insert)

  -- Pruning reports and forgets exactly the blocks whose request is at least `timeout` old, and
  -- forgets exactly the requests for blocks that are then not in flight.
  prune_stale_tasks_lem :
      (now timeout : ℕ) (t : BlockDownloadTracker PeerId ReqId)
      → let (t', stale) = prune_stale_tasks now timeout t in
        ((h : Hash)
          → contains h stale ≡ is_some (keep_if (is_stale now timeout) (lookup h t.in_flight)))
        × ((h : Hash)
            → lookup h t'.in_flight
              ≡ keep_if (λ s. not (is_stale now timeout s)) (lookup h t.in_flight))
        × ((r : ReqId)
            → lookup r t'.req_map ≡ keep_if (λ h. is_in_flight h t') (lookup r t.req_map))
  unfolding prune_stale_tasks is_in_flight
  prune_stale_tasks_lem now timeout t = (
    λ h. contains-keys_where (λ _ s. is_stale now timeout s) h t.in_flight,
    λ h. grind (arith, lookup-remove_all, contains-keys_where),
    λ r. lookup-retain _ r t.req_map,
  )
