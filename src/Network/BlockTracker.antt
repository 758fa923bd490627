-- ===== src/Network/BlockTracker.antt =====
-- src/network/block_tracker.rs: which blocks are being downloaded, and by which request.
pub mod Invariant
pub mod Runs
use quantum_btc.Prelude.{
  ℕ, ◌-◌, Bool, not, Option, none, some, List, [], Hash, leb, ◌==◌, Eq, nat_eq, HashMap, lookup,
  insert, remove, retain, contains_key, keys_where, remove_all, if◌then◌else◌,
}

pub data TaskStatus (PeerId : Type 0) : Type 0 where
  requested_compact : PeerId → ℕ → TaskStatus PeerId
  requested_full : PeerId → ℕ → TaskStatus PeerId

-- `no_action` is the source's `None`.
pub data TrackerAction (PeerId : Type 0) : Type 0 where
  no_action : TrackerAction PeerId
  fetch_full_block : PeerId → Hash → TrackerAction PeerId
  rescue_sync : PeerId → TrackerAction PeerId

pub record BlockDownloadTracker (PeerId ReqId : Type 0) : Type 0 where
  pub in_flight : HashMap Hash (TaskStatus PeerId)
  pub req_map : HashMap ReqId Hash

abbrev pub request_time : {PeerId : Type 0} → TaskStatus PeerId → ℕ
request_time (requested_compact _ t) = t
request_time (requested_full _ t) = t

module _ {ReqId : Type 0} ⦃e : Eq ReqId⦄ where
  -- `req_map.retain(|_, h| h != &hash); req_map.insert(req_id, hash)`
  unfoldable pub assign_request : ReqId → Hash → HashMap ReqId Hash → HashMap ReqId Hash
  assign_request req_id hash m = insert req_id hash (retain (λ _ h. not (h == hash)) m)

-- `now.saturating_sub(req_time) >= timeout_ms`
abbrev pub is_stale : {PeerId : Type 0} → ℕ → ℕ → TaskStatus PeerId → Bool
is_stale now timeout_ms status = leb timeout_ms (now - request_time status)

module _ {PeerId ReqId : Type 0} ⦃e : Eq ReqId⦄ where
  abbrev pub new : BlockDownloadTracker PeerId ReqId
  new = record { in_flight = []; req_map = [] }

  -- What `on_request_compact` does by the status found; `now` is `current_time_ms()`.
  abbrev request_compact_by :
      Option (TaskStatus PeerId)
      → ℕ
      → ReqId
      → Hash
      → PeerId
      → BlockDownloadTracker PeerId ReqId
      → BlockDownloadTracker PeerId ReqId
  request_compact_by (some (requested_full _ _)) now req_id hash peer t = t
  request_compact_by (some (requested_compact _ since)) now req_id hash peer t = record {
    in_flight = insert hash (requested_compact peer since) t.in_flight;
    req_map = assign_request req_id hash t.req_map;
  }
  request_compact_by none now req_id hash peer t = record {
    in_flight = insert hash (requested_compact peer now) t.in_flight;
    req_map = assign_request req_id hash t.req_map;
  }

  unfoldable pub on_request_compact :
      ℕ
      → ReqId
      → Hash
      → PeerId
      → BlockDownloadTracker PeerId ReqId
      → BlockDownloadTracker PeerId ReqId
  on_request_compact now req_id hash peer t =
      request_compact_by (lookup hash t.in_flight) now req_id hash peer t

  -- The request is forgotten; a compact download becomes a full one from the same peer.
  abbrev fail_compact :
      Option (TaskStatus PeerId)
      → ℕ
      → Hash
      → BlockDownloadTracker PeerId ReqId
      → BlockDownloadTracker PeerId ReqId × TrackerAction PeerId
  fail_compact (some (requested_compact peer _)) now hash t = (
    record t { in_flight = insert hash (requested_full peer now) t.in_flight },
    fetch_full_block peer hash,
  )
  fail_compact (some (requested_full _ _)) now hash t = (t, no_action)
  fail_compact none now hash t = (t, no_action)

  pub on_compact_failed :
      ℕ
      → ReqId
      → BlockDownloadTracker PeerId ReqId
      → BlockDownloadTracker PeerId ReqId × TrackerAction PeerId
  on_compact_failed now req_id t = elim (lookup req_id t.req_map) [
    | none ↦ (t, no_action)
    | some hash ↦
        fail_compact (lookup hash t.in_flight) now hash
          (record t { req_map = remove req_id t.req_map })
  ]

  pub register_full_request :
      ReqId → Hash → BlockDownloadTracker PeerId ReqId → BlockDownloadTracker PeerId ReqId
  register_full_request req_id hash t =
      if contains_key hash t.in_flight
      then record t { req_map = assign_request req_id hash t.req_map }
      else t

  pub on_block_saved : Hash → BlockDownloadTracker PeerId ReqId → BlockDownloadTracker PeerId ReqId
  on_block_saved hash t = record {
    in_flight = remove hash t.in_flight;
    req_map = retain (λ _ h. not (h == hash)) t.req_map;
  }

  -- A compact download becomes a full one; a full one is given up for a rescue sync.
  abbrev fail_network :
      Option (TaskStatus PeerId)
      → ℕ
      → Hash
      → BlockDownloadTracker PeerId ReqId
      → BlockDownloadTracker PeerId ReqId × TrackerAction PeerId
  fail_network (some (requested_compact peer _)) now hash t = (
    record t { in_flight = insert hash (requested_full peer now) t.in_flight },
    fetch_full_block peer hash,
  )
  fail_network (some (requested_full peer _)) now hash t = (
    record {
      in_flight = remove hash t.in_flight;
      req_map = retain (λ _ h. not (h == hash)) t.req_map;
    },
    rescue_sync peer,
  )
  fail_network none now hash t = (t, no_action)

  pub on_network_failure :
      ℕ
      → ReqId
      → BlockDownloadTracker PeerId ReqId
      → BlockDownloadTracker PeerId ReqId × TrackerAction PeerId
  on_network_failure now req_id t = elim (lookup req_id t.req_map) [
    | none ↦ (t, no_action)
    | some hash ↦
        fail_network (lookup hash t.in_flight) now hash
          (record t { req_map = remove req_id t.req_map })
  ]

  pub prune_stale_tasks :
      ℕ → ℕ → BlockDownloadTracker PeerId ReqId → BlockDownloadTracker PeerId ReqId × List Hash
  prune_stale_tasks now timeout_ms t =
      let stale_hashes = keys_where (λ _ status. is_stale now timeout_ms status) t.in_flight in
      let in_flight = remove_all stale_hashes t.in_flight in
      (
        record {
          in_flight = in_flight;
          req_map = retain (λ _ h. contains_key h in_flight) t.req_map;
        },
        stale_hashes,
      )

  pub is_in_flight : Hash → BlockDownloadTracker PeerId ReqId → Bool
  is_in_flight hash t = contains_key hash t.in_flight
