-- ===== src/Tests/Sync.antt =====
-- Runs of src/network/sync_manager.rs.
use quantum_btc.Prelude.{
  ℕ, ◌+◌, ◌-◌, ◌<◌, ◌≤◌, ◌≡◌, Bool, true, false, List, [], ◌∷◌, arith, contains, nat_eq, ltb,
  u64_mod,
}
use quantum_btc.Network.SyncManager.{new, process_batch}
use quantum_btc.Network.SyncManager.Batch.{heights, process_batch_lem}
use quantum_btc.Network.SyncDebouncer.{
  new_debouncer, penalty_ms, is_peer_banned, report_peer_progress,
}
use quantum_btc.Network.SyncDebouncer.Backoff.{run_reports, misses, banned_by_backoff}

abbrev batch : List (ℕ × ℕ)
batch = (12, 5) ∷ (11, 6) ∷ (14, 7) ∷ []

abbrev other_batch : List (ℕ × ℕ)
other_batch = (14, 7) ∷ (11, 6) ∷ (12, 5) ∷ []

small : (h : ℕ) → contains h (heights batch) ≡ true → h + 1 < u64_mod
unfolding contains
small h held = ground arith

same_heights : (h : ℕ) → contains h (heights batch) ≡ contains h (heights other_batch)
unfolding contains
same_heights h = ground arith

process_batch_lem_example :
    let c = (process_batch batch (new 10)).0.current_height in
    (10 ≤ c)
    × ((h : ℕ) → 10 < h → h ≤ c → contains h (heights batch) ≡ true)
    × (contains (c + 1) (heights batch) ≡ false)
process_batch_lem_example = process_batch_lem 10 (omega arith) batch small

-- The peer 4 makes no progress at 100, 200, 300 and 400, and the peer 5 does.
abbrev reports : List (ℕ × (Bool × ℕ))
reports = (4, (false, 100)) ∷ (5, (true, 150)) ∷ (4, (false, 200)) ∷ (4, (false, 300)) ∷ []

banned_by_backoff_example :
    is_peer_banned 4 2399
      (report_peer_progress 4 false 400 (run_reports reports (new_debouncer 1000)))
    ≡ ltb 2399 (400 + penalty_ms (misses 4 reports 0 - 2))
banned_by_backoff_example =
    banned_by_backoff 1000 400 2399 4 reports (omega arith) (omega arith) (omega arith)
