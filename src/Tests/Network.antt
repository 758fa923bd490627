-- ===== src/Tests/Network.antt =====
-- Runs of src/network/block_tracker.rs and src/network/reputation.rs.
use quantum_btc.Prelude.{
  ℕ, ◌≤◌, ◌≡◌, refl, true, false, some, List, [], ◌∷◌, arith, nat_eq, lookup, insert, remove,
  retain,
}
use quantum_btc.Prelude.Int.{◌+ℤ◌, ◌-ℤ◌, wrap}
use quantum_btc.Economics.Supply.{issued, issued-le-max_supply}
use quantum_btc.Economics.{max_supply}
use quantum_btc.Network.BlockTracker.{
  BlockDownloadTracker, new, assign_request, on_request_compact, on_compact_failed,
}
use quantum_btc.Network.BlockTracker.Invariant.{IsConsistent}
use quantum_btc.Network.BlockTracker.Runs.{
  here, next, request_compact, compact_failed, Reach-IsConsistent,
}
use quantum_btc.Network.Reputation.{
  ReputationManager, invalid_signature, Call, offense, gossip, trust, enforce_capacity_limit,
  update_activity, is_trusted, report_offense, run,
}
use quantum_btc.Network.Reputation.Ban.{ban_lasts}
use quantum_btc.Prelude.Int.{pos, ◌≤ℤ◌}
use quantum_btc.Network.Reputation.Falls.{standing, FallsBy, penalties, run-standing}

-- What the runs compute with.
run_network : Unit {0}
unfolding lookup insert remove retain assign_request on_request_compact enforce_capacity_limit
    update_activity report_offense ◌+ℤ◌ ◌-ℤ◌ wrap
run_network = tt

-- Request 1 for the block 70, from the peer 4, at time 1000.
abbrev requested : BlockDownloadTracker ℕ ℕ
requested = on_request_compact 1000 1 70 4 new

mapped : lookup 1 requested.req_map ≡ some 70
unfolding run_network
mapped = refl

Reach-IsConsistent_example :
    IsConsistent (on_compact_failed 1500 1 (on_request_compact 1200 2 71 5 requested)).0
Reach-IsConsistent_example = Reach-IsConsistent (
    next (next (next here (request_compact 1000 1 70 4)) (request_compact 1200 2 71 5))
      (compact_failed 1500 1))

abbrev no_peers : ReputationManager ℕ
no_peers = []

-- The peer 4 sends an invalid signature at time 100, then the node hears from it and another.
banned : (report_offense 100 4 invalid_signature no_peers).1 ≡ true
unfolding run_network
banned = refl

abbrev later_calls : List (ℕ × Call ℕ)
later_calls = (200, gossip 4) ∷ (300, trust 5) ∷ (7100, offense 4 invalid_signature) ∷ []

ban_lasts_example :
    (is_trusted 7299 4 (run later_calls (report_offense 100 4 invalid_signature no_peers).0)).1
    ≡ false
unfolding lookup
ban_lasts_example =
    ban_lasts 100 7299 4 invalid_signature later_calls no_peers tt banned (omega arith)
      (omega arith, (omega arith, (omega arith, tt))) (omega arith)

run-standing_example :
    (standing (lookup 4 (run later_calls no_peers)) ≤ℤ pos 100)
    × FallsBy
        (penalties 4 later_calls)
        (standing (lookup 4 no_peers))
        (standing (lookup 4 (run later_calls no_peers)))
unfolding lookup
run-standing_example = run-standing later_calls 0 4 no_peers (omega arith) (λ j. tt)

issued-le-max_supply_example : issued 1_000_000 ≤ max_supply
issued-le-max_supply_example = issued-le-max_supply 1_000_000
