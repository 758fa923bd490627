-- ===== src/Network/SyncDebouncer/Backoff.antt =====
-- src/network/sync_manager.rs: when a peer is banned, whatever is reported of other peers.
use native.Mathlib.Nat.{pow-le-pow_right}
use quantum_btc.Prelude.{
  inl, inr, Bool-cases, ℕ, ◌+◌, ◌-◌, ◌^◌, ◌≤◌, ◌<◌, ◌≡◌, refl, Bool, false, some, List, [], ◌∷◌,
  length, arith, Eq, beq, beq_iff, beq_refl, lookup, lookup-insert, lookup-retain, nat_eq, u64_mod,
  ltb, if◌then◌else◌,
}
use quantum_btc.Network.SyncDebouncer.{
  SyncDebouncer, penalty_ms, or_default, strike, new_debouncer, is_peer_banned,
  report_peer_progress,
}

two_pos : 0 < 2
two_pos = omega arith

penalty_ms-small : (n : ℕ) → penalty_ms n ≤ 4_096_000
penalty_ms-small n = elim (Bool-cases (ltb 12 n)) [
  | inl long ↦ rw long (omega arith)
  | inr short ↦
      let few : 2 ^ n ≤ 2 ^ 12 = pow-le-pow_right two_pos {j = 12} (ground arith) in
      rw short (omega arith)
]

module _ {PeerId : Type 0} ⦃e : Eq PeerId⦄ where
  -- Reports of a peer, with or without progress, each at its time, the oldest first.
  abbrev pub run_reports : List (PeerId × (Bool × ℕ)) → SyncDebouncer PeerId → SyncDebouncer PeerId
  run_reports [] d = d
  run_reports ((q, (progress, t)) ∷ reports) d =
      run_reports reports (report_peer_progress q progress t d)

  -- The reports of `k` without progress since the last one with progress, after `n` earlier ones.
  abbrev pub misses : PeerId → List (PeerId × (Bool × ℕ)) → ℕ → ℕ
  misses k [] n = n
  misses k ((q, (progress, _)) ∷ reports) n =
      misses k reports (if beq q k then (if progress then 0 else n + 1) else n)

  misses-le :
      (k : PeerId) (reports : List (PeerId × (Bool × ℕ))) (n : ℕ)
      → misses k reports n ≤ n + length reports
  misses-le k [] n = omega arith
  misses-le k ((q, (progress, t)) ∷ reports) n =
      let step = if beq q k then (if progress then 0 else n + 1) else n in
      let least : step ≤ n + 1 = ground arith in omega (arith, misses-le k reports step, least)

  abbrev strikes_of : PeerId → SyncDebouncer PeerId → ℕ
  strikes_of k d = (or_default (lookup k d.peer_states)).strikes

  report-strikes :
      (k q : PeerId) (progress : Bool) (t : ℕ) (d : SyncDebouncer PeerId)
      → strikes_of k d + 1 < 2 ^ 32
      → strikes_of k (report_peer_progress q progress t d)
        ≡ (if beq q k then (if progress then 0 else strikes_of k d + 1) else strikes_of k d)
  unfolding report_peer_progress
  report-strikes k q progress t d small = grind (arith, lookup-insert, lookup-retain, beq_iff q k)

  run_reports-strikes :
      (k : PeerId) (reports : List (PeerId × (Bool × ℕ))) (d : SyncDebouncer PeerId)
      → strikes_of k d + length reports < 2 ^ 32
      → strikes_of k (run_reports reports d) ≡ misses k reports (strikes_of k d)
  run_reports-strikes k [] d small = refl
  run_reports-strikes k ((q, (progress, t)) ∷ reports) d small =
      let step = report-strikes k q progress t d (omega arith) in
      let least : (if beq q k then (if progress then 0 else strikes_of k d + 1) else strikes_of k d)
          ≤ strikes_of k d + 1 =
        ground arith in
      rw step at (run_reports-strikes k reports (report_peer_progress q progress t d) (omega arith))

  report-state :
      (k : PeerId) (t : ℕ) (d : SyncDebouncer PeerId)
      → 2 ≤ strikes_of k d
      → lookup k (report_peer_progress k false t d).peer_states
        ≡ some (strike t (or_default (lookup k d.peer_states)))
  unfolding report_peer_progress
  report-state k t d struck = grind (arith, lookup-insert, lookup-retain, beq_refl k)

  banned_until :
      (k : PeerId) (t now : ℕ) (d : SyncDebouncer PeerId)
      → 2 ≤ strikes_of k d
      → strikes_of k d + 1 < 2 ^ 32
      → t + 4_096_000 < u64_mod
      → is_peer_banned k now (report_peer_progress k false t d)
        ≡ ltb now (t + penalty_ms (strikes_of k d - 2))
  unfolding is_peer_banned
  banned_until k t now d struck small fits =
      ground (arith, report-state k t d struck, penalty_ms-small (strikes_of k d - 2))

  -- After any reports about any peers, a report without progress that is at least the third in a
  -- row for a peer bans it until the penalty of that number has passed since, and no longer: 1000
  -- ms for the third, twice as much for each one more up to the fifteenth, then an hour. For fewer
  -- than 2^32 reports and times that do not reach 2^64.
  pub banned_by_backoff :
      (ttl t now : ℕ) (k : PeerId) (reports : List (PeerId × (Bool × ℕ)))
      → length reports + 1 < 2 ^ 32
      → 2 ≤ misses k reports 0
      → t + 4_096_000 < u64_mod
      → is_peer_banned k now
          (report_peer_progress k false t (run_reports reports (new_debouncer ttl)))
        ≡ ltb now (t + penalty_ms (misses k reports 0 - 2))
  unfolding lookup
  banned_by_backoff ttl t now k reports few struck fits =
      let counted = run_reports-strikes k reports (new_debouncer ttl) (omega arith) in
      rw counted at (
        banned_until k t now (run_reports reports (new_debouncer ttl)) (omega (arith, counted))
          (omega (arith, counted, misses-le k reports 0)) fits)
