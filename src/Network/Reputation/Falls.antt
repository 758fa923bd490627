-- ===== src/Network/Reputation/Falls.antt =====
-- src/network/reputation.rs: how far calls lower a score.
use quantum_btc.Prelude.{
  ℕ, insert, beq_iff, ◌+◌, ◌*◌, ◌≤◌, ◌^◌, ◌≡◌, Option, none, some, List, [], ◌∷◌, arith, Eq, beq,
  lookup, lookup-insert, lookup-retain, length, if◌then◌else◌,
}
use quantum_btc.Prelude.Int.{ℤ, pos, ◌+ℤ◌, ◌-ℤ◌, ◌≤ℤ◌, wrap, pos_part, neg_part}
use quantum_btc.Network.Reputation.{
  PeerProfile, ReputationManager, NetworkOffense, timeout, invalid_signature, malformed_data,
  invalid_header, slow_peer, initial_trust, offend, gossip_reward, sync_reward, touched, or_fresh,
  enforce_capacity_limit, update_activity, update_profile, is_trusted, report_offense,
  reward_gossip, reward_sync_success, get_score, Call, trust, offense, gossip, sync_success,
  score_of, run_call, run, fresh_profile,
}
use quantum_btc.Network.Reputation.Scores.{
  IsInRange, InRange, touched-IsInRange, enforce-InRange, run_call-InRange, run-InRange,
}

-- A peer without a profile starts with the initial trust.
abbrev pub standing : Option PeerProfile → ℤ
standing none = initial_trust
standing (some p) = p.score

-- The points of an offense.
abbrev pub points : NetworkOffense → ℕ
points timeout = 10
points invalid_signature = 100
points malformed_data = 20
points invalid_header = 50
points slow_peer = 100

-- The second score is at most so many points below the first.
abbrev pub FallsBy : ℕ → ℤ → ℤ → Type 0
FallsBy n before after = pos_part before + neg_part after ≤ pos_part after + neg_part before + n

offend-FallsBy :
    (room : ℕ) (o : NetworkOffense) (p : PeerProfile)
    → room + 100 ≤ 2 ^ 31
    → IsInRange room p
    → FallsBy (points o) p.score (offend o p).score
unfolding wrap ◌-ℤ◌ ◌+ℤ◌
offend-FallsBy room timeout p fits b = ground arith
offend-FallsBy room invalid_signature p fits b = ground arith
offend-FallsBy room malformed_data p fits b = ground arith
offend-FallsBy room invalid_header p fits b = ground arith
offend-FallsBy room slow_peer p fits b = ground arith

gossip_reward-FallsBy :
    (room : ℕ) (p : PeerProfile) → IsInRange room p → FallsBy 0 p.score (gossip_reward p).score
unfolding ◌+ℤ◌
gossip_reward-FallsBy room p b = ground arith

sync_reward-FallsBy :
    (room : ℕ) (p : PeerProfile) → IsInRange room p → FallsBy 0 p.score (sync_reward p).score
unfolding ◌+ℤ◌
sync_reward-FallsBy room p b = ground arith

touched-score :
    (now : ℕ) (o : Option PeerProfile) → (touched now (or_fresh now o)).score ≡ standing o
touched-score now none = ground arith
touched-score now (some p) = ground arith

standing-InRange : (room : ℕ) (o : Option PeerProfile) → InRange room o → standing o ≤ℤ pos 100
standing-InRange room o b = ground arith

module _ {PeerId : Type 0} ⦃e : Eq PeerId⦄ where
  -- The points of the offenses of a peer among some calls.
  abbrev pub penalty : PeerId → Call PeerId → ℕ
  penalty k (offense q o) = if beq q k then points o else 0
  penalty k _ = 0

  abbrev pub penalties : PeerId → List (ℕ × Call PeerId) → ℕ
  penalties k [] = 0
  penalties k ((_, call) ∷ calls) = penalty k call + penalties k calls

  module _ (room : ℕ) where
    enforce-FallsBy :
        (now : ℕ) (k : PeerId) (m : ReputationManager PeerId)
        → InRange room (lookup k m)
        → FallsBy 0 (standing (lookup k m)) (standing (lookup k (enforce_capacity_limit now m)))
    unfolding enforce_capacity_limit
    enforce-FallsBy now k m b = grind (arith, lookup-retain)

    update_profile-FallsBy :
        (n : ℕ) (f : PeerProfile → PeerProfile) (now : ℕ) (q k : PeerId)
        (m : ReputationManager PeerId)
        → ((p : PeerProfile) → IsInRange room p → FallsBy n p.score (f p).score)
        → ((j : PeerId) → InRange room (lookup j m))
        → FallsBy
            (if beq q k then n else 0)
            (standing (lookup k m))
            (standing (lookup k (update_profile f now q m).0))
    unfolding update_activity
    update_profile-FallsBy n f now q k m falls b =
        let kept = enforce_capacity_limit now m in
        let p = touched now (or_fresh now (lookup q kept)) in
        ground (
          arith,
          falls p (touched-IsInRange room now (lookup q kept) (enforce-InRange room now q m (b q))),
          touched-score now (lookup q kept),
          lookup-insert q k (f p) (insert q p kept),
          lookup-insert q k p kept,
          enforce-FallsBy now k m (b k),
          beq_iff q k,
        )

    update_activity-FallsBy :
        (now : ℕ) (q k : PeerId) (m : ReputationManager PeerId)
        → ((j : PeerId) → InRange room (lookup j m))
        → FallsBy 0 (standing (lookup k m)) (standing (lookup k (update_activity now q m).0))
    unfolding update_activity
    update_activity-FallsBy now q k m b =
        let kept = enforce_capacity_limit now m in
        let p = touched now (or_fresh now (lookup q kept)) in
        ground (
          arith,
          touched-score now (lookup q kept),
          lookup-insert q k p kept,
          enforce-FallsBy now k m (b k),
          beq_iff q k,
        )

    is_trusted-FallsBy :
        (now : ℕ) (q k : PeerId) (m : ReputationManager PeerId)
        → ((j : PeerId) → InRange room (lookup j m))
        → FallsBy 0 (standing (lookup k m)) (standing (lookup k (is_trusted now q m).0))
    unfolding is_trusted
    is_trusted-FallsBy now q k m b =
        ground
          (arith, update_activity-FallsBy now q k m b, b k, lookup-insert q k (fresh_profile now) m)

    run_call-FallsBy :
        (now : ℕ) (c : Call PeerId) (k : PeerId) (m : ReputationManager PeerId)
        → room + 100 ≤ 2 ^ 31
        → ((j : PeerId) → InRange room (lookup j m))
        → FallsBy (penalty k c) (standing (lookup k m)) (standing (lookup k (run_call now c m)))
    unfolding run_call report_offense reward_gossip reward_sync_success get_score
    run_call-FallsBy now (trust q) k m fits b = is_trusted-FallsBy now q k m b
    run_call-FallsBy now (offense q o) k m fits b =
        update_profile-FallsBy (points o) (offend o) now q k m (λ p. offend-FallsBy room o p fits) b
    run_call-FallsBy now (gossip q) k m fits b =
        ground
          (arith, update_profile-FallsBy 0 gossip_reward now q k m (gossip_reward-FallsBy room) b)
    run_call-FallsBy now (sync_success q) k m fits b =
        ground (arith, update_profile-FallsBy 0 sync_reward now q k m (sync_reward-FallsBy room) b)
    run_call-FallsBy now (score_of q) k m fits b = update_activity-FallsBy now q k m b

  run-FallsBy :
      (calls : List (ℕ × Call PeerId)) (room : ℕ) (k : PeerId) (m : ReputationManager PeerId)
      → room + 100 * length calls ≤ 2 ^ 31
      → ((j : PeerId) → InRange room (lookup j m))
      → FallsBy (penalties k calls) (standing (lookup k m)) (standing (lookup k (run calls m)))
  unfolding run
  run-FallsBy [] room k m fits b = omega arith
  run-FallsBy ((now, c) ∷ calls) room k m fits b =
      let first = run_call-FallsBy room now c k m (omega arith) b in
      let rest =
        run-FallsBy calls (room + 100) k (run_call now c m) (omega arith)
          (λ j. run_call-InRange room now c j m (omega arith) b) in
      omega (arith, first, rest)

  -- Whatever calls are made, the score of a peer is at most the initial trust of 100, and
  -- falls by at most the points of the offenses that are reported of that peer: 10 for a timeout, 20
  -- for malformed data, 50 for a header, 100 for a signature or a slow peer. A peer without a profile
  -- counts as one of score 100. The scores are from `-room` to 100 before the calls, and 100 points
  -- a call cannot pass the least `i32` from there.
  pub run-standing :
      (calls : List (ℕ × Call PeerId)) (room : ℕ) (k : PeerId) (m : ReputationManager PeerId)
      → room + 100 * length calls ≤ 2 ^ 31
      → ((j : PeerId) → InRange room (lookup j m))
      → (standing (lookup k (run calls m)) ≤ℤ pos 100)
        × FallsBy (penalties k calls) (standing (lookup k m)) (standing (lookup k (run calls m)))
  run-standing calls room k m fits b = (
    standing-InRange (room + 100 * length calls) (lookup k (run calls m))
        (run-InRange calls room k m fits b),
    run-FallsBy calls room k m fits b,
  )
