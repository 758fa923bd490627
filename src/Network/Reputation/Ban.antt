-- ===== src/Network/Reputation/Ban.antt =====
-- src/network/reputation.rs: a ban lasts its two hours, whatever else happens.
use native.Mathlib.Nat.{add-zero}
use quantum_btc.Prelude.{
  ℕ, ◌+◌, ◌*◌, ◌≤◌, ◌<◌, ◌^◌, ◌≡◌, Option, none, some, true, false, List, [], ◌∷◌, arith, Eq, beq,
  beq_iff, beq_refl, lookup, lookup-insert, lookup-retain, length, All, Bool-cases, inl, inr,
}
use quantum_btc.Prelude.Int.{pos, ◌+ℤ◌, ◌-ℤ◌, ◌≤ℤ◌, leb_ℤ, wrap, neg_part}
use quantum_btc.Network.Reputation.{
  PeerProfile, ReputationManager, NetworkOffense, timeout, offend, gossip_reward, sync_reward,
  touched, or_fresh, enforce_capacity_limit, update_activity, update_profile, is_trusted,
  report_offense, reward_gossip, reward_sync_success, get_score, Call, trust, offense, gossip,
  sync_success, score_of, run_call, run, ban_seconds,
}

-- The record of a peer banned at time `since`, with a score of at least `-room`.
abbrev pub IsBanned : ℕ → ℕ → Option PeerProfile → Type 0
IsBanned since room none = ⊥
IsBanned since room (some p) =
    (p.score ≤ℤ pos 0) × (neg_part p.score ≤ room) × (p.last_active ≡ since)

offend-IsBanned :
    (since room : ℕ) (o : NetworkOffense) (p : PeerProfile)
    → room + 100 ≤ 2 ^ 31
    → IsBanned since room (some p)
    → IsBanned since (room + 100) (some (offend o p))
unfolding wrap ◌-ℤ◌ ◌+ℤ◌
offend-IsBanned since room timeout p fits b = ground arith
offend-IsBanned since room _ p fits b = ground arith

gossip_reward-IsBanned :
    (since room : ℕ) (p : PeerProfile)
    → IsBanned since room (some p)
    → IsBanned since (room + 100) (some (gossip_reward p))
gossip_reward-IsBanned since room p b = ground arith

sync_reward-IsBanned :
    (since room : ℕ) (p : PeerProfile)
    → IsBanned since room (some p)
    → IsBanned since (room + 100) (some (sync_reward p))
sync_reward-IsBanned since room p b = ground arith

-- Unknown, or with a score from 1 to the initial trust.
abbrev pub InGoodStanding : Option PeerProfile → Type 0
InGoodStanding none = Unit
InGoodStanding (some p) = (pos 1 ≤ℤ p.score) × (p.score ≤ℤ pos 100)

touched-good :
    (now : ℕ) (o : Option PeerProfile)
    → InGoodStanding o
    → let p = touched now (or_fresh now o) in
      (pos 1 ≤ℤ p.score) × (p.score ≤ℤ pos 100) × (p.last_active ≡ now)
touched-good now o g = ground arith

offend-bans :
    (now : ℕ) (o : NetworkOffense) (p : PeerProfile)
    → (pos 1 ≤ℤ p.score) × (p.score ≤ℤ pos 100) × (p.last_active ≡ now)
    → leb_ℤ (offend o p).score (pos 0) ≡ true
    → IsBanned now 100 (some (offend o p))
unfolding wrap ◌-ℤ◌ ◌+ℤ◌
offend-bans now timeout p g banned = ground arith
offend-bans now _ p g banned = ground arith

weaken :
    (since room : ℕ) (o : Option PeerProfile)
    → IsBanned since room o
    → IsBanned since (room + 100) o
weaken since room o b = ground arith

module _ {PeerId : Type 0} ⦃e : Eq PeerId⦄ (since room : ℕ) (k : PeerId) where
  -- The capacity limit drops no ban that is still running.
  lookup-enforce_capacity_limit :
      (now : ℕ) (m : ReputationManager PeerId)
      → IsBanned since room (lookup k m)
      → now < since + ban_seconds
      → lookup k (enforce_capacity_limit now m) ≡ lookup k m
  unfolding enforce_capacity_limit
  lookup-enforce_capacity_limit now m b early = grind (arith, lookup-retain)

  update_activity-IsBanned :
      (now : ℕ) (q : PeerId) (m : ReputationManager PeerId)
      → IsBanned since room (lookup k m)
      → now < since + ban_seconds
      → IsBanned since room (lookup k (update_activity now q m).0)
  unfolding update_activity
  update_activity-IsBanned now q m b early = ground (
    arith,
    lookup-enforce_capacity_limit now m b early,
    lookup-insert q k (touched now (or_fresh now (lookup q (enforce_capacity_limit now m))))
        (enforce_capacity_limit now m),
    beq_iff q k,
  )

  -- The profile that a call on the banned peer itself goes on to change.
  update_activity-profile :
      (now : ℕ) (q : PeerId) (m : ReputationManager PeerId)
      → beq q k ≡ true
      → IsBanned since room (lookup k m)
      → now < since + ban_seconds
      → IsBanned since room (some (update_activity now q m).1)
  unfolding update_activity
  update_activity-profile now q m same b early =
      ground (arith, lookup-enforce_capacity_limit now m b early, beq_iff q k)

  is_trusted-IsBanned :
      (now : ℕ) (q : PeerId) (m : ReputationManager PeerId)
      → IsBanned since room (lookup k m)
      → now < since + ban_seconds
      → IsBanned since room (lookup k (is_trusted now q m).0)
  unfolding is_trusted
  is_trusted-IsBanned now q m b early =
      grind (arith, update_activity-IsBanned now q m b early, lookup-insert, beq_iff q k)

  is_trusted-banned :
      (now : ℕ) (m : ReputationManager PeerId)
      → IsBanned since room (lookup k m)
      → now < since + ban_seconds
      → (is_trusted now k m).1 ≡ false
  unfolding is_trusted
  is_trusted-banned now m b early = ground arith

  update_profile-IsBanned :
      (f : PeerProfile → PeerProfile) (now : ℕ) (q : PeerId) (m : ReputationManager PeerId)
      → ((p : PeerProfile)
          → IsBanned since room (some p)
          → IsBanned since (room + 100) (some (f p)))
      → IsBanned since room (lookup k m)
      → now < since + ban_seconds
      → IsBanned since (room + 100) (lookup k (update_profile f now q m).0)
  update_profile-IsBanned f now q m keep b early = elim (Bool-cases (beq q k)) [
    | inl same ↦
        rw (lookup-insert, same)
          (keep (update_activity now q m).1 (update_activity-profile now q m same b early))
    | inr other ↦
        rw (lookup-insert, other)
          (weaken since room (lookup k (update_activity now q m).0)
            (update_activity-IsBanned now q m b early))
  ]

  run_call-IsBanned :
      (now : ℕ) (c : Call PeerId) (m : ReputationManager PeerId)
      → room + 100 ≤ 2 ^ 31
      → IsBanned since room (lookup k m)
      → now < since + ban_seconds
      → IsBanned since (room + 100) (lookup k (run_call now c m))
  unfolding run_call report_offense reward_gossip reward_sync_success get_score
  run_call-IsBanned now (trust q) m fits b early =
      weaken since room (lookup k (is_trusted now q m).0) (is_trusted-IsBanned now q m b early)
  run_call-IsBanned now (offense q o) m fits b early =
      update_profile-IsBanned (offend o) now q m (λ p. offend-IsBanned since room o p fits) b early
  run_call-IsBanned now (gossip q) m fits b early =
      update_profile-IsBanned gossip_reward now q m (λ p. gossip_reward-IsBanned since room p) b
        early
  run_call-IsBanned now (sync_success q) m fits b early =
      update_profile-IsBanned sync_reward now q m (λ p. sync_reward-IsBanned since room p) b early
  run_call-IsBanned now (score_of q) m fits b early =
      weaken since room (lookup k (update_activity now q m).0)
        (update_activity-IsBanned now q m b early)

module _ {PeerId : Type 0} ⦃e : Eq PeerId⦄ where
  enforce-good :
      (now : ℕ) (k : PeerId) (m : ReputationManager PeerId)
      → InGoodStanding (lookup k m)
      → InGoodStanding (lookup k (enforce_capacity_limit now m))
  unfolding enforce_capacity_limit
  enforce-good now k m good = grind (arith, lookup-retain)

  run-IsBanned :
      (calls : List (ℕ × Call PeerId)) (since room : ℕ) (k : PeerId) (m : ReputationManager PeerId)
      → room + 100 * length calls ≤ 2 ^ 31
      → IsBanned since room (lookup k m)
      → All (λ c. c.0 < since + ban_seconds) calls
      → IsBanned since (room + 100 * length calls) (lookup k (run calls m))
  unfolding run
  run-IsBanned [] since room k m fits b early = rw add-zero b
  run-IsBanned ((now, c) ∷ calls) since room k m fits b early =
      let regroup : room + 100 * length ((now, c) ∷ calls) ≡ room + 100 + 100 * length calls =
        omega arith in
      rw regroup (
        run-IsBanned calls since (room + 100) k (run_call now c m) (omega arith)
          (run_call-IsBanned since room k now c m (omega arith) b early.0) early.1)

  ban_holds :
      (calls : List (ℕ × Call PeerId)) (since room now : ℕ) (k : PeerId)
      (m : ReputationManager PeerId)
      → IsBanned since room (lookup k m)
      → room + 100 * length calls ≤ 2 ^ 31
      → All (λ c. c.0 < since + ban_seconds) calls
      → now < since + ban_seconds
      → (is_trusted now k (run calls m)).1 ≡ false
  ban_holds calls since room now k m b fits early soon =
      is_trusted-banned since (room + 100 * length calls) k now (run calls m)
        (run-IsBanned calls since room k m fits b early) soon

  -- A peer above the threshold whose offense is reported as a ban is stored as banned since then.
  report_offense-IsBanned :
      (now : ℕ) (k : PeerId) (o : NetworkOffense) (m : ReputationManager PeerId)
      → InGoodStanding (lookup k (enforce_capacity_limit now m))
      → (report_offense now k o m).1 ≡ true
      → IsBanned now 100 (lookup k (report_offense now k o m).0)
  unfolding report_offense update_activity
  report_offense-IsBanned now k o m good banned =
      rw (lookup-insert, beq_refl k)
        (offend-bans now o (touched now (or_fresh now (lookup k (enforce_capacity_limit now m))))
          (touched-good now (lookup k (enforce_capacity_limit now m)) good) banned)

  -- An offense that `report_offense` answers with `true`, by a peer that is unknown or has a
  -- score from 1 to 100, bans it: from then on and for 7200 seconds `is_trusted` answers `false` for it, whatever calls
  -- about whatever peers are made in between, as long as these are at most 20 million.
  pub ban_lasts :
      (start now : ℕ) (k : PeerId) (o : NetworkOffense) (calls : List (ℕ × Call PeerId))
      (m : ReputationManager PeerId)
      → InGoodStanding (lookup k m)
      → (report_offense start k o m).1 ≡ true
      → length calls ≤ 20_000_000
      → All (λ c. c.0 < start + ban_seconds) calls
      → now < start + ban_seconds
      → (is_trusted now k (run calls (report_offense start k o m).0)).1 ≡ false
  ban_lasts start now k o calls m good banned few early soon =
      ban_holds calls start 100 now k (report_offense start k o m).0
        (report_offense-IsBanned start k o m (enforce-good start k m good) banned) (omega arith)
        early soon
