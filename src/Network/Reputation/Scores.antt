-- ===== src/Network/Reputation/Scores.antt =====
-- src/network/reputation.rs: the range of the scores.
use native.Mathlib.Nat.{add-zero}
use quantum_btc.Prelude.{
  ℕ, ◌+◌, ◌*◌, ◌≤◌, ◌^◌, ◌≡◌, Option, none, some, List, [], ◌∷◌, arith, Eq, lookup, insert,
  lookup-insert, lookup-retain, length,
}
use quantum_btc.Prelude.Int.{pos, ◌+ℤ◌, ◌-ℤ◌, ◌≤ℤ◌, wrap, neg_part}
use quantum_btc.Network.Reputation.{
  PeerProfile, ReputationManager, NetworkOffense, timeout, offend, gossip_reward, sync_reward,
  touched, or_fresh, enforce_capacity_limit, update_activity, update_profile, is_trusted,
  report_offense, reward_gossip, reward_sync_success, get_score, Call, trust, offense, gossip,
  sync_success, score_of, run_call, run, fresh_profile,
}

-- A score between `-room` and the initial trust.
abbrev pub IsInRange : ℕ → PeerProfile → Type 0
IsInRange room p = (p.score ≤ℤ pos 100) × (neg_part p.score ≤ room)

abbrev pub InRange : ℕ → Option PeerProfile → Type 0
InRange room none = Unit
InRange room (some p) = IsInRange room p

offend-IsInRange :
    (room : ℕ) (o : NetworkOffense) (p : PeerProfile)
    → room + 100 ≤ 2 ^ 31
    → IsInRange room p
    → IsInRange (room + 100) (offend o p)
unfolding wrap ◌-ℤ◌ ◌+ℤ◌
offend-IsInRange room timeout p fits b = ground arith
offend-IsInRange room _ p fits b = ground arith

gossip_reward-IsInRange :
    (room : ℕ) (p : PeerProfile) → IsInRange room p → IsInRange (room + 100) (gossip_reward p)
unfolding ◌+ℤ◌
gossip_reward-IsInRange room p b = ground arith

sync_reward-IsInRange :
    (room : ℕ) (p : PeerProfile) → IsInRange room p → IsInRange (room + 100) (sync_reward p)
unfolding ◌+ℤ◌
sync_reward-IsInRange room p b = ground arith

pub touched-IsInRange :
    (room now : ℕ) (o : Option PeerProfile)
    → InRange room o
    → IsInRange room (touched now (or_fresh now o))
touched-IsInRange room now o b = ground arith

wider : (room : ℕ) (p : PeerProfile) → IsInRange room p → IsInRange (room + 100) p
wider room p b = ground arith

wider? : (room : ℕ) (o : Option PeerProfile) → InRange room o → InRange (room + 100) o
wider? room o b = ground arith

module _ {PeerId : Type 0} ⦃e : Eq PeerId⦄ (room : ℕ) where
  pub enforce-InRange :
      (now : ℕ) (k : PeerId) (m : ReputationManager PeerId)
      → InRange room (lookup k m)
      → InRange room (lookup k (enforce_capacity_limit now m))
  unfolding enforce_capacity_limit
  enforce-InRange now k m b = grind (arith, lookup-retain)

  update_profile-InRange :
      (f : PeerProfile → PeerProfile) (now : ℕ) (q k : PeerId) (m : ReputationManager PeerId)
      → ((p : PeerProfile) → IsInRange room p → IsInRange (room + 100) (f p))
      → ((j : PeerId) → InRange room (lookup j m))
      → InRange (room + 100) (lookup k (update_profile f now q m).0)
  unfolding update_activity
  update_profile-InRange f now q k m keep b =
      let kept = enforce_capacity_limit now m in
      let p = touched now (or_fresh now (lookup q kept)) in
      ground (
        arith,
        keep p (touched-IsInRange room now (lookup q kept) (enforce-InRange now q m (b q))),
        lookup-insert q k (f p) (insert q p kept),
        lookup-insert q k p kept,
        wider? room (lookup k kept) (enforce-InRange now k m (b k)),
      )

  update_activity-InRange :
      (now : ℕ) (q k : PeerId) (m : ReputationManager PeerId)
      → ((j : PeerId) → InRange room (lookup j m))
      → InRange (room + 100) (lookup k (update_activity now q m).0)
  unfolding update_activity
  update_activity-InRange now q k m b =
      let kept = enforce_capacity_limit now m in
      let p = touched now (or_fresh now (lookup q kept)) in
      ground (
        arith,
        wider room p (touched-IsInRange room now (lookup q kept) (enforce-InRange now q m (b q))),
        lookup-insert q k p kept,
        wider? room (lookup k kept) (enforce-InRange now k m (b k)),
      )

  is_trusted-InRange :
      (now : ℕ) (q k : PeerId) (m : ReputationManager PeerId)
      → ((j : PeerId) → InRange room (lookup j m))
      → InRange (room + 100) (lookup k (is_trusted now q m).0)
  unfolding is_trusted
  is_trusted-InRange now q k m b = ground (
    arith,
    update_activity-InRange now q k m b,
    wider? room (lookup k m) (b k),
    lookup-insert q k (fresh_profile now) m,
  )

  pub run_call-InRange :
      (now : ℕ) (c : Call PeerId) (k : PeerId) (m : ReputationManager PeerId)
      → room + 100 ≤ 2 ^ 31
      → ((j : PeerId) → InRange room (lookup j m))
      → InRange (room + 100) (lookup k (run_call now c m))
  unfolding run_call report_offense reward_gossip reward_sync_success get_score
  run_call-InRange now (trust q) k m fits b = is_trusted-InRange now q k m b
  run_call-InRange now (offense q o) k m fits b =
      update_profile-InRange (offend o) now q k m (λ p. offend-IsInRange room o p fits) b
  run_call-InRange now (gossip q) k m fits b =
      update_profile-InRange gossip_reward now q k m (gossip_reward-IsInRange room) b
  run_call-InRange now (sync_success q) k m fits b =
      update_profile-InRange sync_reward now q k m (sync_reward-IsInRange room) b
  run_call-InRange now (score_of q) k m fits b = update_activity-InRange now q k m b

module _ {PeerId : Type 0} ⦃e : Eq PeerId⦄ where
  -- From scores between `-room` and the initial trust of 100, whatever `n` calls are made, every score
  -- stays between `-room - 100 n` and 100; as long as that lower bound is not below the least `i32`.
  pub run-InRange :
      (calls : List (ℕ × Call PeerId)) (room : ℕ) (k : PeerId) (m : ReputationManager PeerId)
      → room + 100 * length calls ≤ 2 ^ 31
      → ((j : PeerId) → InRange room (lookup j m))
      → InRange (room + 100 * length calls) (lookup k (run calls m))
  unfolding run
  run-InRange [] room k m fits b = rw add-zero (b k)
  run-InRange ((now, c) ∷ calls) room k m fits b =
      let regroup : room + 100 * length ((now, c) ∷ calls) ≡ room + 100 + 100 * length calls =
        omega arith in
      rw regroup (
        run-InRange calls (room + 100) k (run_call now c m) (omega arith)
          (λ j. run_call-InRange room now c j m (omega arith) b))
