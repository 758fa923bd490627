-- ===== src/Network/Reputation.antt =====
-- src/network/reputation.rs: peer scores, bans and their expiry. Each call reads the clock once,
-- as `now`, in seconds.
pub mod Ban
pub mod Scores
pub mod Falls
use quantum_btc.Prelude.{
  ℕ, zero, suc, ◌+◌, ◌-◌, ◌%◌, ◌^◌, Bool, true, false, ◌||◌, Option, none, some, List, [], ◌∷◌, leb,
  ltb, Eq, HashMap, lookup, insert, retain, length, if◌then◌else◌,
}
use quantum_btc.Prelude.Int.{ℤ, pos, ◌+ℤ◌, ◌-ℤ◌, leb_ℤ, ltb_ℤ, wrap}

abbrev pub initial_trust : ℤ
initial_trust = pos 100

abbrev pub ban_threshold : ℤ
ban_threshold = pos 0

-- The penalties and the reward, in points.
abbrev pub penalty_invalid_header : ℕ
penalty_invalid_header = 50

abbrev pub penalty_malformed_data : ℕ
penalty_malformed_data = 20

abbrev pub penalty_timeout : ℕ
penalty_timeout = 10

abbrev pub penalty_invalid_sig : ℕ
penalty_invalid_sig = 100

abbrev pub penalty_slow_peer : ℕ
penalty_slow_peer = 100

abbrev pub reward_valid_block : ℕ
reward_valid_block = 5

abbrev pub max_profiles : ℕ
max_profiles = 8192

-- 2 hours, in seconds.
abbrev pub ban_seconds : ℕ
ban_seconds = 7200

pub record PeerProfile : Type 0 where
  pub score : ℤ
  pub consecutive_timeouts : ℕ
  pub last_active : ℕ

pub data NetworkOffense : Type 0 where
  timeout invalid_signature malformed_data invalid_header slow_peer : NetworkOffense

-- Subtraction of points, as `i32` wraps.
abbrev pub penalize : ℕ → PeerProfile → PeerProfile
penalize points p = record p { score = wrap (2 ^ 31) (p.score -ℤ pos points) }

abbrev pub offend : NetworkOffense → PeerProfile → PeerProfile
offend timeout p =
    let counted = record p { consecutive_timeouts = (p.consecutive_timeouts + 1) % 2 ^ 32 } in
    if ltb 3 counted.consecutive_timeouts then penalize penalty_timeout counted else counted
offend invalid_signature p = penalize penalty_invalid_sig p
offend malformed_data p = penalize penalty_malformed_data p
offend invalid_header p = penalize penalty_invalid_header p
offend slow_peer p = penalize penalty_slow_peer p

-- `(score + REWARD_VALID_BLOCK).min(INITIAL_TRUST)`, below the initial trust.
abbrev pub rewarded : PeerProfile → PeerProfile
rewarded p =
    let raised = p.score +ℤ pos reward_valid_block in
    record p { score = if leb_ℤ raised initial_trust then raised else initial_trust }

abbrev pub gossip_reward : PeerProfile → PeerProfile
gossip_reward p =
    if ltb_ℤ ban_threshold p.score
    then (if ltb_ℤ p.score initial_trust then rewarded p else p)
    else p

abbrev pub sync_reward : PeerProfile → PeerProfile
sync_reward p =
    if ltb_ℤ ban_threshold p.score
    then (let reset = record p { consecutive_timeouts = 0 } in
        if ltb_ℤ p.score initial_trust then rewarded reset else reset)
    else p

abbrev pub fresh_profile : ℕ → PeerProfile
fresh_profile now = record { score = initial_trust; consecutive_timeouts = 0; last_active = now }

-- Only the clock of a peer in good standing advances.
abbrev pub touched : ℕ → PeerProfile → PeerProfile
touched now p = if ltb_ℤ ban_threshold p.score then record p { last_active = now } else p

abbrev pub or_fresh : ℕ → Option PeerProfile → PeerProfile
or_fresh now none = fresh_profile now
or_fresh now (some p) = p

-- `ReputationManager`, with its one field.
abbrev pub ReputationManager : Type 0 → Type 0
ReputationManager PeerId = HashMap PeerId PeerProfile

module _ {PeerId : Type 0} ⦃e : Eq PeerId⦄ where
  unfoldable pub enforce_capacity_limit : ℕ → ReputationManager PeerId → ReputationManager PeerId
  enforce_capacity_limit now m =
      let kept = retain (λ _ p. leb_ℤ initial_trust p.score || leb_ℤ p.score ban_threshold) m in
      let unexpired =
        retain (λ _ p. ltb_ℤ ban_threshold p.score || ltb (now - p.last_active) ban_seconds) kept in
      if leb (length m) max_profiles
      then m
      else if ltb max_profiles (length kept)
      then unexpired
      else kept

  -- The profile that the callers go on to change, and the table with it stored.
  unfoldable pub update_activity :
      ℕ → PeerId → ReputationManager PeerId → ReputationManager PeerId × PeerProfile
  update_activity now peer_id m =
      let kept = enforce_capacity_limit now m in
      let profile = touched now (or_fresh now (lookup peer_id kept)) in
      (insert peer_id profile kept, profile)

  -- A change of the profile that `update_activity` lends out.
  abbrev pub update_profile :
      (PeerProfile → PeerProfile)
      → ℕ
      → PeerId
      → ReputationManager PeerId
      → ReputationManager PeerId × PeerProfile
  update_profile f now peer_id m =
      let (m', profile) = update_activity now peer_id m in
      let changed = f profile in (insert peer_id changed m', changed)

  abbrev trust_by_activity : ℕ → PeerId → ReputationManager PeerId → ReputationManager PeerId × Bool
  trust_by_activity now peer_id m =
      let (m', profile) = update_activity now peer_id m in (m', ltb_ℤ ban_threshold profile.score)

  abbrev trust_by :
      Option PeerProfile → ℕ → PeerId → ReputationManager PeerId → ReputationManager PeerId × Bool
  trust_by none now peer_id m = trust_by_activity now peer_id m
  trust_by (some p) now peer_id m =
      if leb_ℤ p.score ban_threshold
      then (if leb ban_seconds (now - p.last_active)
          then (insert peer_id (fresh_profile now) m, true)
          else (m, false))
      else trust_by_activity now peer_id m

  pub is_trusted : ℕ → PeerId → ReputationManager PeerId → ReputationManager PeerId × Bool
  is_trusted now peer_id m = trust_by (lookup peer_id m) now peer_id m

  -- `true` if the peer has reached the ban threshold.
  unfoldable pub report_offense :
      ℕ → PeerId → NetworkOffense → ReputationManager PeerId → ReputationManager PeerId × Bool
  report_offense now peer_id offense m =
      let (m', profile) = update_profile (offend offense) now peer_id m in
      (m', leb_ℤ profile.score ban_threshold)

  pub reward_gossip : ℕ → PeerId → ReputationManager PeerId → ReputationManager PeerId
  reward_gossip now peer_id m = (update_profile gossip_reward now peer_id m).0

  pub reward_sync_success : ℕ → PeerId → ReputationManager PeerId → ReputationManager PeerId
  reward_sync_success now peer_id m = (update_profile sync_reward now peer_id m).0

  pub get_score : ℕ → PeerId → ReputationManager PeerId → ReputationManager PeerId × ℤ
  get_score now peer_id m = let (m', profile) = update_activity now peer_id m in (m', profile.score)

-- The calls that the rest of the node makes.
pub data Call (PeerId : Type 0) : Type 0 where
  trust : PeerId → Call PeerId
  offense : PeerId → NetworkOffense → Call PeerId
  gossip : PeerId → Call PeerId
  sync_success : PeerId → Call PeerId
  score_of : PeerId → Call PeerId

module _ {PeerId : Type 0} ⦃e : Eq PeerId⦄ where
  pub run_call : ℕ → Call PeerId → ReputationManager PeerId → ReputationManager PeerId
  run_call now (trust q) m = (is_trusted now q m).0
  run_call now (offense q o) m = (report_offense now q o m).0
  run_call now (gossip q) m = reward_gossip now q m
  run_call now (sync_success q) m = reward_sync_success now q m
  run_call now (score_of q) m = (get_score now q m).0

  -- Calls in order, each at its time.
  pub run : List (ℕ × Call PeerId) → ReputationManager PeerId → ReputationManager PeerId
  run [] m = m
  run ((now, c) ∷ calls) m = run calls (run_call now c m)
