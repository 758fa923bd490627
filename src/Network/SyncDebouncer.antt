-- ===== src/Network/SyncDebouncer.antt =====
-- src/network/sync_manager.rs: duplicate requests are held back, and peers without progress are
-- banned for a growing time. The virtual clock is an argument, in milliseconds.
pub mod Backoff
use quantum_btc.Prelude.{
  ℕ, suc, ◌+◌, ◌-◌, ◌*◌, ◌%◌, ◌^◌, Bool, true, false, not, ◌&&◌, ◌||◌, Option, none, some, List, [],
  length, Hash, Eq, nat_eq, HashMap, lookup, insert, retain, contains_key, u64_mod, leb, ltb,
  if◌then◌else◌,
}

pub record PeerState : Type 0 where
  pub strikes : ℕ
  pub banned_until_vtime : ℕ

pub record SyncDebouncer (PeerId : Type 0) : Type 0 where
  pub in_flight : HashMap Hash ℕ
  pub peer_states : HashMap PeerId PeerState
  pub ttl_ms : ℕ

abbrev pub max_in_flight : ℕ
max_in_flight = 20_000

abbrev pub max_peer_states : ℕ
max_peer_states = 4_096

-- `current_vtime < req_time + ttl`
abbrev pub is_alive : ℕ → ℕ → ℕ → Bool
is_alive current_vtime ttl req_time = ltb current_vtime ((req_time + ttl) % u64_mod)

-- `(1 << exponent) * 1000` on `i32`, for an exponent up to 12.
abbrev pub penalty_ms : ℕ → ℕ
penalty_ms exponent = if ltb 12 exponent then 3_600_000 else 2 ^ exponent * 1000

abbrev pub default_state : PeerState
default_state = record { strikes = 0; banned_until_vtime = 0 }

-- A strike more; from the third on, a ban.
abbrev pub strike : ℕ → PeerState → PeerState
strike current_vtime state =
    let strikes = (state.strikes + 1) % 2 ^ 32 in
    record {
      strikes = strikes;
      banned_until_vtime =
          if leb 3 strikes
          then (current_vtime + penalty_ms (strikes - 3)) % u64_mod
          else state.banned_until_vtime;
    }

abbrev pub or_default : Option PeerState → PeerState
or_default none = default_state
or_default (some state) = state

module _ {PeerId : Type 0} ⦃e : Eq PeerId⦄ where
  abbrev pub new_debouncer : ℕ → SyncDebouncer PeerId
  new_debouncer ttl_ms = record { in_flight = []; peer_states = []; ttl_ms = ttl_ms }

  unfoldable pub should_request : Hash → ℕ → SyncDebouncer PeerId → SyncDebouncer PeerId × Bool
  should_request hash current_vtime d =
      let in_flight =
        if leb max_in_flight (length d.in_flight)
        then retain (λ _ req_time. is_alive current_vtime d.ttl_ms req_time) d.in_flight
        else d.in_flight in
      let allowed : SyncDebouncer PeerId × Bool =
        (record d { in_flight = insert hash current_vtime in_flight }, true) in
      elim (lookup hash in_flight) [
        | none ↦ allowed
        | some req_time ↦
            if is_alive current_vtime d.ttl_ms req_time
            then (record d { in_flight = in_flight }, false)
            else allowed
      ]

  unfoldable pub is_peer_banned : PeerId → ℕ → SyncDebouncer PeerId → Bool
  is_peer_banned peer_id current_vtime d = elim (lookup peer_id d.peer_states) [
    | none ↦ false
    | some state ↦ ltb current_vtime state.banned_until_vtime
  ]

  unfoldable pub report_peer_progress :
      PeerId → Bool → ℕ → SyncDebouncer PeerId → SyncDebouncer PeerId
  report_peer_progress peer_id has_progress current_vtime d =
      let peer_states =
        if leb max_peer_states (length d.peer_states) && not (contains_key peer_id d.peer_states)
        then retain (λ _ s. ltb 0 s.strikes || ltb current_vtime s.banned_until_vtime) d.peer_states
        else d.peer_states in
      let state = or_default (lookup peer_id peer_states) in
      let state' =
        if has_progress then record state { strikes = 0 } else strike current_vtime state in
      record d { peer_states = insert peer_id state' peer_states }
