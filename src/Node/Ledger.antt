-- ===== src/Node/Ledger.antt =====
-- src/main.rs: what a turn of the consensus thread changes.
use quantum_btc.Prelude.{
  ℕ, ◌≡◌, ◌⊎◌, refl, true, false, Bool, Bool-cases, beq, if◌then◌else◌, Result, [], ◌∷◌, ◌&&◌, ltb,
  leb, ◌-◌, List, Eq, inl, inr, ok, err, arith,
}
use quantum_btc.Crypto.Primitives.{Primitives}
use quantum_btc.Block.{Block}
use quantum_btc.Utxo.Data.{UtxoError}
use quantum_btc.Utxo.Process.{process_block}
use quantum_btc.Network.Reputation.{
  ReputationManager, report_offense, NetworkOffense, invalid_header, malformed_data,
}
use quantum_btc.Storage.Database.{Database}
use quantum_btc.Storage.Vault.{MemoryVault}
use quantum_btc.Storage.Orphans.{add_orphan_block, evict_orphan}
use quantum_btc.Node.State.{Node, Setting, Signal, wake_miner}
use quantum_btc.Node.Inspect.{
  Rejection, orphan_block, too_far_ahead, checkpoint_violation, time_warp, too_large,
  witness_mismatch, proof_of_work_failed, merkle_mismatch, is_err, inspect, incoming_height,
  current_height,
}
use quantum_btc.Node.Reject.{divert, punish, reject}
use quantum_btc.Node.Receive.{extend, receive, max_reorg_depth}

add_orphan_block-chains :
    (c : Primitives) (block : Block) (v : MemoryVault)
    → let after = (add_orphan_block c block v).1 in
      (after.active_chain ≡ v.active_chain)
      × (after.header_chain ≡ v.header_chain)
      × (after.map_block_index ≡ v.map_block_index)
unfolding add_orphan_block evict_orphan
add_orphan_block-chains c block v = ground arith

Outcome-cases : {E A : Type 0} (r : Result E A) → ((x : E) × (r ≡ err x)) ⊎ ((a : A) × (r ≡ ok a))
Outcome-cases (ok a) = inr (a, refl)
Outcome-cases (err x) = inl (x, refl)

module _ (d : Database) {PeerId : Type 0} where
  -- The chain, what stands on disk, the outputs, the mempool and the target are the same.
  pub record IsUntouched (before after : Node d.Db PeerId) : Type 0 where
    same_tip : after.latest_block ≡ before.latest_block
    same_disk : after.storage.db ≡ before.storage.db
    same_chain : after.storage.vault.active_chain ≡ before.storage.vault.active_chain
    same_headers : after.storage.vault.header_chain ≡ before.storage.vault.header_chain
    same_index : after.storage.vault.map_block_index ≡ before.storage.vault.map_block_index
    same_outputs : after.utxo ≡ before.utxo
    same_mempool : after.mempool ≡ before.mempool
    same_cache : after.block_relay_cache ≡ before.block_relay_cache
    same_target : after.target ≡ before.target

  scored :
      (reputation : ReputationManager PeerId) (node : Node d.Db PeerId)
      → IsUntouched node (record node { reputation = reputation })
  scored reputation node = record {
    same_tip = refl;
    same_disk = refl;
    same_chain = refl;
    same_headers = refl;
    same_index = refl;
    same_outputs = refl;
    same_mempool = refl;
    same_cache = refl;
    same_target = refl;
  }

  unchanged : (node : Node d.Db PeerId) → IsUntouched node node
  unchanged node = scored node.reputation node

module _ (c : Primitives) (d : Database) {PeerId : Type 0} ⦃e : Eq PeerId⦄ where
  divert-IsUntouched :
      (setting : Setting d.Db PeerId) (sender : PeerId) (block : Block) (node : Node d.Db PeerId)
      → IsUntouched d node (divert c d setting sender block node).0
  divert-IsUntouched setting sender block node =
      let (chain, headers, index) = add_orphan_block-chains c block node.storage.vault in
      record {
        same_tip = refl;
        same_disk = refl;
        same_chain = chain;
        same_headers = headers;
        same_index = index;
        same_outputs = refl;
        same_mempool = refl;
        same_cache = refl;
        same_target = refl;
      }

  punished :
      (setting : Setting d.Db PeerId) (now : ℕ) (sender : PeerId) (offense : NetworkOffense)
      (always : Bool) (signals : List (Signal PeerId)) (node : Node d.Db PeerId)
      → IsUntouched d node
          (if beq sender setting.local_peer_id
            then (node, signals)
            else punish c d now sender offense always node).0
  punished setting now sender offense always signals node =
      elim (Bool-cases (beq sender setting.local_peer_id)) [
        | inl own ↦ rw own (unchanged d node)
        | inr foreign ↦
            rw foreign (scored d (report_offense now sender offense node.reputation).0 node)
      ]

  reject-IsUntouched :
      (setting : Setting d.Db PeerId) (now : ℕ) (sender : PeerId) (block : Block)
      (reason : Rejection) (node : Node d.Db PeerId)
      → IsUntouched d node (reject c d setting now sender block reason node).0
  unfolding reject
  reject-IsUntouched setting now sender block orphan_block node =
      divert-IsUntouched setting sender block node
  reject-IsUntouched setting now sender block too_far_ahead node =
      punished setting now sender invalid_header false [] node
  reject-IsUntouched setting now sender block checkpoint_violation node =
      punished setting now sender invalid_header false [] node
  reject-IsUntouched setting now sender block time_warp node = unchanged d node
  reject-IsUntouched setting now sender block too_large node =
      punished setting now sender malformed_data false (wake_miner ∷ []) node
  reject-IsUntouched setting now sender block witness_mismatch node = unchanged d node
  reject-IsUntouched setting now sender block proof_of_work_failed node =
      punished setting now sender invalid_header true (wake_miner ∷ []) node
  reject-IsUntouched setting now sender block merkle_mismatch node =
      punished setting now sender malformed_data true (wake_miner ∷ []) node

  module _ (setting : Setting d.Db PeerId) (now : ℕ) (sender : PeerId) (block : Block)
      (node : Node d.Db PeerId) where
    -- The UTXO set takes the block at its height.
    abbrev pub IsAccepted : Type 0
    IsAccepted =
        is_err
          (process_block c block.transactions (incoming_height node.storage.vault.active_chain)
            false node.utxo).0
        ≡ false

    -- The outputs that `process_block` leaves of a block that it rejects.
    untouched_outputs :
        (height : ℕ) (x : UtxoError)
        → (process_block c block.transactions height false node.utxo).0 ≡ err x
        → (process_block c block.transactions height false node.utxo).1 ≡ node.utxo
    unfolding process_block
    untouched_outputs height x failed = ground arith

    extend-IsUntouched :
        IsUntouched d node (extend c d setting now sender block node).0 ⊎ IsAccepted
    unfolding extend
    extend-IsUntouched =
        elim (Outcome-cases
          (process_block c block.transactions (incoming_height node.storage.vault.active_chain)
            false node.utxo).0) [
              | inl (reason, failed) ↦ inl (
                  rw
                    (
                      extend,
                      failed,
                      untouched_outputs (incoming_height node.storage.vault.active_chain) reason
                          failed,
                    )
                    (unchanged d node))
              | inr (log, accepted) ↦ inr (rw accepted refl)
            ]

    guarded-IsUntouched :
        (deep : Bool)
        → IsUntouched d node
            (if deep then extend c d setting now sender block node else (node, [])).0
          ⊎ IsAccepted
    guarded-IsUntouched true = extend-IsUntouched
    guarded-IsUntouched false = inl (unchanged d node)

    -- A block that fails a check or that the UTXO set does not accept changes neither the chain, nor
    -- the disk, the outputs, the mempool, the relay cache and the target, whoever sent it.
    pub receive-IsUntouched :
        IsUntouched d node (receive c d setting now sender block node).0
        ⊎ ((inspect c d setting now block node ≡ ok tt) × IsAccepted)
    unfolding receive
    receive-IsUntouched = elim (Outcome-cases (inspect c d setting now block node)) [
      | inl (reason, dropped) ↦
          inl (rw (receive, dropped) (reject-IsUntouched setting now sender block reason node))
      | inr (_, passed) ↦
          rw (receive, passed)
            (ground (
              arith,
              guarded-IsUntouched (
                  ltb (current_height node.storage.vault.active_chain)
                    (incoming_height node.storage.vault.active_chain)
                  && leb
                      (incoming_height node.storage.vault.active_chain
                        - current_height node.storage.vault.active_chain)
                      max_reorg_depth),
            ))
    ]
