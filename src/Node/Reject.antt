-- ===== src/Node/Reject.antt =====
-- src/main.rs: what follows when the consensus thread drops a block: the quarantine of orphans, the
-- penalties of peers and the wake of the miner.
use quantum_btc.Prelude.{
  ℕ, Bool, true, false, List, [], ◌∷◌, ◌++◌, length, nat_eq, beq, Eq, if◌then◌else◌,
}
use quantum_btc.Crypto.Primitives.{Primitives}
use quantum_btc.Block.{Block}
use quantum_btc.Network.Reputation.{NetworkOffense, invalid_header, malformed_data, report_offense}
use quantum_btc.Storage.Database.{Database}
use quantum_btc.Storage.Orphans.{add_orphan_block}
use quantum_btc.Node.State.{Node, Setting, Signal, request_sync, ban_and_disconnect, wake_miner}
use quantum_btc.Node.Inspect.{
  Rejection, orphan_block, too_far_ahead, checkpoint_violation, time_warp, too_large,
  witness_mismatch, proof_of_work_failed, merkle_mismatch,
}

module _ (c : Primitives) (d : Database) {PeerId : Type 0} ⦃e : Eq PeerId⦄ where
  -- The locator of the source is not sent, and is left out.
  abbrev pub divert :
      Setting d.Db PeerId
      → PeerId
      → Block
      → Node d.Db PeerId
      → Node d.Db PeerId × List (Signal PeerId)
  divert setting sender block node =
      let (taken, vault) = add_orphan_block c block node.storage.vault in
      (
        record node { storage = record node.storage { vault = vault } },
        (if taken then request_sync (length vault.active_chain) sender ∷ [] else [])
            ++ (if beq sender setting.local_peer_id then wake_miner ∷ [] else []),
      )

  -- A peer's offence, after which it is disconnected if its score is used up, or in any case.
  abbrev pub punish :
      ℕ
      → PeerId
      → NetworkOffense
      → Bool
      → Node d.Db PeerId
      → Node d.Db PeerId × List (Signal PeerId)
  punish now sender offense always node =
      let (reputation, banned) = report_offense now sender offense node.reputation in
      (
        record node { reputation = reputation },
        (if always
            then ban_and_disconnect sender ∷ []
            else if banned
            then ban_and_disconnect sender ∷ []
            else []),
      )

  -- What follows each reason to drop a block, from the node itself or from a peer.
  unfoldable pub reject :
      Setting d.Db PeerId
      → ℕ
      → PeerId
      → Block
      → Rejection
      → Node d.Db PeerId
      → Node d.Db PeerId × List (Signal PeerId)
  reject setting now sender block orphan_block node = divert setting sender block node
  reject setting now sender block too_far_ahead node =
      if beq sender setting.local_peer_id
      then (node, [])
      else punish now sender invalid_header false node
  reject setting now sender block checkpoint_violation node =
      if beq sender setting.local_peer_id
      then (node, [])
      else punish now sender invalid_header false node
  reject setting now sender block time_warp node = (node, [])
  reject setting now sender block too_large node =
      if beq sender setting.local_peer_id
      then (node, wake_miner ∷ [])
      else punish now sender malformed_data false node
  reject setting now sender block witness_mismatch node = (node, [])
  reject setting now sender block proof_of_work_failed node =
      if beq sender setting.local_peer_id
      then (node, wake_miner ∷ [])
      else punish now sender invalid_header true node
  reject setting now sender block merkle_mismatch node =
      if beq sender setting.local_peer_id
      then (node, wake_miner ∷ [])
      else punish now sender malformed_data true node
