-- ===== src/Network/SyncManager/Batch.antt =====
-- src/network/sync_manager.rs: the height that a batch of blocks leads to, in any order.
use quantum_btc.Prelude.{
  ◌||◌, arith, refl, ℕ, ◌+◌, ◌≤◌, ◌<◌, ◌≡◌, refl, ◌||◌, true, false, List, [], ◌∷◌, arith, HashSet,
  lookup, contains, nat_eq, u64_mod,
}
use quantum_btc.Network.SyncManager.{
  SyncManager, new, process_incoming_block, process_all, process_batch, count,
}
use quantum_btc.Network.SyncManager.Sequence.{Small, Settled, process-Settled}

-- The heights of a batch.
abbrev pub heights : {Data : Type 0} → List (ℕ × Data) → List ℕ
heights [] = []
heights ((h, _) ∷ batch) = h ∷ heights batch

abbrev received_after : List ℕ → HashSet ℕ → HashSet ℕ
received_after [] received = received
received_after (h ∷ hs) received = received_after hs (h ∷ received)

contains-received_after :
    (k : ℕ) (hs : List ℕ) (received : HashSet ℕ)
    → contains k (received_after hs received) ≡ (contains k hs || contains k received)
unfolding contains
contains-received_after k [] received = refl
contains-received_after k (h ∷ hs) received =
    ground (arith, contains-received_after k hs (h ∷ received))

module _ {Data : Type 0} (start : ℕ) (fits : start + 1 < u64_mod) where
  process_all-Settled :
      (batch : List (ℕ × Data)) (received : HashSet ℕ) (m : SyncManager Data) (counts : ℕ × ℕ)
      → Small (received_after (heights batch) received)
      → Settled start received m
      → Settled start (received_after (heights batch) received) (process_all batch (m, counts)).0
  unfolding process_all contains
  process_all-Settled [] received m counts small s = s
  process_all-Settled ((h, d) ∷ batch) received m counts small s =
      process_all-Settled batch (h ∷ received) (process_incoming_block h d m).0
        (count (process_incoming_block h d m).1 counts) small
        (process-Settled start received h d m fits
          (λ k. ground (arith, small k, contains-received_after k (heights batch) (h ∷ received)))
          s)

  -- From an empty pool, a batch of blocks in any order, with any repetitions, leads to the height up
  -- to which it holds every block above `start`, where it does not hold the next one; for heights
  -- below 2^64 - 1.
  pub process_batch_lem :
      (batch : List (ℕ × Data))
      → ((h : ℕ) → contains h (heights batch) ≡ true → h + 1 < u64_mod)
      → let c = (process_batch batch (new start)).0.current_height in
        (start ≤ c)
        × ((h : ℕ) → start < h → h ≤ c → contains h (heights batch) ≡ true)
        × (contains (c + 1) (heights batch) ≡ false)
  unfolding process_batch contains lookup
  process_batch_lem batch small =
      let begin : Settled {Data = Data} start [] (new start) = (
        record {
          at_least = omega arith;
          below = λ h. grind arith;
          pooled = λ h. cc;
          kept = λ h. cc;
        },
        refl,
      ) in
      let known = λ (k : ℕ). contains-received_after k (heights batch) [] in
      let (t, gap) =
        process_all-Settled batch [] (new start) (0, 0) (λ k. ground (arith, small k, known k))
          begin in
      let c = (process_batch batch (new start)).0.current_height in
      (
        t.at_least,
        (λ h. ground (arith, t.below h, known h)),
        ground (arith, t.kept (c + 1), known (c + 1), gap),
      )

  -- Two batches that hold blocks of the same heights lead from an empty pool to the same height; for
  -- heights below 2^64 - 1.
  pub process_batch-order :
      (batch other : List (ℕ × Data))
      → ((h : ℕ) → contains h (heights batch) ≡ true → h + 1 < u64_mod)
      → ((h : ℕ) → contains h (heights batch) ≡ contains h (heights other))
      → (process_batch batch (new start)).0.current_height
        ≡ (process_batch other (new start)).0.current_height
  process_batch-order batch other small same =
      let c = (process_batch batch (new start)).0.current_height in
      let d = (process_batch other (new start)).0.current_height in
      let (low, upto, next) = process_batch_lem batch small in
      let (low', upto', next') = process_batch_lem other (λ h. ground (arith, small h, same h)) in
      ground
        (arith, upto (d + 1), upto' (c + 1), same (c + 1), same (d + 1), low, low', next, next')
