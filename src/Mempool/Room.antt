-- ===== src/Mempool/Room.antt =====
-- src/mempool/blind_box.rs: the loop that makes room for a transaction ends with room or with nothing
-- left to evict.
use quantum_btc.Prelude.{
  ℕ, zero, suc, ◌+◌, ◌%◌, ◌≤◌, ◌<◌, ◌≡◌, refl, true, false, ◌||◌, none, some, List, [], ◌∷◌, length,
  Hash, HashSet, arith, lookup, contains, set_remove, remove, contains-set_remove, nat_eq, beq,
  beq_iff, beq_refl, Bool-cases, Option-cases, inl, inr, ◌⊎◌, ltb, leb, ok, err, u64_mod,
}
use quantum_btc.Crypto.Primitives.{Primitives}
use quantum_btc.Mempool.Invariant.{without}
use quantum_btc.Mempool.{
  FeeRateKey, fee_key_eq, QuantumMempool, max_mempool_weight, first_key, least, drop_entry,
  evict_loop, evict_transaction_and_descendants, make_room, calculate_rate, push_all,
  or_no_children, fee_too_low, child_count,
}

length-set_remove :
    (k : FeeRateKey) (keys : HashSet FeeRateKey) → length (set_remove k keys) ≤ length keys
unfolding set_remove
length-set_remove k [] = omega arith
length-set_remove k (j ∷ keys) = ground (arith, length-set_remove k keys)

length-set_remove_found :
    (k : FeeRateKey) (keys : HashSet FeeRateKey)
    → contains k keys ≡ true
    → length (set_remove k keys) < length keys
unfolding set_remove contains
length-set_remove_found k [] found = cc
length-set_remove_found k (j ∷ keys) found =
    ground (arith, length-set_remove_found k keys, length-set_remove k keys)

contains-least :
    (k : FeeRateKey) (keys : HashSet FeeRateKey)
    → (beq k (least k keys) || contains (least k keys) keys) ≡ true
unfolding contains
contains-least k [] = ground (arith, beq_refl k)
contains-least k (j ∷ keys) = ground (arith, contains-least k keys, contains-least j keys)

contains-first_key :
    (keys : HashSet FeeRateKey) (k : FeeRateKey) → first_key keys ≡ some k → contains k keys ≡ true
unfolding contains
contains-first_key [] k e = cc
contains-first_key (j ∷ keys) k e = ground (arith, contains-least j keys)

first_key-none : (keys : HashSet FeeRateKey) → first_key keys ≡ none → length keys ≡ 0
first_key-none [] e = refl
first_key-none (k ∷ keys) e = ground arith

-- Keys are only removed, and the removal of one shortens the list.
abbrev Shrinks : HashSet FeeRateKey → HashSet FeeRateKey → Type 0
Shrinks keys keys' =
    (length keys' ≤ length keys)
    × ((k : FeeRateKey)
        → contains k keys ≡ true
        → contains k keys' ≡ false
        → length keys' < length keys)

Shrinks-refl : (keys : HashSet FeeRateKey) → Shrinks keys keys
Shrinks-refl keys = (omega arith, (λ k held gone. ground arith))

Shrinks-trans :
    (keys keys' keys'' : HashSet FeeRateKey)
    → Shrinks keys keys'
    → Shrinks keys' keys''
    → Shrinks keys keys''
Shrinks-trans keys keys' keys'' (short, fewer) (short', fewer') = (
  omega arith,
  (λ k held gone. elim (Bool-cases (contains k keys')) [
    | inl kept ↦ omega (arith, fewer' k kept gone)
    | inr lost ↦ omega (arith, fewer k held lost)
  ]),
)

set_remove-Shrinks : (k : FeeRateKey) (keys : HashSet FeeRateKey) → Shrinks keys (set_remove k keys)
set_remove-Shrinks k keys = (
  length-set_remove k keys,
  (λ j held gone.
      ground (arith, contains-set_remove k j keys, beq_iff k j, length-set_remove_found k keys)),
)

module _ (c : Primitives) where
  drop_entry-fee_index :
      (h : Hash) (m : QuantumMempool)
      → ((drop_entry c h m).fee_index ≡ m.fee_index)
        ⊎ ((k : FeeRateKey) × ((drop_entry c h m).fee_index ≡ set_remove k m.fee_index))
  unfolding drop_entry
  drop_entry-fee_index h m = elim (Option-cases (lookup h m.tx_pool)) [
    | inl missing ↦ inl (ground arith)
    | inr (entry, found) ↦
        inr (record { rate = calculate_rate entry.fee entry.weight; tx_hash = h }, ground arith)
  ]

  drop_entry-Shrinks :
      (h : Hash) (m : QuantumMempool) → Shrinks m.fee_index (drop_entry c h m).fee_index
  drop_entry-Shrinks h m = elim (drop_entry-fee_index h m) [
    | inl same ↦ rw same (Shrinks-refl m.fee_index)
    | inr (k, same) ↦ rw same (set_remove-Shrinks k m.fee_index)
  ]

  evict_loop-Shrinks :
      (n : ℕ) (stack : List Hash) (m : QuantumMempool)
      → Shrinks m.fee_index (evict_loop c n stack m).1.fee_index
  unfolding evict_loop
  evict_loop-Shrinks zero stack m = Shrinks-refl m.fee_index
  evict_loop-Shrinks (suc n) [] m = Shrinks-refl m.fee_index
  evict_loop-Shrinks (suc n) (h ∷ stack) m =
      let start = record m { child_index = remove h m.child_index } in
      let stack' = push_all (or_no_children (lookup h m.child_index)) stack in
      Shrinks-trans m.fee_index (drop_entry c h start).fee_index
        (evict_loop c n stack' (drop_entry c h start)).1.fee_index (drop_entry-Shrinks h start)
        (evict_loop-Shrinks n stack' (drop_entry c h start))

  without-Shrinks :
      (k : FeeRateKey) (m : QuantumMempool) → Shrinks m.fee_index (without c k m).fee_index
  unfolding evict_transaction_and_descendants
  without-Shrinks k m =
      let evicted = evict_transaction_and_descendants c k.tx_hash m in
      Shrinks-trans m.fee_index evicted.fee_index (set_remove k evicted.fee_index)
        (evict_loop-Shrinks (suc (child_count m.child_index)) (k.tx_hash ∷ []) m)
        (set_remove-Shrinks k evicted.fee_index)

  length-without :
      (k : FeeRateKey) (m : QuantumMempool)
      → first_key m.fee_index ≡ some k
      → length (without c k m).fee_index < length m.fee_index
  length-without k m least_key =
      (without-Shrinks k m).1 k (contains-first_key m.fee_index k least_key) (
        ground (
          arith,
          contains-set_remove k k (evict_transaction_and_descendants c k.tx_hash m).fee_index,
          beq_refl k,
        ))

  -- What holds when the loop returns `Ok`.
  abbrev pub HasRoom : ℕ → QuantumMempool → Type 0
  HasRoom weight m =
      (ltb max_mempool_weight ((m.current_weight + weight) % u64_mod) ≡ false)
      ⊎ (length m.fee_index ≡ 0)

  make_room-step :
      (n weight rate : ℕ) (m : QuantumMempool)
      → (HasRoom weight m × (make_room c (suc n) weight rate m ≡ (m, ok tt)))
        ⊎ ((make_room c (suc n) weight rate m ≡ (m, err fee_too_low))
            ⊎ ((k : FeeRateKey) × (first_key m.fee_index ≡ some k)
                × (make_room c (suc n) weight rate m ≡ make_room c n weight rate (without c k m))))
  unfolding make_room
  make_room-step n weight rate m = elim (Option-cases (first_key m.fee_index)) [
    | inl empty ↦ inl (inr (first_key-none m.fee_index empty), ground arith)
    | inr (k, least_key) ↦
        elim (Bool-cases (ltb max_mempool_weight ((m.current_weight + weight) % u64_mod))) [
          | inr fits ↦ inl (inl fits, ground arith)
          | inl over ↦ elim (Bool-cases (leb rate k.rate)) [
            | inl low ↦ inr (inl (ground arith))
            | inr high ↦ inr (inr (k, least_key, ground arith))
          ]
        ]
  ]

  make_room-empty :
      (weight rate : ℕ) (m : QuantumMempool) → make_room c 0 weight rate m ≡ (m, ok tt)
  unfolding make_room
  make_room-empty weight rate m = refl

  -- The loop that makes room, with as many rounds as the fee index has keys, returns `Ok` only if the
  -- transaction then fits or nothing is left in the index, and else the error of a fee too low.
  make_room-HasRoom :
      (n weight rate : ℕ) (m : QuantumMempool)
      → length m.fee_index ≤ n
      → let (m', result) = make_room c n weight rate m in
        (HasRoom weight m' × (result ≡ ok tt)) ⊎ (result ≡ err fee_too_low)
  make_room-HasRoom zero weight rate m le =
      rw (make_room-empty weight rate m) (inl (inr (omega arith), refl))
  make_room-HasRoom (suc n) weight rate m le = elim (make_room-step n weight rate m) [
    | inl (room, done) ↦ rw done (inl (room, refl))
    | inr (inl failed) ↦ rw failed (inr refl)
    | inr (inr (k, least_key, same)) ↦ rw same (
        make_room-HasRoom n weight rate (without c k m)
          (omega (arith, length-without k m least_key)))
  ]
