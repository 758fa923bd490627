-- ===== src/Mempool/ReadyQueue.antt =====
-- src/mempool/blind_box.rs: what sorting, popping and unlocking do to the queue of the template.
use quantum_btc.Prelude.{
  ℕ, suc, ◌+◌, ◌-◌, ◌%◌, ◌≤◌, ◌≡◌, refl, ap, true, ◌||◌, List, [], ◌∷◌, ◌++◌, length, length-append,
  Hash, HashMap, arith, lookup, insert, contains, nat_eq, beq, Option-cases, inl, inr, u64_mod,
}
use quantum_btc.Transaction.{outpoint_eq}
use quantum_btc.Mempool.{MempoolEntry}
use quantum_btc.Mempool.Mining.{insert_by_rate, sort_by_rate, pop_last, unlock}

length-insert_by_rate :
    (pool : HashMap Hash MempoolEntry) (h : Hash) (ks : List Hash)
    → length (insert_by_rate pool h ks) ≡ suc (length ks)
unfolding insert_by_rate
length-insert_by_rate pool h [] = refl
length-insert_by_rate pool h (k ∷ ks) = ground (arith, length-insert_by_rate pool h ks)

pub length-sort_by_rate :
    (pool : HashMap Hash MempoolEntry) (hs : List Hash) → length (sort_by_rate pool hs) ≡ length hs
unfolding sort_by_rate
length-sort_by_rate pool [] = refl
length-sort_by_rate pool (h ∷ hs) =
    omega (arith, length-insert_by_rate pool h (sort_by_rate pool hs), length-sort_by_rate pool hs)

pub length-pop_last : (h : Hash) (ks : List Hash) → length (pop_last h ks).0 ≡ length ks
unfolding pop_last
length-pop_last h [] = refl
length-pop_last h (k ∷ ks) = ap suc (length-pop_last k ks)

pub length-unlock :
    (children : List Hash) (degrees : HashMap Hash ℕ) (queue : List Hash)
    → length (unlock children degrees queue).1 ≤ length queue + length children
unfolding unlock
length-unlock [] degrees queue = omega arith
length-unlock (child ∷ children) degrees queue = elim (Option-cases (lookup child degrees)) [
  | inl missing ↦ ground (arith, length-unlock children degrees queue)
  | inr (count, found) ↦
      let count' = (count + (u64_mod - 1)) % u64_mod in
      ground (
        arith,
        length-unlock children (insert child count' degrees) queue,
        length-unlock children (insert child count' degrees) (queue ++ child ∷ []),
        length-append queue (child ∷ []),
      )
]

contains-insert_by_rate :
    (pool : HashMap Hash MempoolEntry) (k h : Hash) (hs : List Hash)
    → contains k (insert_by_rate pool h hs) ≡ (beq h k || contains k hs)
unfolding insert_by_rate contains
contains-insert_by_rate pool k h [] = refl
contains-insert_by_rate pool k h (j ∷ hs) = ground (arith, contains-insert_by_rate pool k h hs)

pub contains-sort_by_rate :
    (pool : HashMap Hash MempoolEntry) (k : Hash) (hs : List Hash)
    → contains k (sort_by_rate pool hs) ≡ contains k hs
unfolding sort_by_rate contains
contains-sort_by_rate pool k [] = refl
contains-sort_by_rate pool k (h ∷ hs) = ground (
  arith,
  contains-insert_by_rate pool k h (sort_by_rate pool hs),
  contains-sort_by_rate pool k hs,
)

pub contains-pop_last :
    (k h : Hash) (hs : List Hash)
    → contains k (h ∷ hs) ≡ (contains k (pop_last h hs).0 || beq (pop_last h hs).1 k)
unfolding pop_last contains
contains-pop_last k h [] = ground arith
contains-pop_last k h (j ∷ hs) = ground (arith, contains-pop_last k j hs)

contains-append_one :
    (k h : Hash) (hs : List Hash) → contains k hs ≡ true → contains k (hs ++ h ∷ []) ≡ true
unfolding contains
contains-append_one k h [] has = cc
contains-append_one k h (j ∷ hs) has = ground (arith, contains-append_one k h hs)

pub contains-unlock :
    (k : Hash) (children : List Hash) (degrees : HashMap Hash ℕ) (queue : List Hash)
    → contains k queue ≡ true
    → contains k (unlock children degrees queue).1 ≡ true
unfolding unlock
contains-unlock k [] degrees queue has = has
contains-unlock k (child ∷ children) degrees queue has =
    elim (Option-cases (lookup child degrees)) [
      | inl missing ↦ ground (arith, contains-unlock k children degrees queue has)
      | inr (count, found) ↦
          let count' = (count + (u64_mod - 1)) % u64_mod in
          ground (
            arith,
            contains-unlock k children (insert child count' degrees) queue has,
            contains-unlock k children (insert child count' degrees) (queue ++ child ∷ [])
                (contains-append_one k child queue has),
          )
    ]
