-- ===== src/Consensus/MedianTime.antt =====
-- src/consensus/mod.rs: what `verify_timestamp` lets through, without the median.
use quantum_btc.Prelude.{
  ℕ, zero, suc, ◌+◌, ◌/◌, ◌≤◌, ◌<◌, ◌≡◌, ◌↔◌, refl, List, [], ◌∷◌, All, length, length-drop, ◌-◌,
  get_or, arith, ok, Bool-cases, inl, inr, u64_mod, leb, ltb, if◌then◌else◌,
}
use quantum_btc.Block.{Block}
use quantum_btc.Consensus.{
  insert_sorted, sorted, select_nth, tail_slice, median_time_past, verify_timestamp,
  max_future_time_secs,
}

-- How many of the times are before `t`.
abbrev pub earlier : ℕ → List ℕ → ℕ
earlier t [] = 0
earlier t (x ∷ xs) = (if ltb x t then 1 else 0) + earlier t xs

abbrev IsSorted : List ℕ → Type 0
IsSorted [] = Unit
IsSorted (x ∷ xs) = All (λ y. x ≤ y) xs × IsSorted xs

All-weaken : (x y : ℕ) (xs : List ℕ) → x ≤ y → All (λ z. y ≤ z) xs → All (λ z. x ≤ z) xs
All-weaken x y [] le h = tt
All-weaken x y (z ∷ xs) le h = (omega arith, All-weaken x y xs le h.1)

All-insert_sorted :
    (x y : ℕ) (xs : List ℕ) → x ≤ y → All (λ z. x ≤ z) xs → All (λ z. x ≤ z) (insert_sorted y xs)
All-insert_sorted x y [] le h = (le, tt)
All-insert_sorted x y (z ∷ xs) le h = ground (arith, All-insert_sorted x y xs le h.1)

insert_sorted-IsSorted : (x : ℕ) (xs : List ℕ) → IsSorted xs → IsSorted (insert_sorted x xs)
insert_sorted-IsSorted x [] s = (tt, tt)
insert_sorted-IsSorted x (y ∷ ys) s = elim (Bool-cases (leb x y)) [
  | inl first ↦ rw (first, IsSorted) ((ground arith, All-weaken x y ys (ground arith) s.0), s)
  | inr later ↦
      rw (later, IsSorted)
        (All-insert_sorted y x ys (ground arith) s.0, insert_sorted-IsSorted x ys s.1)
]

sorted-IsSorted : (xs : List ℕ) → IsSorted (sorted xs)
sorted-IsSorted [] = tt
sorted-IsSorted (x ∷ xs) = insert_sorted-IsSorted x (sorted xs) (sorted-IsSorted xs)

earlier-insert_sorted :
    (t x : ℕ) (xs : List ℕ) → earlier t (insert_sorted x xs) ≡ earlier t (x ∷ xs)
earlier-insert_sorted t x [] = refl
earlier-insert_sorted t x (y ∷ ys) = ground (arith, earlier-insert_sorted t x ys)

earlier-sorted : (t : ℕ) (xs : List ℕ) → earlier t (sorted xs) ≡ earlier t xs
earlier-sorted t [] = refl
earlier-sorted t (x ∷ xs) =
    ground (arith, earlier-sorted t xs, earlier-insert_sorted t x (sorted xs))

length-insert_sorted : (x : ℕ) (xs : List ℕ) → length (insert_sorted x xs) ≡ suc (length xs)
length-insert_sorted x [] = refl
length-insert_sorted x (y ∷ ys) = ground (arith, length-insert_sorted x ys)

length-sorted : (xs : List ℕ) → length (sorted xs) ≡ length xs
length-sorted [] = refl
length-sorted (x ∷ xs) = ground (arith, length-sorted xs, length-insert_sorted x (sorted xs))

none_earlier : (t x : ℕ) (xs : List ℕ) → t ≤ x → All (λ y. x ≤ y) xs → earlier t xs ≡ 0
none_earlier t x [] le h = refl
none_earlier t x (y ∷ ys) le h = ground (arith, none_earlier t x ys le h.1)

nth_later :
    (t x : ℕ) (xs : List ℕ) (k : ℕ) → k < length xs → All (λ y. x ≤ y) xs → x ≤ get_or xs k 0
nth_later t x [] k lk h = omega arith
nth_later t x (y ∷ ys) zero lk h = h.0
nth_later t x (y ∷ ys) (suc k) lk h = nth_later t x ys k (omega arith) h.1

-- The element at index `k` of a sorted list is before `t` exactly if more than `k` elements are.
nth_earlier :
    (t : ℕ) (xs : List ℕ) (k : ℕ)
    → IsSorted xs
    → k < length xs
    → (get_or xs k 0 < t) ↔ (k < earlier t xs)
nth_earlier t [] k s lk = omega arith
nth_earlier t (x ∷ xs) zero s lk = ground (arith, none_earlier t x xs, s)
nth_earlier t (x ∷ xs) (suc k) s lk = ground (
  arith,
  nth_earlier t xs k s.1 (omega arith),
  none_earlier t x xs,
  nth_later t x xs k (omega arith) s.0,
)

select_nth-earlier :
    (t k : ℕ) (xs : List ℕ) → k < length xs → (select_nth k xs < t) ↔ (k < earlier t xs)
select_nth-earlier t k xs lk = ground (
  arith,
  nth_earlier t (sorted xs) k (sorted-IsSorted xs) (omega (arith, length-sorted xs)),
  earlier-sorted t xs,
)

length-tail_slice : (p : ℕ) (ps : List ℕ) → 0 < length (tail_slice (p ∷ ps))
length-tail_slice p ps = ground (
  arith,
  length-drop (suc (length ps) - (if ltb (suc (length ps)) 11 then suc (length ps) else 11))
      (p ∷ ps),
)

median_time_past-earlier :
    (t p : ℕ) (ps : List ℕ)
    → (median_time_past (p ∷ ps) < t)
      ↔ (length (tail_slice (p ∷ ps)) / 2 < earlier t (tail_slice (p ∷ ps)))
unfolding median_time_past
median_time_past-earlier t p ps =
    select_nth-earlier t (length (tail_slice (p ∷ ps)) / 2) (tail_slice (p ∷ ps))
      (omega (arith, length-tail_slice p ps))

-- With at least one past block, a block's timestamp is accepted exactly if it is at most an hour
-- ahead of the clock and later than more than half of the last 11 timestamps, or of all if there
-- are fewer; where the clock plus an hour is below 2^64.
pub verify_timestamp_lem :
    (now : ℕ) (b : Block) (p : ℕ) (ps : List ℕ)
    → now + max_future_time_secs < u64_mod
    → (verify_timestamp now b (p ∷ ps) ≡ ok tt) ↔ (
        (b.header.timestamp ≤ now + max_future_time_secs)
        × (length (tail_slice (p ∷ ps)) / 2 < earlier b.header.timestamp (tail_slice (p ∷ ps))))
unfolding verify_timestamp
verify_timestamp_lem now b p ps fits =
    ground (arith, median_time_past-earlier b.header.timestamp p ps)
