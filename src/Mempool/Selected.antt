-- ===== src/Mempool/Selected.antt =====
-- src/mempool/blind_box.rs: the transactions of a block template as a list.
use quantum_btc.Prelude.{
  ℕ, ◌+◌, ◌≡◌, refl, true, false, List, [], ◌∷◌, ◌++◌, All, arith, nat_eq, inl, inr, ◌⊎◌,
}
use quantum_btc.Transaction.{OutPoint, outpoint_eq, Transaction}
use quantum_btc.Mempool.Evict.{spends}

abbrev pub sum_of : (Transaction → ℕ) → List Transaction → ℕ
sum_of f [] = 0
sum_of f (tx ∷ txs) = f tx + sum_of f txs

pub sum_of-append :
    (f : Transaction → ℕ) (txs : List Transaction) (tx : Transaction)
    → sum_of f (txs ++ tx ∷ []) ≡ sum_of f txs + f tx
sum_of-append f [] tx = omega arith
sum_of-append f (t ∷ txs) tx = omega (arith, sum_of-append f txs tx)

-- The two transactions spend no output in common.
abbrev pub AreDisjoint : Transaction → Transaction → Type 0
AreDisjoint t u = (p : OutPoint) → spends p t.inputs ≡ true → spends p u.inputs ≡ false

-- No two transactions of the list, at different places, spend one output.
abbrev pub AreConflictFree : List Transaction → Type 0
AreConflictFree [] = Unit
AreConflictFree (tx ∷ txs) = All (AreDisjoint tx) txs × AreConflictFree txs

pub All-append :
    (P : Transaction → Type 0) (txs : List Transaction) (tx : Transaction)
    → All P txs
    → P tx
    → All P (txs ++ tx ∷ [])
All-append P [] tx all p = (p, tt)
All-append P (t ∷ txs) tx (q, all) p = (q, All-append P txs tx all p)

pub All-map :
    (P Q : Transaction → Type 0) (txs : List Transaction)
    → ((tx : Transaction) → P tx → Q tx)
    → All P txs
    → All Q txs
All-map P Q [] f all = tt
All-map P Q (t ∷ txs) f (p, all) = (f t p, All-map P Q txs f all)

pub AreConflictFree-append :
    (txs : List Transaction) (tx : Transaction)
    → AreConflictFree txs
    → All (λ t. AreDisjoint t tx) txs
    → AreConflictFree (txs ++ tx ∷ [])
AreConflictFree-append [] tx free all = (tt, tt)
AreConflictFree-append (t ∷ txs) tx (apart, free) (p, all) =
    (All-append (AreDisjoint t) txs tx apart p, AreConflictFree-append txs tx free all)

-- The list holds the transaction.
abbrev pub Holds : Transaction → List Transaction → Type 0
Holds tx [] = ⊥
Holds tx (u ∷ us) = (u ≡ tx) ⊎ Holds tx us

pub Holds-append :
    (tx u : Transaction) (txs : List Transaction) → Holds tx txs → Holds tx (txs ++ u ∷ [])
Holds-append tx u [] none_held = absurd none_held
Holds-append tx u (t ∷ txs) (inl same) = inl same
Holds-append tx u (t ∷ txs) (inr later) = inr (Holds-append tx u txs later)

pub Holds-last : (tx : Transaction) (txs : List Transaction) → Holds tx (txs ++ tx ∷ [])
Holds-last tx [] = inl refl
Holds-last tx (t ∷ txs) = inr (Holds-last tx txs)

pub Holds-All :
    (P : Transaction → Type 0) (tx : Transaction) (txs : List Transaction)
    → All P txs
    → Holds tx txs
    → P tx
Holds-All P tx [] all none_held = absurd none_held
Holds-All P tx (t ∷ txs) (p, all) (inl same) = rw (← same) p
Holds-All P tx (t ∷ txs) (p, all) (inr later) = Holds-All P tx txs all later
