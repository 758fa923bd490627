-- ===== src/Storage/Judged.antt =====
-- src/storage.rs: the verdicts that `QuantumStorage::new` gives on the blocks of its index.
use quantum_btc.Prelude.{
  ℕ, zero, suc, ◌<◌, Bool, true, false, none, some, List, [], ◌∷◌, All, Hash, HashMap, lookup,
  contains, nat_eq, ◌==◌, ◌≡◌, ◌⊎◌, refl, arith, Bool-cases, Option-cases, inl, inr, beq_refl,
}
use quantum_btc.Block.{BlockIndex}
use quantum_btc.Storage.Boot.{Indices, walk}
use quantum_btc.Storage.Marked.{IsMarkedAt, root, child, IsMarked, IsMarkedAt-found}

contains-head : (h : Hash) (hs : List Hash) → contains h (h ∷ hs) ≡ true
unfolding contains
contains-head h hs = ground (arith, beq_refl h)

module _ (map_index : Indices) where
  -- The verdict says whether the block is marked with its ancestry.
  abbrev pub Agrees : Bool → Hash → Type 0
  Agrees v h = (v ≡ true → IsMarked map_index h) × (IsMarked map_index h → v ≡ true)

  abbrev pub AllAgree : HashMap Hash Bool → Type 0
  AllAgree fully_stored = (h : Hash) (v : Bool) → lookup h fully_stored ≡ some v → Agrees v h

  IsMarkedAt-parent :
      {h : Hash} {d : ℕ} (i : BlockIndex)
      → lookup h map_index ≡ some i
      → (i.header.previous_hash == 0) ≡ false
      → IsMarkedAt map_index h d
      → (m : ℕ) × (d ≡ suc m) × IsMarkedAt map_index i.header.previous_hash m
  IsMarkedAt-parent i found other (root j hj dj rj) = absurd (ground arith)
  IsMarkedAt-parent i found other (child {n = n} j hj dj rj later) =
      let same : j ≡ i = ground arith in (n, refl, rw (← same) later)

  module _ (fully_stored : HashMap Hash Bool) where
    walk-known :
        (n : ℕ) (path : List Hash) (cur : Hash) (v : Bool)
        → lookup cur fully_stored ≡ some v
        → walk map_index fully_stored n path cur ≡ (path, v)
    unfolding walk
    walk-known zero path cur v known = ground arith
    walk-known (suc n) path cur v known = ground arith

    walk-missing :
        (n : ℕ) (path : List Hash) (cur : Hash)
        → lookup cur fully_stored ≡ none
        → lookup cur map_index ≡ none
        → walk map_index fully_stored n path cur ≡ (path, false)
    unfolding walk
    walk-missing zero path cur new missing = ground arith
    walk-missing (suc n) path cur new missing = ground arith

    walk-bodiless :
        (n : ℕ) (path : List Hash) (cur : Hash) (i : BlockIndex)
        → lookup cur fully_stored ≡ none
        → lookup cur map_index ≡ some i
        → i.has_data ≡ false
        → walk map_index fully_stored n path cur ≡ (path, false)
    unfolding walk
    walk-bodiless zero path cur i new found bare = ground arith
    walk-bodiless (suc n) path cur i new found bare = ground arith

    walk-root :
        (n : ℕ) (path : List Hash) (cur : Hash) (i : BlockIndex)
        → lookup cur fully_stored ≡ none
        → lookup cur map_index ≡ some i
        → i.has_data ≡ true
        → (i.header.previous_hash == 0) ≡ true
        → walk map_index fully_stored (suc n) path cur ≡ (cur ∷ path, true)
    unfolding walk
    walk-root n path cur i new found full first = ground arith

    walk-child :
        (n : ℕ) (path : List Hash) (cur : Hash) (i : BlockIndex)
        → lookup cur fully_stored ≡ none
        → lookup cur map_index ≡ some i
        → i.has_data ≡ true
        → (i.header.previous_hash == 0) ≡ false
        → walk map_index fully_stored (suc n) path cur
          ≡ walk map_index fully_stored n (cur ∷ path) i.header.previous_hash
    unfolding walk
    walk-child n path cur i new found full later = ground arith

    -- The blocks of the path are marked exactly if the current one is.
    abbrev pub Follow : Hash → Hash → Type 0
    Follow cur h =
        (IsMarked map_index cur → IsMarked map_index h)
        × (IsMarked map_index h → IsMarked map_index cur)

    All-Follow :
        (path : List Hash) (cur next : Hash)
        → Follow next cur
        → All (Follow cur) path
        → All (Follow next) path
    All-Follow [] cur next (a, b) all = tt
    All-Follow (h ∷ path) cur next (a, b) ((p, q), all) =
        (((λ x. p (a x)), (λ x. b (q x))), All-Follow path cur next (a, b) all)

    All-Agrees :
        (path : List Hash) (cur : Hash) (v : Bool)
        → Agrees v cur
        → All (Follow cur) path
        → All (Agrees v) path
    All-Agrees [] cur v (a, b) all = tt
    All-Agrees (h ∷ path) cur v (a, b) ((p, q), all) =
        (((λ x. p (a x)), (λ x. b (q x))), All-Agrees path cur v (a, b) all)

    -- With rounds for every ancestor, the verdict is right for the whole path, and the path has the
    -- block itself unless it was known before or is not marked.
    abbrev pub Judges : List Hash × Bool → Hash → Type 0
    Judges walked cur =
        All (Agrees walked.1) walked.0
        × (lookup cur fully_stored ≡ none → IsMarked map_index cur → contains cur walked.0 ≡ true)

    walk-keeps :
        (n : ℕ) (path : List Hash) (cur h : Hash)
        → contains h path ≡ true
        → contains h (walk map_index fully_stored n path cur).0 ≡ true
    unfolding walk contains
    walk-keeps zero path cur h has = has
    walk-keeps (suc n) path cur h has = elim (Option-cases (lookup cur fully_stored)) [
      | inr (v, known) ↦ ground arith
      | inl new ↦ elim (Option-cases (lookup cur map_index)) [
        | inl missing ↦ ground arith
        | inr (i, found) ↦ ground (arith, walk-keeps n (cur ∷ path) i.header.previous_hash h)
      ]
    ]

    Judges-never :
        (path : List Hash) (cur : Hash)
        → (IsMarked map_index cur → ⊥)
        → All (Follow cur) path
        → Judges (path, false) cur
    Judges-never path cur never all = (
      All-Agrees path cur false ((λ e. absurd (ground arith)), (λ x. absurd (never x))) all,
      (λ _ x. absurd (never x)),
    )

    -- The walk goes on from a new block with data.
    record GoesOn (cur : Hash) : Type 0 where
      index : BlockIndex
      new : lookup cur fully_stored ≡ none
      found : lookup cur map_index ≡ some index
      full : index.has_data ≡ true

    walk-stops :
        (n : ℕ) (path : List Hash) (cur : Hash)
        → AllAgree fully_stored
        → All (Follow cur) path
        → Judges (walk map_index fully_stored n path cur) cur ⊎ GoesOn cur
    walk-stops n path cur ok all = elim (Option-cases (lookup cur fully_stored)) [
      | inr (v, known) ↦ inl (
          rw (walk-known n path cur v known)
            (All-Agrees path cur v (ok cur v known) all, (λ new. absurd (ground arith))))
      | inl new ↦ elim (Option-cases (lookup cur map_index)) [
        | inl missing ↦ inl (
            rw (walk-missing n path cur new missing) (
              Judges-never path cur
                (λ (d, x). let (i, found, _) = IsMarkedAt-found map_index x in ground arith) all))
        | inr (i, found) ↦ elim (Bool-cases i.has_data) [
          | inr bare ↦ inl (
              rw (walk-bodiless n path cur i new found bare) (
                Judges-never path cur
                  (λ (d, x). let (j, held, full) = IsMarkedAt-found map_index x in ground arith)
                  all))
          | inl full ↦ inr (record { index = i; new = new; found = found; full = full })
        ]
      ]
    ]

    walk-zero :
        (path : List Hash) (cur : Hash)
        → lookup cur fully_stored ≡ none
        → walk map_index fully_stored 0 path cur ≡ (path, false)
    unfolding walk
    walk-zero path cur new = ground arith

    pub walk_lem :
        (n : ℕ) (path : List Hash) (cur : Hash)
        → AllAgree fully_stored
        → ((d : ℕ) → IsMarkedAt map_index cur d → d < n)
        → All (Follow cur) path
        → Judges (walk map_index fully_stored n path cur) cur
    walk_lem zero path cur ok fuel all = elim (walk-stops 0 path cur ok all) [
      | inl judged ↦ judged
      | inr on ↦
          rw (walk-zero path cur on.new)
            (Judges-never path cur (λ (d, x). absurd (omega (arith, fuel d x))) all)
    ]
    walk_lem (suc n) path cur ok fuel all = elim (walk-stops (suc n) path cur ok all) [
      | inl judged ↦ judged
      | inr on ↦
          let i = on.index in
          elim (Bool-cases (i.header.previous_hash == 0)) [
            | inl first ↦
                let stored : IsMarked map_index cur = (0, root i on.found on.full first) in
                rw (walk-root n path cur i on.new on.found on.full first) (
                  (
                    ((λ _. stored), (λ _. refl)),
                    All-Agrees path cur true ((λ _. stored), (λ _. refl)) all,
                  ),
                  (λ _ _. contains-head cur path),
                )
            | inr later ↦
                let up : Follow i.header.previous_hash cur = (
                  (λ (d, x). (suc d, child i on.found on.full later x)),
                  (λ (d, x). let (m, _, y) = IsMarkedAt-parent i on.found later x in (m, y)),
                ) in
                let rest =
                  walk_lem n (cur ∷ path) i.header.previous_hash ok
                    (λ d x. omega (arith, fuel (suc d) (child i on.found on.full later x)))
                    (up, All-Follow path cur i.header.previous_hash up all) in
                rw (walk-child n path cur i on.new on.found on.full later) (
                  rest.0,
                  (λ _ _.
                      walk-keeps n (cur ∷ path) i.header.previous_hash cur
                        (contains-head cur path)),
                )
          ]
    ]
