-- ===== src/Storage/Verdicts.antt =====
-- src/storage.rs: after all walks of `QuantumStorage::new` the verdicts are right.
use quantum_btc.Prelude.{
  suc, Bool, true, some, List, [], ◌∷◌, length, All, Hash, HashMap, lookup, insert, contains,
  lookup-insert, contains-keys_where, nat_eq, ◌==◌, ◌≡◌, ◌⊎◌, refl, arith, Bool-cases, Option-cases,
  inl, inr, if◌then◌else◌,
}
use quantum_btc.Block.{BlockIndex}
use quantum_btc.Storage.Boot.{Indices, or_false, walk, mark_path, judge, judge_all, keys_of}
use quantum_btc.Storage.Marked.{IsMarked, IsMarkedAt-depth}
use quantum_btc.Storage.Judged.{Agrees, AllAgree, walk_lem}

module _ (map_index : Indices) where
  lookup-mark_path :
      (path : List Hash) (v : Bool) (fully_stored : HashMap Hash Bool) (h : Hash)
      → lookup h (mark_path map_index path v fully_stored)
        ≡ (if contains h path then some v else lookup h fully_stored)
  unfolding mark_path contains
  lookup-mark_path [] v fully_stored h = refl
  lookup-mark_path (k ∷ path) v fully_stored h =
      ground (
        arith,
        lookup-mark_path path v (insert k v fully_stored) h,
        lookup-insert k h v fully_stored,
      )

  All-contains :
      (P : Hash → Type 0) (hs : List Hash) (h : Hash) → All P hs → contains h hs ≡ true → P h
  unfolding contains
  All-contains P [] h all has = absurd (ground arith)
  All-contains P (k ∷ hs) h (p, all) has = elim (Bool-cases (k == h)) [
    | inl same ↦ let one : k ≡ h = ground arith in rw (← one) p
    | inr other ↦ All-contains P hs h all (ground arith)
  ]

  judge_lem :
      (start : Hash) (fully_stored : HashMap Hash Bool)
      → AllAgree map_index fully_stored
      → AllAgree map_index (judge map_index start fully_stored)
        × (IsMarked map_index start → lookup start (judge map_index start fully_stored) ≡ some true)
        × ((h : Hash)
            → lookup h fully_stored ≡ some true
            → lookup h (judge map_index start fully_stored) ≡ some true)
  judge_lem start fully_stored ok =
      let walked = walk map_index fully_stored (suc (length map_index)) [] start in
      let (all, covers) =
        walk_lem map_index fully_stored (suc (length map_index)) [] start ok
          (λ d x. omega (arith, IsMarkedAt-depth map_index x)) tt in
      let marked = lookup-mark_path walked.0 walked.1 fully_stored in
      let agrees : (h : Hash) → contains h walked.0 ≡ true → Agrees map_index walked.1 h =
        λ h has. All-contains (Agrees map_index walked.1) walked.0 h all has in
      (
        (λ h v held. elim (Bool-cases (contains h walked.0)) [
          | inl has ↦
              let same : walked.1 ≡ v = ground (arith, rw (marked h) at held) in
              rw (← same) (agrees h has)
          | inr other ↦ ok h v (ground (arith, rw (marked h) at held))
        ]),
        (λ x. rw (marked start) (elim (Option-cases (lookup start fully_stored)) [
          | inl new ↦ let has = covers new x in ground (arith, (agrees start has).1 x)
          | inr (v, known) ↦ elim (Bool-cases (contains start walked.0)) [
            | inl has ↦ ground (arith, (agrees start has).1 x)
            | inr other ↦ ground (arith, (ok start v known).1 x)
          ]
        ])),
        (λ h known. rw (marked h) (elim (Bool-cases (contains h walked.0)) [
          | inl has ↦ ground (arith, (agrees h has).1 ((ok h true known).0 refl))
          | inr other ↦ ground arith
        ])),
      )

  judge_all_lem :
      (starts : List Hash) (fully_stored : HashMap Hash Bool)
      → AllAgree map_index fully_stored
      → AllAgree map_index (judge_all map_index starts fully_stored)
        × ((h : Hash)
            → (contains h starts ≡ true) ⊎ (lookup h fully_stored ≡ some true)
            → IsMarked map_index h
            → lookup h (judge_all map_index starts fully_stored) ≡ some true)
  unfolding judge_all contains
  judge_all_lem [] fully_stored ok =
      (ok, (λ h known x. elim known [ inl has ↦ absurd (ground arith) | inr held ↦ held ]))
  judge_all_lem (start ∷ rest) fully_stored ok =
      let (good, covers, keeps) = judge_lem start fully_stored ok in
      let (all_good, all_covers) = judge_all_lem rest (judge map_index start fully_stored) good in
      (
        all_good,
        (λ h known x.
            all_covers h
              (elim known [
                | inr held ↦ inr (keeps h held)
                | inl has ↦ elim (Bool-cases (start == h)) [
                  | inl same ↦
                      let one : start ≡ h = ground arith in inr (rw (← one) (covers (rw one x)))
                  | inr other ↦ inl (ground arith)
                ]
              ])
              x),
      )

  -- The verdicts of the blocks of the index are right.
  pub verdict_lem :
      (h : Hash) (i : BlockIndex)
      → lookup h map_index ≡ some i
      → Agrees map_index (or_false (lookup h (judge_all map_index (keys_of map_index) []))) h
  unfolding lookup
  verdict_lem h i found =
      let (good, covers) =
        judge_all_lem (keys_of map_index) [] (λ k v held. absurd (ground arith)) in
      let verdicts = judge_all map_index (keys_of map_index) [] in
      (
        (λ yes_stored. elim (Option-cases (lookup h verdicts)) [
          | inl missing ↦ absurd (ground arith)
          | inr (v, held) ↦ (good h v held).0 (ground arith)
        ]),
        (λ x. ground (
          arith,
          covers h (inl (ground (arith, contains-keys_where (λ _ _. true) h map_index))) x,
        )),
      )
