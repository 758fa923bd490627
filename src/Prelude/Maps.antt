-- ===== src/Prelude/Maps.antt =====
-- `HashMap` and `HashSet` as lists. An insertion removes what it replaces, and a `retain` that
-- drops an entry drops its key, so the laws below need no condition on the list.
use Prim.Native.Nat.{◌+◌, ◌≤◌, ◌<◌}
use mathlib.Core.Path.{◌≡◌, refl}
use mathlib.Core.Bool.{Bool, true, false, ◌||◌}
use mathlib.Core.List.{List, [], ◌∷◌}
use mathlib.Core.Option.{Option, none, some}
use native.Mathlib.Omega.{arith}
use quantum_btc.Prelude.Tests.{if◌then◌else◌, Eq, beq, beq_iff}
use quantum_btc.Prelude.Lists.{length}

abbrev pub HashMap : Type 0 → Type 0 → Type 0
HashMap K V = List (K × V)

-- What a test leaves of a looked-up value.
abbrev pub keep_if : {V : Type 0} → (V → Bool) → Option V → Option V
keep_if p none = none
keep_if p (some v) = if p v then some v else none

abbrev pub is_some : {V : Type 0} → Option V → Bool
is_some none = false
is_some (some _) = true

module _ {K V : Type 0} ⦃e : Eq K⦄ where
  unfoldable pub lookup : K → HashMap K V → Option V
  lookup k [] = none
  lookup k ((j, v) ∷ m) = if beq j k then some v else lookup k m

  unfoldable pub remove : K → HashMap K V → HashMap K V
  remove k [] = []
  remove k ((j, v) ∷ m) = let rest = remove k m in if beq j k then rest else (j, v) ∷ rest

  unfoldable pub insert : K → V → HashMap K V → HashMap K V
  insert k v m = (k, v) ∷ remove k m

  unfoldable pub retain : (K → V → Bool) → HashMap K V → HashMap K V
  retain p [] = []
  retain p ((k, v) ∷ m) = let rest = retain p m in if p k v then (k, v) ∷ rest else remove k rest

  abbrev pub contains_key : K → HashMap K V → Bool
  contains_key k m = is_some (lookup k m)

module _ {K V : Type 0} ⦃e : Eq K⦄ where
  pub lookup-remove :
      (k j : K) (m : HashMap K V) → lookup j (remove k m) ≡ (if beq k j then none else lookup j m)
  unfolding lookup remove
  lookup-remove k j [] = ground arith
  lookup-remove k j ((i, v) ∷ m) =
      ground (arith, lookup-remove k j m, beq_iff i k, beq_iff i j, beq_iff k j)

  pub lookup-insert :
      (k j : K) (v : V) (m : HashMap K V)
      → lookup j (insert k v m) ≡ (if beq k j then some v else lookup j m)
  unfolding lookup insert
  lookup-insert k j v m = ground (arith, lookup-remove k j m)

  pub lookup-retain :
      (p : K → V → Bool) (j : K) (m : HashMap K V)
      → lookup j (retain p m) ≡ keep_if (p j) (lookup j m)
  unfolding lookup retain
  lookup-retain p j [] = refl
  lookup-retain p j ((i, v) ∷ m) =
      ground (arith, lookup-retain p j m, lookup-remove i j (retain p m), beq_iff i j)

  pub length-remove : (k : K) (m : HashMap K V) → length (remove k m) ≤ length m
  unfolding remove
  length-remove k [] = omega arith
  length-remove k ((j, v) ∷ m) = ground (arith, length-remove k m)

  pub length-remove_found :
      (k : K) (m : HashMap K V) → is_some (lookup k m) ≡ true → length (remove k m) < length m
  unfolding remove lookup
  length-remove_found k [] found = cc
  length-remove_found k ((j, v) ∷ m) found =
      ground (arith, length-remove_found k m, length-remove k m)

  pub lookup-empty : (k : K) (m : HashMap K V) → length m ≤ 0 → lookup k m ≡ none
  unfolding lookup
  lookup-empty k [] e = refl
  lookup-empty k ((j, v) ∷ m) e = ground arith

  pub length-insert : (k : K) (v : V) (m : HashMap K V) → length (insert k v m) ≤ length m + 1
  unfolding insert
  length-insert k v m = omega (arith, length-remove k m)

pub ruleset map_laws = (lookup-insert, lookup-remove, lookup-retain)

-- `HashSet` as a list; an insertion leaves what is there.
abbrev pub HashSet : Type 0 → Type 0
HashSet K = List K

module _ {K : Type 0} ⦃e : Eq K⦄ where
  unfoldable pub contains : K → HashSet K → Bool
  contains k [] = false
  contains k (j ∷ s) = beq j k || contains k s

  unfoldable pub set_insert : K → HashSet K → HashSet K
  set_insert k s = if contains k s then s else k ∷ s

  unfoldable pub set_remove : K → HashSet K → HashSet K
  set_remove k [] = []
  set_remove k (j ∷ s) = let rest = set_remove k s in if beq j k then rest else j ∷ rest

module _ {K : Type 0} ⦃e : Eq K⦄ where
  pub contains-set_insert :
      (k j : K) (s : HashSet K) → contains j (set_insert k s) ≡ (beq k j || contains j s)
  unfolding contains set_insert
  contains-set_insert k j s = ground (arith, beq_iff k j)

  pub contains-set_remove :
      (k j : K) (s : HashSet K)
      → contains j (set_remove k s) ≡ (if beq k j then false else contains j s)
  unfolding contains set_remove
  contains-set_remove k j [] = ground arith
  contains-set_remove k j (i ∷ s) =
      ground (arith, contains-set_remove k j s, beq_iff i k, beq_iff i j, beq_iff k j)

module _ {K V : Type 0} ⦃e : Eq K⦄ where
  -- The keys of the entries that pass, as `iter().filter(..).map(..).collect()` gives them.
  unfoldable pub keys_where : (K → V → Bool) → HashMap K V → List K
  keys_where p [] = []
  keys_where p ((k, v) ∷ m) =
      let rest = set_remove k (keys_where p m) in if p k v then k ∷ rest else rest

  -- `for k in ks { m.remove(k) }`
  unfoldable pub remove_all : List K → HashMap K V → HashMap K V
  remove_all [] m = m
  remove_all (k ∷ ks) m = remove_all ks (remove k m)

  pub contains-keys_where :
      (p : K → V → Bool) (j : K) (m : HashMap K V)
      → contains j (keys_where p m) ≡ is_some (keep_if (p j) (lookup j m))
  unfolding contains keys_where lookup
  contains-keys_where p j [] = refl
  contains-keys_where p j ((i, v) ∷ m) =
      ground
        (arith, contains-keys_where p j m, contains-set_remove i j (keys_where p m), beq_iff i j)

  pub lookup-remove_all :
      (ks : List K) (j : K) (m : HashMap K V)
      → lookup j (remove_all ks m) ≡ (if contains j ks then none else lookup j m)
  unfolding contains remove_all
  lookup-remove_all [] j m = refl
  lookup-remove_all (k ∷ ks) j m =
      ground (arith, lookup-remove_all ks j (remove k m), lookup-remove k j m)
