-- ===== src/Shared/Maps.antt =====
-- Maps that the program iterates over. A `BTreeMap` or `BTreeSet` with numeric keys is its list in
-- the order of the keys; a key range of the store is an association list.
use Prim.Native.Nat.{ℕ}
use mathlib.Core.Path.{◌≡◌, refl}
use mathlib.Core.Option.{Option, none, some}
use mathlib.Core.List.{List, [], ◌∷◌}
use native.Mathlib.Omega.{arith}
use light_stream.Shared.Tests.{ltb, if◌then◌else◌}
use light_stream.Shared.BTreeSet
use light_stream.Shared.Equality.{Eq, nat_eq, ◌==◌}

-- BTreeMap<u64, V>
module _ {ℓ} {V : Type ℓ} where
  abbrev pub btree_get : List (ℕ × V) → ℕ → Option V
  btree_get [] k = none
  btree_get ((j, v) ∷ m) k = if j == k then some v else btree_get m k

  abbrev pub btree_insert : ℕ → V → List (ℕ × V) → List (ℕ × V)
  btree_insert k v [] = (k, v) ∷ []
  btree_insert k v ((j, w) ∷ m) =
      if ltb k j
      then (k, v) ∷ (j, w) ∷ m
      else if k == j
      then (k, v) ∷ m
      else (j, w) ∷ btree_insert k v m

  abbrev pub btree_keys : List (ℕ × V) → List ℕ
  btree_keys [] = []
  btree_keys ((j, v) ∷ m) = j ∷ btree_keys m

  abbrev pub btree_values : List (ℕ × V) → List V
  btree_values [] = []
  btree_values ((j, v) ∷ m) = v ∷ btree_values m

  pub keys-insert :
      (k : ℕ) (v : V) (m : List (ℕ × V))
      → btree_keys (btree_insert k v m) ≡ BTreeSet.insert k (btree_keys m)
  keys-insert k v [] = refl
  keys-insert k v ((j, w) ∷ m) = ground (arith, keys-insert k v m)

  pub get-insert :
      (k j : ℕ) (v : V) (m : List (ℕ × V))
      → btree_get (btree_insert k v m) j ≡ (if k == j then some v else btree_get m j)
  get-insert k j v [] = refl
  get-insert k j v ((i, w) ∷ m) = ground (arith, get-insert k j v m)

-- A range of the store.
module _ {ℓ κ} {K : Type ℓ} {V : Type κ} ⦃e : Eq K⦄ where
  abbrev pub lookup : K → List (K × V) → Option V
  lookup k [] = none
  lookup k ((j, v) ∷ m) = if j == k then some v else lookup k m

  abbrev pub put : K → V → List (K × V) → List (K × V)
  put k v [] = (k, v) ∷ []
  put k v ((j, w) ∷ m) = if j == k then (k, v) ∷ m else (j, w) ∷ put k v m

  abbrev pub delete : K → List (K × V) → List (K × V)
  delete k [] = []
  delete k ((j, w) ∷ m) = if j == k then delete k m else (j, w) ∷ delete k m

  pub lookup-put :
      (k j : K) (v : V) (m : List (K × V))
      → lookup j (put k v m) ≡ (if k == j then some v else lookup j m)
  lookup-put k j v [] = refl
  lookup-put k j v ((i, w) ∷ m) = ground (arith, lookup-put k j v m)

  pub lookup-delete :
      (k j : K) (m : List (K × V)) → lookup j (delete k m) ≡ (if k == j then none else lookup j m)
  lookup-delete k j [] = ground arith
  lookup-delete k j ((i, w) ∷ m) = ground (arith, lookup-delete k j m)
