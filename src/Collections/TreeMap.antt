-- ===== src/Collections/TreeMap.antt =====
-- A `BTreeMap<i64, V>`: its entries in ascending order of the keys.
pub mod Sorted
use ferrox.Prelude.{List, Option, [], eqb_ℤ, if◌then◌else◌, ltb_ℤ, none, some, ℤ, ◌∷◌, ℕ}

module _ {ℓ} {V : Type ℓ} where
  -- `get`, `get_mut`
  abbrev pub lookup : ℤ → List (ℤ × V) → Option V
  lookup k [] = none
  lookup k ((j, v) ∷ m) = if eqb_ℤ j k then some v else lookup k m

  -- `insert`, and the write through `get_mut` or `entry`
  abbrev pub insert : ℤ → V → List (ℤ × V) → List (ℤ × V)
  insert k v [] = (k, v) ∷ []
  insert k v ((j, w) ∷ m) =
      if eqb_ℤ j k
      then (k, v) ∷ m
      else (if ltb_ℤ k j then (k, v) ∷ (j, w) ∷ m else (j, w) ∷ insert k v m)

  abbrev pub remove : ℤ → List (ℤ × V) → List (ℤ × V)
  remove k [] = []
  remove k ((j, v) ∷ m) = if eqb_ℤ j k then m else (j, v) ∷ remove k m

  -- `keys().next()`
  abbrev pub first_key : List (ℤ × V) → Option ℤ
  first_key [] = none
  first_key ((k, v) ∷ m) = some k

  -- `keys().next_back()`
  abbrev pub last_key : List (ℤ × V) → Option ℤ
  last_key [] = none
  last_key ((k, v) ∷ []) = some k
  last_key ((k, v) ∷ e ∷ m) = last_key (e ∷ m)
