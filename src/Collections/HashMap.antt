-- ===== src/Collections/HashMap.antt =====
-- A `HashMap<u64, V>`, whose order the code never observes.
pub mod Laws
use ferrox.Prelude.{List, Option, [], if◌then◌else◌, none, some, ◌==◌, ◌∷◌, ℕ}

module _ {ℓ} {V : Type ℓ} where
  -- `get`, `contains_key`
  abbrev pub lookup : ℕ → List (ℕ × V) → Option V
  lookup k [] = none
  lookup k ((j, v) ∷ m) = if j == k then some v else lookup k m

  abbrev pub insert : ℕ → V → List (ℕ × V) → List (ℕ × V)
  insert k v [] = (k, v) ∷ []
  insert k v ((j, w) ∷ m) = if j == k then (k, v) ∷ m else (j, w) ∷ insert k v m

  abbrev pub remove : ℕ → List (ℕ × V) → List (ℕ × V)
  remove k [] = []
  remove k ((j, v) ∷ m) = if j == k then m else (j, v) ∷ remove k m
