-- ===== src/Collections/HashMap/Laws.antt =====
-- What a lookup finds after an insertion or a removal, and how many entries there are.
use ferrox.Prelude.{
  List, [], arith, if◌then◌else◌, length, none, refl, some, ◌+◌, ◌==◌, ◌∷◌, ◌≡◌, ◌≤◌, ℕ,
}
use ferrox.Collections.HashMap.{lookup, insert, remove}

module _ {V : Type 0} where
  -- How often a key stands in the entries.
  abbrev pub occurs : ℕ → List (ℕ × V) → ℕ
  occurs k [] = 0
  occurs k ((j, v) ∷ m) = (if j == k then 1 else 0) + occurs k m

  -- Every key has one entry at most.
  abbrev pub IsMap : List (ℕ × V) → Type 0
  IsMap m = (k : ℕ) → occurs k m ≤ 1

  pub lookup-insert :
      (k j : ℕ) (v : V) (m : List (ℕ × V))
      → lookup j (insert k v m) ≡ (if k == j then some v else lookup j m)
  lookup-insert k j v [] = refl
  lookup-insert k j v ((i, w) ∷ m) = ground (arith, lookup-insert k j v m)

  pub lookup-none : (k : ℕ) (m : List (ℕ × V)) → occurs k m ≡ 0 → lookup k m ≡ none
  lookup-none k [] e = refl
  lookup-none k ((i, w) ∷ m) e = ground (arith, lookup-none k m)

  pub lookup-remove :
      (k j : ℕ) (m : List (ℕ × V))
      → IsMap m
      → lookup j (remove k m) ≡ (if k == j then none else lookup j m)
  lookup-remove k j [] u = ground arith
  lookup-remove k j ((i, w) ∷ m) u =
      ground (arith, lookup-remove k j m (λ a. omega (arith, u a)), lookup-none k m, u k)

  occurs-insert :
      (k j : ℕ) (v : V) (m : List (ℕ × V))
      → lookup k m ≡ none
      → occurs j (insert k v m) ≡ (if k == j then 1 else 0) + occurs j m
  occurs-insert k j v [] e = refl
  occurs-insert k j v ((i, w) ∷ m) e = ground (arith, occurs-insert k j v m)

  occurs-none : (k : ℕ) (m : List (ℕ × V)) → lookup k m ≡ none → occurs k m ≡ 0
  occurs-none k [] e = refl
  occurs-none k ((i, w) ∷ m) e = ground (arith, occurs-none k m)

  occurs-remove : (k j : ℕ) (m : List (ℕ × V)) → occurs j (remove k m) ≤ occurs j m
  occurs-remove k j [] = omega arith
  occurs-remove k j ((i, w) ∷ m) = ground (arith, occurs-remove k j m)

  pub IsMap-insert :
      (k : ℕ) (v : V) (m : List (ℕ × V)) → IsMap m → lookup k m ≡ none → IsMap (insert k v m)
  IsMap-insert k v m u e j = ground (arith, occurs-insert k j v m e, occurs-none k m e, u j)

  pub IsMap-remove : (k : ℕ) (m : List (ℕ × V)) → IsMap m → IsMap (remove k m)
  IsMap-remove k m u j = omega (arith, occurs-remove k j m, u j)

  pub length-insert :
      (k : ℕ) (v : V) (m : List (ℕ × V)) → lookup k m ≡ none → length (insert k v m) ≡ length m + 1
  length-insert k v [] e = omega arith
  length-insert k v ((i, w) ∷ m) e = ground (arith, length-insert k v m)

  pub length-remove :
      (k : ℕ) (m : List (ℕ × V)) {v : V} → lookup k m ≡ some v → length (remove k m) + 1 ≡ length m
  length-remove k [] e = cc
  length-remove k ((i, w) ∷ m) {v} e = ground (arith, length-remove k m {v = v})
