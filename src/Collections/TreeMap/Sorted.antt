-- ===== src/Collections/TreeMap/Sorted.antt =====
-- The entries of a `BTreeMap` stand in ascending order, and what that says of its ends.
use mathlib.Core.Path.{subst}
use ferrox.Prelude.{
  Bool-cases, Option-cases, eq_of_parts, eqb_ℤ, inl, inr, max_ℤ, List, [], arith, eqb_ℤ_iff, min_ℤ,
  none, refl, some, ℤ, ◌<ℤ◌, ◌∷◌, ◌≡◌, ◌≤ℤ◌,
}
use ferrox.Collections.TreeMap.{lookup, insert, remove, first_key, last_key}

module _ {V : Type 0} where
  -- Every key lies above `k`.
  abbrev pub Above : ℤ → List (ℤ × V) → Type 0
  Above k [] = Unit
  Above k ((j, v) ∷ m) = (k <ℤ j) × Above k m

  abbrev pub IsSorted : List (ℤ × V) → Type 0
  IsSorted [] = Unit
  IsSorted ((k, v) ∷ m) = Above k m × IsSorted m

  pub Above-trans : (j k : ℤ) (m : List (ℤ × V)) → j ≤ℤ k → Above k m → Above j m
  Above-trans j k [] h a = tt
  Above-trans j k ((i, v) ∷ m) h a = (omega arith, Above-trans j k m h a.1)

  pub lookup-Above : (p k : ℤ) (m : List (ℤ × V)) → Above k m → p ≤ℤ k → lookup p m ≡ none
  lookup-Above p k [] a h = refl
  lookup-Above p k ((j, v) ∷ m) a h = ground (arith, lookup-Above p k m a.1 h)

  Above-insert : (j p : ℤ) (v : V) (m : List (ℤ × V)) → j <ℤ p → Above j m → Above j (insert p v m)
  Above-insert j p v [] h a = (h, tt)
  Above-insert j p v ((i, w) ∷ m) h a = ground (arith, Above-insert j p v m h a.1)

  pub IsSorted-insert : (p : ℤ) (v : V) (m : List (ℤ × V)) → IsSorted m → IsSorted (insert p v m)
  IsSorted-insert p v [] s = (tt, tt)
  IsSorted-insert p v ((j, w) ∷ m) s =
      ground
        (arith, IsSorted-insert p v m s.1, Above-insert j p v m, Above-trans p j m, eqb_ℤ_iff j p)

  Above-remove : (j p : ℤ) (m : List (ℤ × V)) → Above j m → Above j (remove p m)
  Above-remove j p [] a = tt
  Above-remove j p ((i, w) ∷ m) a = ground (arith, Above-remove j p m a.1)

  pub IsSorted-remove : (p : ℤ) (m : List (ℤ × V)) → IsSorted m → IsSorted (remove p m)
  IsSorted-remove p [] s = tt
  IsSorted-remove p ((j, w) ∷ m) s = ground (arith, IsSorted-remove p m s.1, Above-remove j p m)

  -- The least key after an insertion.
  pub first_key-insert :
      (p : ℤ) (v : V) (m : List (ℤ × V))
      → first_key (insert p v m) ≡ some (elim (first_key m) [ none ↦ p | some a ↦ min_ℤ a p ])
  first_key-insert p v [] = refl
  first_key-insert p v ((j, w) ∷ m) = ground (arith, eqb_ℤ_iff j p)

  -- The last key lies above whatever all keys lie above.
  pub last_key-Above : (k : ℤ) (m : List (ℤ × V)) {b : ℤ} → Above k m → last_key m ≡ some b → k <ℤ b
  last_key-Above k [] a e = cc
  last_key-Above k ((j, v) ∷ []) a e = ground arith
  last_key-Above k ((j, v) ∷ x ∷ m) a e = last_key-Above k (x ∷ m) a.1 e

  pub last_key-cons :
      (j : ℤ) (v : V) (m : List (ℤ × V))
      → last_key ((j, v) ∷ m) ≡ some (elim (last_key m) [ none ↦ j | some b ↦ b ])
  last_key-cons j v [] = refl
  last_key-cons j v ((i, w) ∷ []) = refl
  last_key-cons j v ((i, w) ∷ x ∷ m) = ground (arith, last_key-cons i w (x ∷ m))

  -- The greatest key after an insertion.
  pub last_key-insert :
      (p : ℤ) (v : V) (m : List (ℤ × V))
      → IsSorted m
      → last_key (insert p v m) ≡ some (elim (last_key m) [ none ↦ p | some b ↦ max_ℤ b p ])
  last_key-insert p v [] s = refl
  last_key-insert p v ((j, w) ∷ m) s = ground (
    arith,
    eqb_ℤ_iff j p,
    last_key-insert p v m s.1,
    last_key-cons j w m,
    last_key-cons j v m,
    last_key-cons p v m,
    last_key-cons p v ((j, w) ∷ m),
    last_key-cons j w (insert p v m),
    last_key-Above j m s.0,
  )

  -- A key that is found lies between the ends.
  pub lookup-first_key :
      (p : ℤ) (m : List (ℤ × V)) {v : V} {a : ℤ}
      → IsSorted m
      → lookup p m ≡ some v
      → first_key m ≡ some a
      → a ≤ℤ p
  lookup-first_key p [] s e f = cc
  lookup-first_key p ((j, w) ∷ m) s e f = ground (arith, eqb_ℤ_iff j p, lookup-Above p j m s.0)

  -- The ends of the map are entries.
  pub lookup_first :
      (m : List (ℤ × V)) {a : ℤ} → first_key m ≡ some a → (v : V) × (lookup a m ≡ some v)
  lookup_first [] e = cc
  lookup_first ((j, v) ∷ m) {a} e = (v, ground (arith, eqb_ℤ_iff j a))

  pub lookup_last :
      (m : List (ℤ × V)) {a : ℤ}
      → IsSorted m
      → last_key m ≡ some a
      → (v : V) × (lookup a m ≡ some v)
  lookup_last [] s e = cc
  lookup_last ((j, v) ∷ []) {a} s e = (v, ground (arith, eqb_ℤ_iff j a))
  lookup_last ((j, v) ∷ x ∷ m) {a} s e =
      let (w, found) = lookup_last (x ∷ m) s.1 e in
      (w, ground (arith, eqb_ℤ_iff j a, last_key-Above j (x ∷ m) s.0 e))

  pub lookup-last_key :
      (p : ℤ) (m : List (ℤ × V)) {v : V} {b : ℤ}
      → IsSorted m
      → lookup p m ≡ some v
      → last_key m ≡ some b
      → p ≤ℤ b
  lookup-last_key p [] s e f = cc
  lookup-last_key p ((j, w) ∷ []) s e f = ground (arith, eqb_ℤ_iff j p)
  lookup-last_key p ((j, w) ∷ x ∷ m) {v} {b} s e f = elim (Bool-cases (eqb_ℤ j p)) [
    | inl hit ↦
        let here : j ≡ p = (eqb_ℤ_iff j p).0 hit in
        let above = last_key-Above j (x ∷ m) s.0 f in subst (λ k. k ≤ℤ b) here (omega arith)
    | inr miss ↦ lookup-last_key p (x ∷ m) {v = v} s.1 (ground arith) f
  ]

  -- Replacing an entry keeps both ends.
  pub first_key-replace :
      (p : ℤ) (v : V) (m : List (ℤ × V)) {w : V}
      → IsSorted m
      → lookup p m ≡ some w
      → first_key (insert p v m) ≡ first_key m
  first_key-replace p v [] s e = cc
  first_key-replace p v ((j, w) ∷ m) s e = ground (arith, eqb_ℤ_iff j p, lookup-Above p j m s.0)

  pub last_key-replace :
      (p : ℤ) (v : V) (m : List (ℤ × V)) {w : V}
      → IsSorted m
      → lookup p m ≡ some w
      → last_key (insert p v m) ≡ last_key m
  last_key-replace p v [] s e = cc
  last_key-replace p v ((j, u) ∷ m) {w} s e = elim (Option-cases (last_key ((j, u) ∷ m))) [
    | inl none_last ↦ absurd (ground (arith, last_key-cons j u m))
    | inr (b, last) ↦ ground (
      arith,
      last_key-insert p v ((j, u) ∷ m) s,
      lookup-last_key p ((j, u) ∷ m) {v = w} s e last,
      eq_of_parts b p,
    )
  ]
