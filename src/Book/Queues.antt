-- ===== src/Book/Queues.antt =====
-- The queues that the price levels of one side stand for, and sums over them.
use ferrox.Prelude.{
  Option, ltb_ℤ, Bool-cases, List, [], arith, eqb_ℤ, get_elem?, inl, inr, none, refl, some, ℤ, ◌+◌,
  ◌<◌, ◌∷◌, ◌≡◌, ◌≤◌, ℕ,
}
use mathlib.Core.Path.{subst}
use ferrox.Arena.{Storage, PriceLevel}
use ferrox.Arena.Seg.{Cells, uses}
use ferrox.Arena.Level.{IsLevel, IsLevel-frame}
use ferrox.Collections.TreeMap
use ferrox.Collections.TreeMap.Sorted.{lookup-Above, IsSorted}
use ferrox.Book.{Levels}

-- Each price with the cells of its level, ascending.
abbrev pub Queues : Type 0
Queues = List (ℤ × Cells)

-- The cells at a price, none if it has no level.
abbrev pub or_empty : Option Cells → Cells
or_empty none = []
or_empty (some cs) = cs

abbrev pub cells_at : ℤ → Queues → Cells
cells_at p qs = or_empty (TreeMap.lookup p qs)

module _ (f : Cells → ℕ) where
  abbrev pub sum : Queues → ℕ
  sum [] = 0
  sum ((p, cs) ∷ qs) = f cs + sum qs

  pub sum-insert :
      (p : ℤ) (cs : Cells) (qs : Queues)
      → f [] ≡ 0
      → IsSorted qs
      → sum (TreeMap.insert p cs qs) + f (cells_at p qs) ≡ sum qs + f cs
  sum-insert p cs [] e s = omega arith
  sum-insert p cs ((q, ds) ∷ qs) e s =
      ground (arith, sum-insert p cs qs e s.1, lookup-Above p q qs s.0)

  pub sum-remove :
      (p : ℤ) (qs : Queues) → f [] ≡ 0 → sum (TreeMap.remove p qs) + f (cells_at p qs) ≡ sum qs
  sum-remove p [] e = omega arith
  sum-remove p ((q, ds) ∷ qs) e = ground (arith, sum-remove p qs e)

  -- What a level has, the side has.
  pub sum-lookup : (p : ℤ) (qs : Queues) → f [] ≡ 0 → f (cells_at p qs) ≤ sum qs
  sum-lookup p [] e = omega arith
  sum-lookup p ((q, ds) ∷ qs) e = ground (arith, sum-lookup p qs e)

-- The levels of a side stand for the queues.
pub data IsLevels (st : Storage) : Levels → Queues → Type 0 where
  nil : IsLevels st [] []
  cons :
      {p : ℤ} {l : PriceLevel} {cs : Cells} {m : Levels} {qs : Queues}
      → IsLevel st l cs
      → IsLevels st m qs
      → IsLevels st ((p, l) ∷ m) ((p, cs) ∷ qs)

pub IsLevels-frame :
    {st st' : Storage} {m : Levels} {qs : Queues}
    → IsLevels st m qs
    → ((a : ℕ) → 0 < sum (uses a) qs → get_elem? st' a ≡ get_elem? st a)
    → IsLevels st' m qs
IsLevels-frame nil same = nil
IsLevels-frame (cons is rest) same =
    cons (IsLevel-frame is (λ a u. same a (omega arith)))
      (IsLevels-frame rest (λ a u. same a (omega arith)))

-- A price has a level exactly if it has a queue, and the level stands for the queue.
pub IsLevels-lookup :
    {st : Storage} {m : Levels} {qs : Queues} (p : ℤ) {cs : Cells}
    → IsLevels st m qs
    → TreeMap.lookup p qs ≡ some cs
    → (l : PriceLevel) × (TreeMap.lookup p m ≡ some l) × IsLevel st l cs
IsLevels-lookup p nil e = cc
IsLevels-lookup {st} p {cs} (cons {p = q} {l} {cs = ds} is rest) e = elim (Bool-cases (eqb_ℤ q p)) [
  | inl hit ↦
      let same : ds ≡ cs = ground arith in (l, ground arith, subst (λ xs. IsLevel st l xs) same is)
  | inr miss ↦
      let (l', found, is') = IsLevels-lookup p rest (ground arith) in (l', ground arith, is')
]

pub IsLevels-lookup-none :
    {st : Storage} {m : Levels} {qs : Queues} (p : ℤ)
    → IsLevels st m qs
    → TreeMap.lookup p qs ≡ none
    → TreeMap.lookup p m ≡ none
IsLevels-lookup-none p nil e = refl
IsLevels-lookup-none p (cons {p = q} is rest) e = ground (arith, IsLevels-lookup-none p rest)

-- Both ends of a side are those of its queues.
pub first_key-IsLevels :
    {st : Storage} {m : Levels} {qs : Queues}
    → IsLevels st m qs
    → TreeMap.first_key m ≡ TreeMap.first_key qs
first_key-IsLevels nil = refl
first_key-IsLevels (cons is rest) = refl

pub last_key-IsLevels :
    {st : Storage} {m : Levels} {qs : Queues}
    → IsLevels st m qs
    → TreeMap.last_key m ≡ TreeMap.last_key qs
last_key-IsLevels nil = refl
last_key-IsLevels (cons is nil) = refl
last_key-IsLevels (cons is (cons is' rest)) = last_key-IsLevels (cons is' rest)

-- No index stands twice on a side.
abbrev pub UniqSide : Queues → Type 0
UniqSide qs = (a : ℕ) → sum (uses a) qs ≤ 1

-- The level at a price is replaced, where the storage has changed only outside of the other levels.
pub IsLevels-insert :
    {st st' : Storage} {m : Levels} {qs : Queues} {l : PriceLevel} {cs : Cells} (p : ℤ)
    → IsLevels st m qs
    → IsSorted qs
    → UniqSide qs
    → IsLevel st' l cs
    → ((a : ℕ)
        → 0 < sum (uses a) qs
        → uses a (cells_at p qs) ≡ 0
        → get_elem? st' a ≡ get_elem? st a)
    → IsLevels st' (TreeMap.insert p l m) (TreeMap.insert p cs qs)
IsLevels-insert p nil s u is' same = cons is' nil
IsLevels-insert {st' = st2} {l} {cs} p (cons {p = q} {l = l0} {cs = ds} {m} {qs} is rest) s u is'
      same =
    elim (Bool-cases (eqb_ℤ q p)) [
      | inl hit ↦
          rw hit
            (cons is' (IsLevels-frame rest (λ a i. same a (omega arith) (ground (arith, u a)))))
      | inr miss ↦ rw miss (elim (Bool-cases (ltb_ℤ p q)) [
        | inl below ↦ rw below (
            cons is' (
              IsLevels-frame (cons {p = q} is rest)
                (λ a i. same a i (ground (arith, lookup-Above p q qs s.0)))))
        | inr above ↦ rw above (
            cons
              (IsLevel-frame is
                (λ a i. same a (omega arith) (ground (arith, u a, sum-lookup (uses a) p qs refl))))
              (IsLevels-insert p rest s.1 (λ a. omega (arith, u a)) is'
                (λ a i out. same a (omega arith) (ground arith))))
      ])
    ]

-- The level at a price is removed, where the storage has changed only inside of it.
pub IsLevels-remove :
    {st st' : Storage} {m : Levels} {qs : Queues} (p : ℤ)
    → IsLevels st m qs
    → UniqSide qs
    → ((a : ℕ)
        → 0 < sum (uses a) qs
        → uses a (cells_at p qs) ≡ 0
        → get_elem? st' a ≡ get_elem? st a)
    → IsLevels st' (TreeMap.remove p m) (TreeMap.remove p qs)
IsLevels-remove p nil u same = nil
IsLevels-remove p (cons {p = q} {cs = ds} {qs} is rest) u same = elim (Bool-cases (eqb_ℤ q p)) [
  | inl hit ↦ rw hit (IsLevels-frame rest (λ a i. same a (omega arith) (ground (arith, u a))))
  | inr miss ↦ rw miss (
      cons
        (IsLevel-frame is
          (λ a i. same a (omega arith) (ground (arith, u a, sum-lookup (uses a) p qs refl))))
        (IsLevels-remove p rest (λ a. omega (arith, u a))
          (λ a i out. same a (omega arith) (ground arith))))
]
