-- ===== src/Book/Good.antt =====
-- The orders of a side: at their price, on their side, with a quantity that is a positive `u64`.
use mathlib.Core.Path.{subst}
use ferrox.Prelude.{
  sym, Bool-cases, Option-cases, [], arith, eqb_ℤ, eqb_ℤ_iff, inl, inr, length, ltb_ℤ, some, ℤ,
  ◌++◌, ◌<◌, ◌∷◌, ◌≡◌,
}
use ferrox.Order.{Order, Side}
use ferrox.Arena.Seg.{Cells}
use ferrox.Collections.TreeMap
use ferrox.Book.Queues.{or_empty, Queues, cells_at}

pub record GoodOrder (s : Side) (p : ℤ) (o : Order) : Type 0 where
  pub side : o.side ≡ s
  pub price : o.price ≡ p
  pub positive : 0 < o.quantity
  pub word : o.quantity < 18_446_744_073_709_551_616

abbrev pub GoodCells : Side → ℤ → Cells → Type 0
GoodCells s p [] = Unit
GoodCells s p ((i, o) ∷ cs) = GoodOrder s p o × GoodCells s p cs

-- No level is empty.
abbrev pub GoodQueues : Side → Queues → Type 0
GoodQueues s [] = Unit
GoodQueues s ((p, cs) ∷ qs) = (0 < length cs) × GoodCells s p cs × GoodQueues s qs

pub GoodCells-append :
    (s : Side) (p : ℤ) (xs ys : Cells)
    → GoodCells s p xs
    → GoodCells s p ys
    → GoodCells s p (xs ++ ys)
GoodCells-append s p [] ys g h = h
GoodCells-append s p (x ∷ xs) ys g h = (g.0, GoodCells-append s p xs ys g.1 h)

pub GoodCells-split :
    (s : Side) (p : ℤ) (xs ys : Cells)
    → GoodCells s p (xs ++ ys)
    → GoodCells s p xs × GoodCells s p ys
GoodCells-split s p [] ys g = (tt, g)
GoodCells-split s p (x ∷ xs) ys g = let (a, b) = GoodCells-split s p xs ys g.1 in ((g.0, a), b)

pub GoodQueues-lookup :
    (s : Side) (p : ℤ) (qs : Queues) {cs : Cells}
    → GoodQueues s qs
    → TreeMap.lookup p qs ≡ some cs
    → (0 < length cs) × GoodCells s p cs
GoodQueues-lookup s p [] g e = cc
GoodQueues-lookup s p ((q, ds) ∷ qs) {cs} g e = elim (Bool-cases (eqb_ℤ q p)) [
  | inl hit ↦
      let same : ds ≡ cs = ground arith in
      let price : q ≡ p = (eqb_ℤ_iff q p).0 hit in
      (
        subst (λ xs. 0 < length xs) same g.0,
        subst (λ xs. GoodCells s p xs) same (subst (λ k. GoodCells s k ds) price g.1),
      )
  | inr miss ↦ GoodQueues-lookup s p qs g.2 (ground arith)
]

pub GoodCells-cells_at :
    (s : Side) (p : ℤ) (qs : Queues) → GoodQueues s qs → GoodCells s p (cells_at p qs)
GoodCells-cells_at s p qs g = elim (Option-cases (TreeMap.lookup p qs)) [
  | inl missing ↦ subst (λ o. GoodCells s p (or_empty o)) (sym missing) tt
  | inr (cs, found) ↦
      subst (λ o. GoodCells s p (or_empty o)) (sym found) ((GoodQueues-lookup s p qs g found).1)
]

pub GoodQueues-insert :
    (s : Side) (p : ℤ) (cs : Cells) (qs : Queues)
    → GoodQueues s qs
    → 0 < length cs
    → GoodCells s p cs
    → GoodQueues s (TreeMap.insert p cs qs)
GoodQueues-insert s p cs [] g n h = (n, h, tt)
GoodQueues-insert s p cs ((q, ds) ∷ qs) g n h = elim (Bool-cases (eqb_ℤ q p)) [
  | inl hit ↦ rw hit (n, h, g.2)
  | inr miss ↦ rw miss (elim (Bool-cases (ltb_ℤ p q)) [
    | inl below ↦ rw below (n, h, g)
    | inr above ↦ rw above (g.0, g.1, GoodQueues-insert s p cs qs g.2 n h)
  ])
]

pub GoodQueues-remove :
    (s : Side) (p : ℤ) (qs : Queues) → GoodQueues s qs → GoodQueues s (TreeMap.remove p qs)
GoodQueues-remove s p [] g = tt
GoodQueues-remove s p ((q, ds) ∷ qs) g = elim (Bool-cases (eqb_ℤ q p)) [
  | inl hit ↦ rw hit g.2
  | inr miss ↦ rw miss (g.0, g.1, GoodQueues-remove s p qs g.2)
]
