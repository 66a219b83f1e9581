-- ===== src/Book/Find.antt =====
-- Where the order that the index names stands.
use mathlib.Core.Path.{subst}
use ferrox.Prelude.{
  Bool-cases, [], ap, arith, eqb_ℤ_iff, eqb_ℤ_refl, inl, inr, ltb, some, ℤ, ◌&&◌, ◌++◌, ◌<◌, ◌==◌,
  ◌∙◌, ◌∷◌, ◌≡◌, ℕ,
}
use ferrox.Order.{Order, Side, bid, ask}
use ferrox.Arena.Seg.{Cells}
use ferrox.Collections.TreeMap
use ferrox.Collections.TreeMap.Sorted.{IsSorted, lookup-Above}
use ferrox.Collections.HashMap
use ferrox.Book.{OrderBook}
use ferrox.Book.Queues.{Queues, sum}
use ferrox.Book.Good.{GoodCells, GoodOrder, GoodQueues-lookup, GoodCells-split}
use ferrox.Book.View.{View, queues, pairs, IsBook}

-- The cell that holds the order of this id at this index, and what stands round it.
pub record Cell (id i : ℕ) (cs : Cells) : Type 0 where
  pub before : Cells
  pub order : Order
  pub behind : Cells
  pub split : cs ≡ before ++ (i, order) ∷ behind
  pub id_is : order.id ≡ id

find-Cell : (id i : ℕ) (cs : Cells) → 0 < pairs id i cs → Cell id i cs
find-Cell id i [] h = absurd (omega arith)
find-Cell id i ((j, o) ∷ cs) h = elim (Bool-cases (o.id == id && j == i)) [
  | inl here ↦ record {
    before = [];
    order = o;
    behind = cs;
    split = ground arith;
    id_is = ground arith;
  }
  | inr further ↦
      let c = find-Cell id i cs (ground arith) in
      record {
        before = (j, o) ∷ c.before;
        order = c.order;
        behind = c.behind;
        split = ap (λ (xs : Cells). (j, o) ∷ xs) c.split;
        id_is = c.id_is;
      }
]

-- A queue that holds the order.
pub find_queue :
    (id i : ℕ) (qs : Queues)
    → IsSorted qs
    → 0 < sum (pairs id i) qs
    → (p : ℤ) × (cs : Cells) × (TreeMap.lookup p qs ≡ some cs) × (0 < pairs id i cs)
find_queue id i [] s h = absurd (omega arith)
find_queue id i ((q, cs) ∷ qs) s h = elim (Bool-cases (ltb 0 (pairs id i cs))) [
  | inl here ↦ (q, cs, ground (arith, eqb_ℤ_refl q), ground arith)
  | inr further ↦
      let (p, ds, found, inside) = find_queue id i qs s.1 (ground arith) in
      (p, ds, ground (arith, eqb_ℤ_iff q p, lookup-Above p q qs s.0), inside)
]

-- An order of the book, found at its price and side.
pub record Found (v : View) (id i : ℕ) : Type 0 where
  pub before : Cells
  pub order : Order
  pub behind : Cells
  pub id_is : order.id ≡ id
  pub queue :
      TreeMap.lookup order.price (queues v order.side) ≡ some (before ++ (i, order) ∷ behind)

module _ {b : OrderBook} {v : View} (is : IsBook b v) {id i : ℕ} where
  find_on : (s : Side) → 0 < sum (pairs id i) (queues v s) → Found v id i
  find_on s h =
      let (p, cs, found, inside) = find_queue id i (queues v s) (is.sorted s) h in
      let c = find-Cell id i cs inside in
      let good =
        subst (λ xs. GoodCells s p xs) c.split
          (GoodQueues-lookup s p (queues v s) (is.good s) found).1 in
      let fits : GoodOrder s p c.order =
        (GoodCells-split s p c.before ((i, c.order) ∷ c.behind) good).1.0 in
      record {
        before = c.before;
        order = c.order;
        behind = c.behind;
        id_is = c.id_is;
        queue = rw (fits.side, fits.price) (found ∙ ap some c.split);
      }

  -- The index names an order that stands in the queue of its price.
  pub index-Found : HashMap.lookup id b.order_index ≡ some i → Found v id i
  index-Found e = elim (Bool-cases (ltb 0 (sum (pairs id i) v.bids))) [
    | inl on_bids ↦ find_on bid (ground arith)
    | inr on_asks ↦ find_on ask (ground (arith, is.index id i))
  ]
