-- ===== src/Matching/Sweep.antt =====
-- What the loops of `add_order` do, on the queues alone: price-time priority as a relation.
use ferrox.Prelude.{Bool, List, [], false, min, some, true, ℤ, ◌-◌, ◌<◌, ◌==◌, ◌∷◌, ◌≡◌, ◌≢◌, ℕ}
use ferrox.Order.{Order, Side}
use ferrox.Arena.Seg.{Cells}
use ferrox.Collections.TreeMap
use ferrox.Book.View.{View, queues, best_key}
use ferrox.Book.Reduce.{take_front}
use ferrox.Matching.{Fill, opposite, crosses}

-- The order that a side offers first: the oldest at the best price.
pub record Front (v : View) (s : Side) : Type 0 where
  pub price : ℤ
  pub slot : ℕ
  pub order : Order
  pub behind : Cells
  pub is_best : best_key s (queues v s) ≡ some price
  pub queue : TreeMap.lookup price (queues v s) ≡ some ((slot, order) ∷ behind)

-- The fill of a taker of which `quantity` is left.
abbrev pub fill_of : Order → ℕ → {v : View} {s : Side} → Front v s → Fill
fill_of taker quantity f = record {
  taker_order_id = taker.id;
  maker_order_id = f.order.id;
  price = f.order.price;
  quantity = min quantity f.order.quantity;
  maker_fully_filled = (f.order.quantity - min quantity f.order.quantity) == 0;
}

-- The view when that fill is taken off the maker.
abbrev pub filled : (quantity : ℕ) {v : View} {s : Side} → Front v s → View
filled quantity {v} {s} f =
    take_front s f.price f.slot f.order f.behind (min quantity f.order.quantity) v

-- No maker crosses the taker.
abbrev pub Uncrossed : Order → View → Type 0
Uncrossed taker v =
    (p : ℤ)
    → best_key (opposite taker.side) (queues v (opposite taker.side)) ≡ some p
    → crosses taker.side p taker.price ≡ false

-- `Sweep taker v q fills v' q' self`: with `q` of the taker left, the makers of `v` are traded with
-- in their order, which makes the fills and leaves `v'` and `q'`; `self` tells whether it ends at an
-- order of the taker's own trader.
pub data Sweep (taker : Order) : View → ℕ → List Fill → View → ℕ → Bool → Type 0 where
  done : {v : View} {q : ℕ} → q ≡ 0 → Sweep taker v q [] v q false
  uncrossed : {v : View} {q : ℕ} → 0 < q → Uncrossed taker v → Sweep taker v q [] v q false
  own :
      {v : View} {q : ℕ} (f : Front v (opposite taker.side))
      → 0 < q
      → crosses taker.side f.price taker.price ≡ true
      → f.order.trader_id ≡ taker.trader_id
      → Sweep taker v q [] v q true
  trade :
      {v : View} {q : ℕ} {fills : List Fill} {v' : View} {q' : ℕ} {self : Bool}
      (f : Front v (opposite taker.side))
      → 0 < q
      → crosses taker.side f.price taker.price ≡ true
      → f.order.trader_id ≢ taker.trader_id
      → Sweep taker (filled q f) (q - min q f.order.quantity) fills v' q' self
      → Sweep taker v q (fill_of taker q f ∷ fills) v' q' self
