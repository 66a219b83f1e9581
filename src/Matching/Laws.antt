-- ===== src/Matching/Laws.antt =====
-- What follows from a sweep for the fills of `add_order`.
use ferrox.Prelude.{ap, arith, refl, true, ◌+◌, ◌<◌, ◌∙◌, ◌∷◌, ◌≡◌, ℕ, List, Bool, []}
use ferrox.Order.{Order, Side}
use ferrox.Book.View.{queues, View, IsBook}
use ferrox.Book.Good.{GoodQueues-lookup}
use ferrox.Matching.{Fill, opposite, crosses}
use ferrox.Matching.Sweep.{Sweep, Front, fill_of}
use ferrox.Book.{OrderBook}

-- The quantity that fills trade.
abbrev pub traded_quantity : List Fill → ℕ
traded_quantity [] = 0
traded_quantity (f ∷ fills) = f.quantity + traded_quantity fills

-- Nothing of the taker is lost: what was traded and what is left make up what it had.
pub traded_quantity-Sweep :
    {taker : Order} {v : View} {q : ℕ} {fills : List Fill} {v' : View} {q' : ℕ} {self : Bool}
    → Sweep taker v q fills v' q' self
    → traded_quantity fills + q' ≡ q
traded_quantity-Sweep (Sweep.done e) = omega arith
traded_quantity-Sweep (Sweep.uncrossed more apart) = omega arith
traded_quantity-Sweep (Sweep.own f more cross mine) = omega arith
traded_quantity-Sweep (Sweep.trade {q} f more cross other rest) =
    omega (arith, traded_quantity-Sweep rest)

-- A fill that a taker may be given: of some quantity, at a price within the taker's limit.
pub record IsFair (taker : Order) (fill : Fill) : Type 0 where
  pub taker_is : fill.taker_order_id ≡ taker.id
  pub positive : 0 < fill.quantity
  pub within : crosses taker.side fill.price taker.price ≡ true

abbrev pub AllFair : Order → List Fill → Type 0
AllFair taker [] = Unit
AllFair taker (f ∷ fills) = IsFair taker f × AllFair taker fills

-- The fill that a round makes is fair.
pub fill_of-IsFair :
    (taker : Order) (q : ℕ) {v : View} {b : OrderBook}
    → IsBook b v
    → (f : Front v (opposite taker.side)) → 0 < q
    → crosses taker.side f.price taker.price ≡ true
    → IsFair taker (fill_of taker q f)
fill_of-IsFair taker q {v} is f more cross =
    let s : Side = opposite taker.side in
    let good = (GoodQueues-lookup s f.price (queues v s) (is.good s) f.queue).1.0 in
    let some_left = good.positive in
    record {
      taker_is = refl;
      positive = ground arith;
      within = ap (λ k. crosses taker.side k taker.price) good.price ∙ cross;
    }
