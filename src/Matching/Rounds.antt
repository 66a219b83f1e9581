-- ===== src/Matching/Rounds.antt =====
-- The loops of `add_order` sweep the queues, end within their fuel and do not fail.
use ferrox.Prelude.{
  Option, append_assoc, if◌then◌else◌, length-append, mono, List, append-nil, false, ltb, ok, suc,
  zero, Bool-cases, Option-cases, Returns, ap, bind, inl, inr, min, returns, true, ◌++◌, ◌-◌, ◌==◌,
  ◌≢◌, [], arith, length, refl, some, sym, ℤ, ◌<◌, ◌∙◌, ◌∷◌, ◌≡◌, ℕ,
}
use ferrox.Order.{Order, Side, bid, ask}
use ferrox.Collections.TreeMap
use ferrox.Collections.TreeMap.Sorted.{lookup_first, lookup_last}
use ferrox.Book.{OrderBook}
use ferrox.Book.View.{View, IsBook, best, best_key, queues, total_of}
use ferrox.Book.Good.{GoodQueues-lookup}
use ferrox.Book.Reduce.{front_indexed, reduce_front_quantity-take_front, peek_front-cons}
use mathlib.Core.Path.{subst}
use ferrox.Matching.{
  advance, next, stop, Fill, Loop, Round, opposite, crosses, best_price, trade, meet, round,
  match_loop, Outcome,
}
use ferrox.Book.Dequeue.{total_of-dequeue}
use ferrox.Matching.Sweep.{own, uncrossed, Front, Sweep, Uncrossed, filled, fill_of}
use ferrox.Arena.Seg.{node, Cells}
use ferrox.Arena.{arena_null}
use ferrox.Book.Queues.{or_empty}
use ferrox.Book.Change.{cells, total_of-cells}
use ferrox.Matching.Laws.{AllFair, fill_of-IsFair}

best_price-best : (b : OrderBook) (s : Side) → best_price b s ≡ best b s
best_price-best b bid = refl
best_price-best b ask = refl

lookup_best :
    {b : OrderBook} {v : View} (s : Side) {p : ℤ}
    → IsBook b v
    → best_key s (queues v s) ≡ some p
    → (cs : Cells) × (TreeMap.lookup p (queues v s) ≡ some cs)
lookup_best {v} bid is e = lookup_last v.bids (is.sorted bid) e
lookup_best {v} ask is e = lookup_first v.asks e

-- A cached best price leads to a maker.
pub best-Front :
    {b : OrderBook} {v : View} (s : Side) {p : ℤ}
    → IsBook b v
    → best b s ≡ some p
    → (f : Front v s) × (f.price ≡ p)
best-Front {v} s {p} is e =
    let (cs, found) = lookup_best s is (sym (is.best_is s) ∙ e) in
    go cs found (GoodQueues-lookup s p (queues v s) (is.good s) found).0
  where
    go :
        (cs : Cells)
        → TreeMap.lookup p (queues v s) ≡ some cs
        → 0 < length cs
        → (f : Front v s) × (f.price ≡ p)
    go [] found long = absurd (omega arith)
    go ((i, o) ∷ cs) found long = (
      record {
        price = p;
        slot = i;
        order = o;
        behind = cs;
        is_best = sym (is.best_is s) ∙ e;
        queue = found;
      },
      refl,
    )

-- What one round does: it halts at a price that does not cross or at the taker's own order, or it
-- trades with the maker at the front.
data Rounded (taker : Order) (s : Loop) (v : View) : Round → Type 0 where
  halted : Uncrossed taker v → Rounded taker s v (stop s)
  met_own :
      (f : Front v (opposite taker.side))
      → crosses taker.side f.price taker.price ≡ true
      → f.order.trader_id ≡ taker.trader_id
      → Rounded taker s v (stop (record s { self_trade = true }))
  traded :
      (f : Front v (opposite taker.side)) {b : OrderBook}
      → crosses taker.side f.price taker.price ≡ true
      → f.order.trader_id ≢ taker.trader_id
      → IsBook b (filled s.quantity f)
      → Rounded taker s v (
          next (record s {
            book = b;
            fills = s.fills ++ fill_of taker s.quantity f ∷ [];
            quantity = s.quantity - min s.quantity f.order.quantity;
          }))

module _ (taker : Order) (s : Loop) {v : View} (is : IsBook s.book v) where
  trade-Rounded :
      (f : Front v (opposite taker.side)) (n : ℕ)
      → crosses taker.side f.price taker.price ≡ true
      → f.order.trader_id ≢ taker.trader_id
      → Returns (Rounded taker s v) (trade taker s f.price (node f.order arena_null n))
  unfolding trade
  trade-Rounded f n cross other =
      bind
        (reduce_front_quantity-take_front is (opposite taker.side) f.price f.queue
          (min s.quantity f.order.quantity) (omega arith))
        λ (r, b) (r_is, is'). rw r_is (returns (traded f cross other is'))

  meet-Rounded :
      (f : Front v (opposite taker.side))
      → crosses taker.side f.price taker.price ≡ true
      → Returns (Rounded taker s v) (meet taker s f.price)
  unfolding meet
  meet-Rounded f cross =
      let (n, peek) = peek_front-cons is (opposite taker.side) f.price f.queue in
      rw peek (elim (Bool-cases (f.order.trader_id == taker.trader_id)) [
        | inl mine ↦ rw mine (returns (met_own f cross (ground arith)))
        | inr other ↦ rw other (trade-Rounded f n cross (λ e. ground arith))
      ])

  round-Rounded : Returns (Rounded taker s v) (round taker s)
  unfolding round
  round-Rounded =
      let side : Side = opposite taker.side in
      let cached = best_price-best s.book side in
      elim (Option-cases (best s.book side)) [
        | inl nobody ↦ rw (cached ∙ nobody, round) (returns (halted (λ p e. cc (is.best_is side))))
        | inr (p, offer) ↦
            rw (cached ∙ offer, round)
              (elim (Bool-cases (crosses taker.side p taker.price)) [
                | inl cross ↦ rw cross (
                    let (f, price_is) = best-Front side is offer in
                    subst (λ k. Returns (Rounded taker s v) (meet taker s k)) price_is
                      (meet-Rounded f
                        (ap (λ k. crosses taker.side k taker.price) price_is ∙ cross)))
                | inr apart ↦ rw apart (returns (halted (λ k e. cc (is.best_is side))))
              ])
      ]

-- How many makers can still be taken off the book.
abbrev pub left : ℕ → View → ℕ
left q v = if q == 0 then 0 else total_of length v

-- A trade finishes the taker, or takes a maker off the book.
left-filled :
    {b : OrderBook} {v : View} {s : Side}
    → IsBook b v
    → (q : ℕ) (f : Front v s) → 0 < q
    → left (q - min q f.order.quantity) (filled q f) < left q v
left-filled {v} {s} is q f some_left =
    let many = total_of-cells length s f.price v refl in
    let size : length (cells v s f.price) ≡ suc (length f.behind) =
      ap (λ (o : Option Cells). length (or_empty o)) f.queue in
    let found = front_indexed is s f.price f.queue in
    let fewer =
      total_of-dequeue is s f.price [] f.slot f.order f.behind f.queue found length refl
        (length-append {0}) in
    ground arith

-- What the loops leave: no error, a sweep of the queues, and a book that stands for what is left.
abbrev pub Swept : Order → Loop → View → Outcome → Type 0
Swept taker s v (r, s') =
    (fills : List Fill) × (v' : View) × (r ≡ ok tt)
    × (s'.fills ≡ s.fills ++ fills)
    × AllFair taker fills
    × Sweep taker v s.quantity fills v' s'.quantity s'.self_trade
    × IsBook s'.book v'

advance-Swept :
    (taker : Order) (s : Loop) {v : View} (again : Loop → Option Outcome)
    → IsBook s.book v
    → s.self_trade ≡ false
    → 0 < s.quantity
    → ((s' : Loop) (v' : View)
        → IsBook s'.book v'
        → s'.self_trade ≡ false
        → left s'.quantity v' < left s.quantity v
        → Returns (Swept taker s' v') (again s'))
    → {r : Round} → Rounded taker s v r
    → Returns (Swept taker s v) (advance again r)
advance-Swept taker s {v} again is fresh more loop (halted apart) =
    returns ([], v, refl, sym (append-nil s.fills), tt, rw fresh (uncrossed more apart), is)
advance-Swept taker s {v} again is fresh more loop (met_own f cross mine) =
    returns ([], v, refl, sym (append-nil s.fills), tt, own f more cross mine, is)
advance-Swept taker s again is fresh more loop (traded f cross other is') =
    mono (loop _ (filled s.quantity f) is' fresh (left-filled is s.quantity f more))
      λ (r, s') (fills, v', r_is, joined, fair, swept, left_is). (
        fill_of taker s.quantity f ∷ fills,
        v',
        r_is,
        joined ∙ append_assoc s.fills (fill_of taker s.quantity f ∷ []) fills,
        (fill_of-IsFair taker s.quantity is f more cross, fair),
        Sweep.trade f more cross other swept,
        left_is,
      )

-- The loops end by themselves within as many rounds as there are orders to meet, and one more; they
-- never fail, and what they do is a sweep of the queues.
pub match_loop-Swept :
    (fuel : ℕ) (taker : Order) (s : Loop) {v : View}
    → IsBook s.book v
    → s.self_trade ≡ false
    → left s.quantity v < fuel
    → Returns (Swept taker s v) (match_loop fuel taker s)
unfolding match_loop
match_loop-Swept zero taker s is fresh enough = absurd (omega arith)
match_loop-Swept (suc fuel) taker s {v} is fresh enough = elim (Bool-cases (ltb 0 s.quantity)) [
  | inl more ↦ rw more (
      bind (round-Rounded taker s is) λ r made.
        advance-Swept taker s (match_loop fuel taker) is fresh (ground arith)
          (λ s' v' is' fresh' fewer. match_loop-Swept fuel taker s' is' fresh' (omega arith)) made)
  | inr over ↦ rw over (
      returns ([], v, refl, sym (append-nil s.fills), tt, rw fresh (Sweep.done (ground arith)), is))
]
