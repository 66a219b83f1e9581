-- ===== src/Matching/Tests.antt =====
-- Runs of the engine.
use ferrox.Prelude.{
  Returns, arith, ◌>>=◌, Bool, List, Option, Result, [], err, false, map, none, ok, pos, refl, some,
  true, ◌∷◌, ◌≡◌, ℕ,
}
use ferrox.Order.{Side, bid, ask, Order}
use ferrox.Arena
use ferrox.Arena.{
  Arena, dealloc, pop_front, set_prev, set_quantity, unlink_front, alloc, new_nodes, push_back,
  link_back, set_next,
}
use ferrox.Book
use ferrox.Book.{
  drop_front, insert_at, insert_order, peek_front, reduce_at, reduce_front_quantity, settle_level,
  update_best_after_insert, all_resting_orders,
}
use ferrox.Matching
use ferrox.Matching.{
  AddOrderResult, Added, Fill, MatchingEngine, MatchingError, OrderStatus, cancelled_self_trade,
  conclude, fully_filled, match_loop, meet, resting, round, trade, add_order,
}
use ferrox.Book.Tests.{two, two-IsBook, view_two}
use ferrox.Matching.Add.{IsAdded, add_order-IsAdded}
use ferrox.Matching.Uncrossed.{IsSafe, add_order-IsSafe}
use ferrox.Matching.CancelSafe.{cancel-IsSafe}

abbrev order : ℕ → ℕ → Side → ℕ → ℕ → Order
order i t s p q = record {
  id = i;
  trader_id = t;
  side = s;
  price = pos p;
  quantity = q;
  timestamp = i;
}

run : List Order → MatchingEngine → Option (List Added)
run [] e = some []
run (o ∷ os) e = do (r, e') ← add_order e o; rest ← run os e'; some ((r, e') ∷ rest)

abbrev summary : Result MatchingError AddOrderResult → Option (OrderStatus × List (ℕ × ℕ × Bool))
summary (err e) = none
summary (ok r) =
    some
      (r.status, map (λ (f : Fill). (f.maker_order_id, f.quantity, f.maker_fully_filled)) r.fills)

session : Option (List (Option (OrderStatus × List (ℕ × ℕ × Bool))))
unfolding run add_order Matching.with_capacity match_loop round meet trade conclude
    Book.with_capacity Book.insert_order Book.insert_at Book.peek_front Book.reduce_front_quantity
    Book.reduce_at Book.drop_front Book.settle_level update_best_after_insert Arena.new new_nodes
    alloc push_back link_back set_next Arena.set_prev Arena.pop_front Arena.unlink_front
    Arena.dealloc Arena.set_quantity
session = do
  outs ←
      run
        (order 1 1 ask 101 5
          ∷ order 2 2 ask 100 5
          ∷ order 3 3 ask 100 5
          ∷ order 4 4 bid 101 12
          ∷ order 5 1 bid 101 2
          ∷ order 6 4 bid 90 2
          ∷ [])
        (Matching.with_capacity 4)
  some (map (λ (a : Added). summary a.0) outs)

session_lem :
    session
    ≡ some (
        some (resting, [])
        ∷ some (resting, [])
        ∷ some (resting, [])
        ∷ some (fully_filled, (2, 5, true) ∷ (3, 5, true) ∷ (1, 2, false) ∷ [])
        ∷ some (cancelled_self_trade, [])
        ∷ some (resting, [])
        ∷ [])
unfolding session
session_lem = refl

-- The theorems at an engine with two asks at 100 and a taker of both.
abbrev engine : MatchingEngine
engine = record { book = two; fills_buf = [] }

add_order-IsAdded_example :
    Returns (IsAdded (order 4 9 bid 100 7) view_two) (add_order engine (order 4 9 bid 100 7))
add_order-IsAdded_example =
    add_order-IsAdded engine (order 4 9 bid 100 7) two-IsBook (omega arith) (omega arith)

add_order-IsSafe_example : Returns (λ (r, e). IsSafe e) (add_order engine (order 4 9 bid 101 10))
add_order-IsSafe_example =
    add_order-IsSafe engine (order 4 9 bid 101 10) (view_two, two-IsBook, λ p q (v, e) a. cc)
      (omega arith) (omega arith)

cancel-IsSafe_example : Returns (λ (r, e). IsSafe e) (Matching.cancel engine 1)
cancel-IsSafe_example = cancel-IsSafe engine 1 (view_two, two-IsBook, λ p q (v, e) a. cc)
