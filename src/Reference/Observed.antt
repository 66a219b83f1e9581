-- ===== src/Reference/Observed.antt =====
-- What the differential test looks at after each operation.
use ferrox.Prelude.{filter, reverse, ap, length, some, sym, ℕ, ◌++◌, ◌∙◌, ◌≡◌}
use ferrox.Order.{bid, ask}
use ferrox.Book.{order_count, all_resting_orders}
use ferrox.Book.Resting.{orders_in, all_resting_orders-queues}
use ferrox.Matching.{MatchingEngine}
use ferrox.Reference.{
  orders, ReferenceBook, ref_best_bid, ref_best_ask, canonical, orders, sort_by, key_le, on_side,
}
use ferrox.Reference.Prices.{best_of-best_key}
use ferrox.Reference.Canonical.{orders-walk}
use ferrox.Reference.Add.{Simulates}

-- Both show the same best prices, the same number of orders and the same orders.
pub record LooksLike (engine : MatchingEngine) (book : ReferenceBook) : Type 0 where
  pub best_bid_is : engine.book.best_bid ≡ ref_best_bid book
  pub best_ask_is : engine.book.best_ask ≡ ref_best_ask book
  pub order_count_is : order_count engine.book ≡ length book.resting
  pub resting_are : all_resting_orders engine.book ≡ some (canonical book)

-- An engine and a reference book that hold the same orders show the same best prices and the same
-- number of orders, and `all_resting_orders` returns the reference's canonical list: the asks by
-- price, then the bids from the best one on, each price by age.
pub Simulates-LooksLike :
    {cap : ℕ} (engine : MatchingEngine) (book : ReferenceBook)
    → Simulates cap engine book
    → LooksLike engine book
Simulates-LooksLike engine book sim =
    let is = sim.is in
    let st = sim.stand in
    record {
      best_bid_is = is.best_is bid ∙ sym (best_of-best_key bid st);
      best_ask_is = is.best_is ask ∙ sym (best_of-best_key ask st);
      order_count_is = is.orders ∙ sym st.size;
      resting_are =
          all_resting_orders-queues engine.book sim.view is
          ∙ ap some (
              ap (λ os. os ++ orders_in (reverse sim.view.bids)) (sym (orders-walk st ask))
              ∙ ap (λ os. orders (sort_by (key_le ask) (filter (on_side ask) book.resting)) ++ os)
                  (sym (orders-walk st bid)));
    }
