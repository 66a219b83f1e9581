-- ===== src/Book/Tests.antt =====
-- The theorems of the book at small books.
use ferrox.Prelude.{
  reverse, ◌++◌, get_elem?-set_ne, set, from_some, refl, Option, Result, Returns, [], arith, none,
  ok, pos, some, ◌∷◌, ◌≡◌,
}
use ferrox.Order.{Order, bid, ask}
use ferrox.Arena
use ferrox.Arena.{
  from_order, link_back, new_nodes, set_next, set_prev, Arena, OrderNode, PriceLevel, new_level,
  alloc, dealloc, push_back, pop_front,
}
use ferrox.Arena.Level.{IsLevel-frame, IsLevel, Keeps}
use ferrox.Arena.Pool.{Allocated, alloc-Allocated, new-IsArena}
use ferrox.Arena.PushBack.{push_back-append}
use ferrox.Arena.Remove.{remove-erases}
use ferrox.Collections.HashMap
use ferrox.Book
use ferrox.Book.{
  all_resting_orders, fill_exceeds_quantity, insert_at, update_best_after_insert, OrderBook,
  BookError, insert_order, cancel_order, reduce_front_quantity,
}
use ferrox.Book.View.{View, IsBook}
use ferrox.Book.Resting.{orders_in, all_resting_orders-queues}
use ferrox.Book.New.{empty, with_capacity-IsBook}
use ferrox.Book.Insert.{enqueue}
use ferrox.Book.InsertOrder.{insert_order-Inserted}
use ferrox.Book.Cancel.{Cancelled, cancel_order-Cancelled}
use ferrox.Book.Reduce.{take_front, reduce_front_quantity-take_front}
use ferrox.Book.Queues.{IsLevels-lookup}

-- Two asks at 100 and a bid at 95.
abbrev pub first_ask : Order
first_ask = record {
  id = 1;
  trader_id = 7;
  side = ask;
  price = pos 100;
  quantity = 5;
  timestamp = 1;
}

abbrev pub second_ask : Order
second_ask = record {
  id = 2;
  trader_id = 8;
  side = ask;
  price = pos 100;
  quantity = 3;
  timestamp = 2;
}

abbrev pub only_bid : Order
only_bid = record { id = 3; trader_id = 7; side = bid; price = pos 95; quantity = 4; timestamp = 3 }

abbrev book_of : Option (Result BookError (Unit {0}) × OrderBook) → OrderBook
book_of none = Book.with_capacity 0
book_of (some (r, b)) = b

abbrev start : OrderBook
start = Book.with_capacity 4

abbrev pub one : OrderBook
one = book_of (insert_order start first_ask)

abbrev pub two : OrderBook
two = book_of (insert_order one second_ask)

abbrev pub view_one : View
view_one = enqueue first_ask 0 (1 ∷ 2 ∷ 3 ∷ []) (empty 4)

abbrev pub view_two : View
view_two = enqueue second_ask 1 (2 ∷ 3 ∷ []) view_one

with_capacity-IsBook_example : IsBook start (empty 4)
with_capacity-IsBook_example = with_capacity-IsBook 4 (omega arith)

insert_order-Inserted_example :
    Returns (λ (r, b). (r ≡ ok tt) × IsBook b view_one) (insert_order start first_ask)
unfolding Book.with_capacity
insert_order-Inserted_example =
    insert_order-Inserted first_ask (with_capacity-IsBook 4 (omega arith)) (omega arith)
      (omega arith)

pub one-IsBook : IsBook one view_one
unfolding insert_order Book.insert_at alloc push_back Arena.link_back Arena.set_next Arena.set_prev
    Arena.new Arena.new_nodes Book.with_capacity Book.update_best_after_insert
one-IsBook = (from_some insert_order-Inserted_example).1

pub two-IsBook : IsBook two view_two
unfolding insert_order Book.insert_at alloc push_back Arena.link_back Arena.set_next Arena.set_prev
    Arena.new Arena.new_nodes Book.with_capacity Book.update_best_after_insert
two-IsBook = (from_some (insert_order-Inserted second_ask one-IsBook (omega arith) (omega arith))).1

cancel_order-Cancelled_example :
    Returns (Cancelled two-IsBook 1 (HashMap.lookup 1 two.order_index) refl) (cancel_order two 1)
cancel_order-Cancelled_example = cancel_order-Cancelled 1 two-IsBook

reduce_front_quantity-take_front_example :
    Returns
      (λ (r, b).
        (r ≡ ok 2)
        × IsBook b (take_front ask (pos 100) 0 first_ask ((1, second_ask) ∷ []) 3 view_two))
      (reduce_front_quantity two ask (pos 100) 3)
reduce_front_quantity-take_front_example =
    reduce_front_quantity-take_front two-IsBook ask (pos 100) refl 3 (omega arith)

-- The level of the two asks.
asks-IsLevel :
    IsLevel two.arena.storage
      (IsLevels-lookup (pos 100) (two-IsBook.is_levels ask) refl).0
      ((0, first_ask) ∷ (1, second_ask) ∷ [])
asks-IsLevel = (IsLevels-lookup (pos 100) (two-IsBook.is_levels ask) refl).2

alloc-Allocated_example :
    Returns (Allocated (Arena.new 4) only_bid (0 ∷ 1 ∷ 2 ∷ 3 ∷ [])) (alloc (Arena.new 4) only_bid)
alloc-Allocated_example = alloc-Allocated only_bid (new-IsArena 4 (omega arith)) (λ a. ground arith)

push_back-append_example :
    Returns
      (λ (arena, level).
        IsLevel arena.storage level ((0, first_ask) ∷ (1, second_ask) ∷ (2, only_bid) ∷ [])
        × Keeps
            ((2, only_bid) ∷ (0, first_ask) ∷ (1, second_ask) ∷ [])
            (record two.arena { storage = set two.arena.storage 2 (from_order only_bid) })
            arena)
      (push_back
        (record two.arena { storage = set two.arena.storage 2 (from_order only_bid) })
        (IsLevels-lookup (pos 100) (two-IsBook.is_levels ask) refl).0
        2)
unfolding one-IsBook
push_back-append_example =
    push_back-append 2 only_bid
      (IsLevel-frame asks-IsLevel
        (λ a u. get_elem?-set_ne two.arena.storage 2 a (from_order only_bid) (λ e. ground arith)))
      (λ a. ground arith) refl refl (omega arith) (omega arith)

remove-erases_example :
    Returns
      (λ (arena, level).
        IsLevel arena.storage level ((0, first_ask) ∷ [])
        × Keeps ((0, first_ask) ∷ []) two.arena arena)
      (Arena.remove two.arena (IsLevels-lookup (pos 100) (two-IsBook.is_levels ask) refl).0 1)
unfolding one-IsBook
remove-erases_example =
    remove-erases ((0, first_ask) ∷ []) 1 second_ask [] asks-IsLevel (λ a. ground arith)
      (omega arith) (omega arith) (omega arith)

all_resting_orders-queues_example :
    all_resting_orders two ≡ some (orders_in view_two.asks ++ orders_in (reverse view_two.bids))
all_resting_orders-queues_example = all_resting_orders-queues two view_two two-IsBook
