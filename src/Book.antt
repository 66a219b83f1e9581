-- ===== src/Book.antt =====
-- src/book.rs: the order book over the arena, with its price levels, cached best prices and index.
-- A panic is `none`; a `Result` of the source is a value beside the new book, since the code may
-- have changed the book before it reports an error.
pub mod Cancel
pub mod Change
pub mod Dequeue
pub mod Find
pub mod Good
pub mod Insert
pub mod InsertOrder
pub mod New
pub mod Queues
pub mod Reduce
pub mod Release
pub mod Settle
pub mod Tests
pub mod Resting
pub mod View
use ferrox.Prelude.{
  count, ◌-◌, ℕ, zero, suc, ltb, ltb_ℤ, ◌==◌, if◌then◌else◌, Option, none, some, ◌>>=◌, List, [],
  ◌∷◌, ◌++◌, length, ℤ, Result, ok, err, reverse, max_ℤ, min_ℤ,
}
use ferrox.Order.{Side, bid, ask, Order}
use ferrox.Arena
use ferrox.Arena.{
  remove, Arena, OrderNode, PriceLevel, arena_null, default_capacity, new_level, to_order,
  push_back, pop_front, alloc, dealloc, set_quantity, sub_u64, ArenaError,
}
use ferrox.Collections.TreeMap
use ferrox.Collections.HashMap

pub data BookError : Type 0 where
  duplicate_order_id : ℕ → BookError
  order_not_found : ℕ → BookError
  price_level_not_found : ℤ → BookError
  fill_exceeds_quantity : (available requested : ℕ) → BookError
  arena_full : BookError

-- `impl From<ArenaError> for BookError`
abbrev pub from_arena_error : ArenaError → BookError
from_arena_error _ = arena_full

abbrev pub Levels : Type 0
Levels = List (ℤ × PriceLevel)

pub record OrderBook : Type 0 where
  pub bids : Levels
  pub asks : Levels
  pub best_bid : Option ℤ
  pub best_ask : Option ℤ
  pub order_index : List (ℕ × ℕ)
  pub arena : Arena

unfoldable pub with_capacity : ℕ → OrderBook
with_capacity arena_capacity = record {
  bids = [];
  asks = [];
  best_bid = none;
  best_ask = none;
  order_index = [];
  arena = Arena.new arena_capacity;
}

unfoldable pub new : OrderBook
new = with_capacity default_capacity

-- `OrderBook::order_count`
abbrev pub order_count : OrderBook → ℕ
order_count book = length book.order_index

-- `match side { Side::Bid => bids, Side::Ask => asks }`, read and written
abbrev pub levels : OrderBook → Side → Levels
levels book bid = book.bids
levels book ask = book.asks

abbrev pub set_levels : OrderBook → Side → Levels → OrderBook
set_levels book bid m = record book { bids = m }
set_levels book ask m = record book { asks = m }

unfoldable pub update_best_after_insert : OrderBook → Side → ℤ → OrderBook
update_best_after_insert book bid price = record book {
  best_bid = some (elim book.best_bid [ none ↦ price | some b ↦ max_ℤ b price ]);
}
update_best_after_insert book ask price = record book {
  best_ask = some (elim book.best_ask [ none ↦ price | some a ↦ min_ℤ a price ]);
}

-- `levels.entry(price).or_insert_with(PriceLevel::new)`
abbrev pub or_new : Option PriceLevel → PriceLevel
or_new none = new_level
or_new (some level) = level

abbrev pub entry_or_new : ℤ → Levels → PriceLevel
entry_or_new price m = or_new (TreeMap.lookup price m)

-- What `insert_order` does with the slot that it was given.
unfoldable pub insert_at :
    OrderBook → Order → Arena → ℕ → Option (Result BookError (Unit {0}) × OrderBook)
insert_at book order arena index = do
  (arena, level) ← push_back arena (entry_or_new order.price (levels book order.side)) index
  let book' : OrderBook =
      set_levels book order.side (TreeMap.insert order.price level (levels book order.side))
  some (
    ok tt,
    update_best_after_insert
        (record book' {
          arena = arena;
          order_index = HashMap.insert order.id index book.order_index;
        })
        order.side order.price,
  )

unfoldable pub insert_order : OrderBook → Order → Option (Result BookError (Unit {0}) × OrderBook)
insert_order book order = elim (HashMap.lookup order.id book.order_index) [
  | some _ ↦ some (err (duplicate_order_id order.id), book)
  | none ↦ do
    (r, arena) ← alloc book.arena order
    elim r [
      | err e ↦ some (err (from_arena_error e), record book { arena = arena })
      | ok index ↦ insert_at book order arena index
    ]
]

-- The end of `cancel_order` and of `reduce_front_quantity`: an empty level is removed, and the
-- best price of its side recomputed. Else the level is written back.
unfoldable pub settle_level : OrderBook → Side → ℤ → PriceLevel → OrderBook
settle_level book bid price level =
    if level.count == 0
    then record book {
      bids = TreeMap.remove price book.bids;
      best_bid = TreeMap.last_key (TreeMap.remove price book.bids);
    }
    else record book { bids = TreeMap.insert price level book.bids }
settle_level book ask price level =
    if level.count == 0
    then record book {
      asks = TreeMap.remove price book.asks;
      best_ask = TreeMap.first_key (TreeMap.remove price book.asks);
    }
    else record book { asks = TreeMap.insert price level book.asks }

-- `cancel_order` once the level of the order is found.
unfoldable pub cancel_at :
    OrderBook → Order → ℕ → PriceLevel → Option (Result BookError Order × OrderBook)
cancel_at book order index level = do
  (arena, level) ← Arena.remove book.arena level index
  arena ← dealloc arena index
  some (ok order, settle_level (record book { arena = arena }) order.side order.price level)

unfoldable pub cancel_order : OrderBook → ℕ → Option (Result BookError Order × OrderBook)
cancel_order book order_id = elim (HashMap.lookup order_id book.order_index) [
  | none ↦ some (err (order_not_found order_id), book)
  | some index ↦ do
    node ← Arena.get book.arena index
    let book' : OrderBook = record book { order_index = HashMap.remove order_id book.order_index }
    elim (TreeMap.lookup node.price (levels book' node.side)) [
      | none ↦ some (err (price_level_not_found node.price), book')
      | some level ↦ cancel_at book' (to_order node) index level
    ]
]

unfoldable pub peek_front : OrderBook → Side → ℤ → Option (Option OrderNode)
peek_front book side price = elim (TreeMap.lookup price (levels book side)) [
  | none ↦ some none
  | some level ↦
      if level.head == arena_null
      then some none
      else do node ← Arena.get book.arena level.head; some (some node)
]

-- The branch of `reduce_front_quantity` for a front order that is filled completely: `level` and
-- `arena` are those with the quantities already reduced.
unfoldable pub drop_front :
    OrderBook → Side → ℤ → PriceLevel → Arena → Option (Result BookError ℕ × OrderBook)
drop_front book side price level arena = do
  node ← Arena.get arena level.head
  (_, arena, level') ← pop_front arena level
  arena ← dealloc arena level.head
  some (
    ok 0,
    settle_level
        (record book { arena = arena; order_index = HashMap.remove node.id book.order_index }) side
        price level',
  )

-- `reduce_front_quantity` once the level is found not to be empty and its front node is read.
unfoldable pub reduce_at :
    OrderBook
    → Side
    → ℤ
    → (fill_qty : ℕ) → PriceLevel
    → OrderNode
    → Option (Result BookError ℕ × OrderBook)
reduce_at book side price fill_qty level front =
    if ltb front.quantity fill_qty
    then some (err (fill_exceeds_quantity front.quantity fill_qty), book)
    else do
      arena ← set_quantity book.arena level.head (front.quantity - fill_qty)
      let level' : PriceLevel = record level { qty = sub_u64 level.qty fill_qty }
      if front.quantity - fill_qty == 0
          then drop_front book side price level' arena
          else some (
            ok (front.quantity - fill_qty),
            set_levels (record book { arena = arena }) side
                (TreeMap.insert price level' (levels book side)),
          )

unfoldable pub reduce_front_quantity :
    OrderBook → Side → ℤ → ℕ → Option (Result BookError ℕ × OrderBook)
reduce_front_quantity book side price fill_qty = elim (TreeMap.lookup price (levels book side)) [
  | none ↦ some (err (price_level_not_found price), book)
  | some level ↦
      if level.head == arena_null then some (err (price_level_not_found price), book) else do
        front ← Arena.get book.arena level.head
        reduce_at book side price fill_qty level front
]

-- The inner loop of `all_resting_orders` on fuel: the orders of one level, from `index` on. A loop
-- that outlives its fuel is `none`.
unfoldable pub level_orders : ℕ → Arena → ℕ → Option (List Order)
level_orders zero arena index = none
level_orders (suc fuel) arena index =
    let rest : OrderNode → Option (List Order) = λ node. level_orders fuel arena node.next in
    if index == arena_null
    then some []
    else do node ← Arena.get arena index; orders ← rest node; some (to_order node ∷ orders)

unfoldable pub levels_orders : ℕ → Arena → Levels → Option (List Order)
levels_orders fuel arena [] = some []
levels_orders fuel arena ((price, level) ∷ m) = do
  here ← level_orders fuel arena level.head
  rest ← levels_orders fuel arena m
  some (here ++ rest)

-- Every level holds at most as many orders as the arena has slots.
unfoldable pub all_resting_orders : OrderBook → Option (List Order)
all_resting_orders book = do
  asks ← levels_orders (suc book.arena.capacity) book.arena book.asks
  bids ← levels_orders (suc book.arena.capacity) book.arena (reverse book.bids)
  some (asks ++ bids)
