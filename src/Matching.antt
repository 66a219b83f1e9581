-- ===== src/Matching.antt =====
-- src/matching.rs: the matching engine. A panic is `none`, and so is a loop that outlives its fuel.
-- The two loops of `add_order` are one function of the taker's side.
pub mod Add
pub mod CancelSafe
pub mod Laws
pub mod Rounds
pub mod Sweep
mod Tests
pub mod Uncrossed
use ferrox.Prelude.{
  ◌>>=◌, Bool, List, Option, Result, [], err, false, if◌then◌else◌, leb_ℤ, ltb, map_err, min, none,
  ok, some, true, ℤ, ◌++◌, ◌-◌, ◌==◌, ◌∷◌, ℕ, zero, suc,
}
use ferrox.Order.{Side, bid, ask, Order}
use ferrox.Arena.{OrderNode}
use ferrox.Book
use ferrox.Book.{
  OrderBook, BookError, insert_order, cancel_order, peek_front, reduce_front_quantity, order_count,
}

pub record Fill : Type 0 where
  pub taker_order_id : ℕ
  pub maker_order_id : ℕ
  pub price : ℤ
  pub quantity : ℕ
  pub maker_fully_filled : Bool

pub data OrderStatus : Type 0 where
  fully_filled partially_filled resting cancelled_self_trade : OrderStatus

pub record AddOrderResult : Type 0 where
  pub order_id : ℕ
  pub status : OrderStatus
  pub fills : List Fill

pub data MatchingError : Type 0 where
  book_error : BookError → MatchingError
  zero_quantity : MatchingError

pub record MatchingEngine : Type 0 where
  pub book : OrderBook
  pub fills_buf : List Fill

unfoldable pub with_capacity : ℕ → MatchingEngine
with_capacity arena_capacity = record { book = Book.with_capacity arena_capacity; fills_buf = [] }

-- `MatchingEngine::new`
unfoldable pub new : MatchingEngine
new = record { book = Book.new; fills_buf = [] }

-- The side on which the makers of a taker rest.
abbrev pub opposite : Side → Side
opposite bid = ask
opposite ask = bid

-- The best price of a side, and the guard of the `match` on it: `p <= order.price` for a bid,
-- `p >= order.price` for an ask.
abbrev pub best_price : OrderBook → Side → Option ℤ
best_price book bid = book.best_bid
best_price book ask = book.best_ask

abbrev pub crosses : Side → (maker_price taker_price : ℤ) → Bool
crosses bid p price = leb_ℤ p price
crosses ask p price = leb_ℤ price p

-- The variables of the loop: the book, `fills_buf`, `order.quantity` and `self_trade`.
pub record Loop : Type 0 where
  pub book : OrderBook
  pub fills : List Fill
  pub quantity : ℕ
  pub self_trade : Bool

-- How a round goes on: the loop stops, an error is returned, or the next round begins.
pub data Round : Type 0 where
  stop : Loop → Round
  fail : BookError → Loop → Round
  next : Loop → Round

-- A round in which the taker trades with the maker at the front of the best level.
unfoldable pub trade : Order → Loop → ℤ → OrderNode → Option Round
trade order s best maker =
    let fill_qty : ℕ = min s.quantity maker.quantity in
    do
      (r, book) ← reduce_front_quantity s.book (opposite order.side) best fill_qty
      some (elim r [
        | err e ↦ fail e (record s { book = book })
        | ok maker_remaining ↦ next (record s {
          book = book;
          fills =
              s.fills
              ++ record {
                taker_order_id = order.id;
                maker_order_id = maker.id;
                price = maker.price;
                quantity = fill_qty;
                maker_fully_filled = maker_remaining == 0;
              }
                ∷ [];
          quantity = s.quantity - fill_qty;
        })
      ])

-- A round at a best price that the taker crosses.
unfoldable pub meet : Order → Loop → ℤ → Option Round
meet order s best = do
  maker ← peek_front s.book (opposite order.side) best
  elim maker [
    | none ↦ some (stop s)
    | some m ↦
        if m.trader_id == order.trader_id
        then some (stop (record s { self_trade = true }))
        else trade order s best m
  ]

-- The body of `while order.quantity > 0`.
unfoldable pub round : Order → Loop → Option Round
round order s = elim (best_price s.book (opposite order.side)) [
  | none ↦ some (stop s)
  | some best ↦ if crosses order.side best order.price then meet order s best else some (stop s)
]

abbrev pub Outcome : Type 0
Outcome = Result BookError (Unit {0}) × Loop

-- What follows a round.
abbrev pub advance : (Loop → Option Outcome) → Round → Option Outcome
advance again (stop s) = some (ok tt, s)
advance again (fail e s) = some (err e, s)
advance again (next s) = again s

unfoldable pub match_loop : ℕ → Order → Loop → Option Outcome
match_loop zero order s = none
match_loop (suc fuel) order s =
    let again : Loop → Option Outcome = λ s'. match_loop fuel order s' in
    if ltb 0 s.quantity then (do r ← round order s; advance again r) else some (ok tt, s)

-- What `add_order` returns: the result, and the engine that is left.
abbrev pub Added : Type 0
Added = Result MatchingError AddOrderResult × MatchingEngine

-- `Ok(AddOrderResult { .. })`
abbrev pub finish : Order → Loop → OrderStatus → OrderBook → Added
finish order s status book = (
  ok (record { order_id = order.id; status = status; fills = s.fills }),
  record { book = book; fills_buf = s.fills },
)

-- The status of an order that rests in the book.
abbrev pub rest_status : List Fill → OrderStatus
rest_status [] = resting
rest_status (_ ∷ _) = partially_filled

-- What follows the `insert_order` of the rest of the order.
abbrev pub rest_order : Order → Loop → Result BookError (Unit {0}) × OrderBook → Added
rest_order order s (err e, book) = (err (book_error e), record { book = book; fills_buf = s.fills })
rest_order order s (ok _, book) = finish order s (rest_status s.fills) book

-- The code behind the loops: the status, and the rest of the order goes into the book.
unfoldable pub conclude : Order → Loop → Option Added
conclude order s =
    if s.self_trade
    then some (finish order s cancelled_self_trade s.book)
    else (if s.quantity == 0 then some (finish order s fully_filled s.book) else do
      inserted ← insert_order s.book (record order { quantity = s.quantity })
      some (rest_order order s inserted))

-- Each round but the last two takes a maker off the book, so that one round more than there are
-- resting orders is enough.
unfoldable pub add_order : MatchingEngine → Order → Option Added
add_order engine order = if order.quantity == 0 then some (err zero_quantity, engine) else do
  (r, s) ←
      match_loop (suc (order_count engine.book)) order
        (record { book = engine.book; fills = []; quantity = order.quantity; self_trade = false })
  elim r [
    | err e ↦ some (err (book_error e), record { book = s.book; fills_buf = s.fills })
    | ok _ ↦ conclude order s
  ]

unfoldable pub cancel : MatchingEngine → ℕ → Option (Result MatchingError Order × MatchingEngine)
cancel engine order_id = do
  (r, book) ← cancel_order engine.book order_id
  some (map_err book_error r, record engine { book = book })

-- The loop of `restore_from_orders`.
unfoldable pub insert_all : OrderBook → List Order → Option (Result MatchingError OrderBook)
insert_all book [] = some (ok book)
insert_all book (order ∷ orders) = do
  (r, book') ← insert_order book order
  elim r [ err e ↦ some (err (book_error e)) | ok _ ↦ insert_all book' orders ]

unfoldable pub restore_from_orders : List Order → ℕ → Option (Result MatchingError MatchingEngine)
restore_from_orders orders arena_capacity = do
  r ← insert_all (Book.with_capacity arena_capacity) orders
  some (elim r [ err e ↦ err e | ok book ↦ ok (record { book = book; fills_buf = [] }) ])
