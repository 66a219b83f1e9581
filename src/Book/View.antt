-- ===== src/Book/View.antt =====
-- What an order book stands for, and the invariant that ties the arena, the levels, the cached best
-- prices and the index to it.
use ferrox.Prelude.{
  arith, refl, ◌++◌, List, Option, [], count, if◌then◌else◌, length, ltb, none, some, ℤ, ◌&&◌, ◌+◌,
  ◌==◌, ◌∷◌, ◌≡◌, ℕ,
}
use ferrox.Order.{Side, bid, ask}
use ferrox.Arena.Seg.{Cells, uses}
use ferrox.Arena.Pool.{IsArena}
use ferrox.Collections.TreeMap
use ferrox.Collections.TreeMap.Sorted.{IsSorted}
use ferrox.Collections.HashMap
use ferrox.Collections.HashMap.Laws.{IsMap}
use ferrox.Book.{OrderBook, levels}
use ferrox.Book.Queues.{IsLevels, Queues, sum}
use ferrox.Book.Good.{GoodQueues}

-- The free slots, and the queues of both sides.
pub record View : Type 0 where
  pub free : List ℕ
  pub bids : Queues
  pub asks : Queues

abbrev pub queues : View → Side → Queues
queues v bid = v.bids
queues v ask = v.asks

abbrev pub set_queues : View → Side → Queues → View
set_queues v bid qs = record v { bids = qs }
set_queues v ask qs = record v { asks = qs }

-- A measure over both sides.
abbrev pub total_of : (Cells → ℕ) → View → ℕ
total_of f v = sum f v.bids + sum f v.asks

-- How many cells hold the order of this id at this index.
abbrev pub pairs : (id index : ℕ) → Cells → ℕ
pairs id index [] = 0
pairs id index ((i, o) ∷ cs) = (if o.id == id && i == index then 1 else 0) + pairs id index cs

abbrev pub hit : ℕ → Option ℕ → ℕ
hit index none = 0
hit index (some i) = if i == index then 1 else 0

pub pairs-append :
    (id i : ℕ) (xs ys : Cells) → pairs id i (xs ++ ys) ≡ pairs id i xs + pairs id i ys
pairs-append id i [] ys = omega arith
pairs-append id i (x ∷ xs) ys = omega (arith, pairs-append id i xs ys)

pub queues-free :
    (v : View) (free : List ℕ) (t : Side) → queues (record v { free = free }) t ≡ queues v t
queues-free v free bid = refl
queues-free v free ask = refl

-- The cached best price of a side, and the best price of its queues.
abbrev pub best : OrderBook → Side → Option ℤ
best b bid = b.best_bid
best b ask = b.best_ask

abbrev pub best_key : {V : Type 0} → Side → List (ℤ × V) → Option ℤ
best_key bid m = TreeMap.last_key m
best_key ask m = TreeMap.first_key m

pub record IsBook (b : OrderBook) (v : View) : Type 0 where
  pub pool : IsArena b.arena v.free
  pub is_levels : (s : Side) → IsLevels b.arena.storage (levels b s) (queues v s)
  pub sorted : (s : Side) → IsSorted (queues v s)
  pub good : (s : Side) → GoodQueues s (queues v s)
  pub best_is : (s : Side) → best b s ≡ best_key s (queues v s)
  -- Every slot is free or holds one order, and no slot is lost.
  pub slots :
      (a : ℕ) → count a v.free + total_of (uses a) v ≡ (if ltb a b.arena.capacity then 1 else 0)
  -- The index finds exactly the orders of the book.
  pub index : (id i : ℕ) → total_of (pairs id i) v ≡ hit i (HashMap.lookup id b.order_index)
  pub is_map : IsMap b.order_index
  pub orders : length b.order_index ≡ total_of length v
  pub used : b.arena.count ≡ length b.order_index
