-- ===== src/Book/New.antt =====
-- `OrderBook::with_capacity` meets the invariant.
use ferrox.Prelude.{[], arith, refl, ◌≡◌, ◌≤◌, ℕ}
use ferrox.Order.{Side, bid, ask}
use ferrox.Arena
use ferrox.Arena.{Arena, arena_null}
use ferrox.Arena.Pool.{upto, count-upto, new-IsArena}
use ferrox.Book.{OrderBook, levels}
use ferrox.Book
use ferrox.Book.View.{best, best_key, queues, View, IsBook}
use ferrox.Book.Queues.{IsLevels}
use ferrox.Book.Good.{GoodQueues}
use ferrox.Collections.TreeMap.Sorted.{IsSorted}

-- A view with no order and the first `cap` slots free.
abbrev pub empty : ℕ → View
empty cap = record { free = upto cap 0; bids = []; asks = [] }

-- The fields that speak of either side.
module _ (cap : ℕ) where
  no_levels :
      (s : Side)
      → IsLevels (Arena.new cap).storage (levels (Book.with_capacity cap) s) (queues (empty cap) s)
  unfolding Book.with_capacity
  no_levels bid = IsLevels.nil
  no_levels ask = IsLevels.nil

  no_queue : (s : Side) → IsSorted (queues (empty cap) s)
  no_queue bid = tt
  no_queue ask = tt

  all_good : (s : Side) → GoodQueues s (queues (empty cap) s)
  all_good bid = tt
  all_good ask = tt

  no_best : (s : Side) → best (Book.with_capacity cap) s ≡ best_key s (queues (empty cap) s)
  unfolding Book.with_capacity
  no_best bid = refl
  no_best ask = refl

-- A new book of any `u32` capacity meets the invariant and is empty.
pub with_capacity-IsBook :
    (cap : ℕ) → cap ≤ arena_null → IsBook (Book.with_capacity cap) (empty cap)
unfolding Book.with_capacity Arena.new
with_capacity-IsBook cap small = record {
  pool = new-IsArena cap small;
  is_levels = λ s. no_levels cap s;
  sorted = λ s. no_queue cap s;
  good = λ s. all_good cap s;
  best_is = λ s. no_best cap s;
  slots = λ a. ground (arith, count-upto a cap 0);
  index = λ id i. refl;
  is_map = λ k. omega arith;
  orders = refl;
  used = refl;
}
