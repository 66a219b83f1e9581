-- ===== src/Book/Settle.antt =====
-- Taking an order off a level: `settle_level`, which ends `cancel_order` and
-- `reduce_front_quantity`.
use ferrox.Prelude.{
  List, refl, some, sym, ◌∙◌, [], arith, false, length, true, ℤ, ◌+◌, ◌==◌, ◌∷◌, ◌≡◌, ℕ,
}
use ferrox.Order.{Side, bid, ask}
use ferrox.Arena.{Storage, PriceLevel, Arena}
use ferrox.Arena.Seg.{Cells}
use ferrox.Arena.Level.{IsLevel}
use ferrox.Collections.TreeMap
use ferrox.Collections.TreeMap.Sorted.{first_key-replace, last_key-replace, IsSorted}
use ferrox.Book.{OrderBook, levels, set_levels, settle_level}
use ferrox.Book.Queues.{first_key-IsLevels, last_key-IsLevels, IsLevels}
use ferrox.Book.Good.{GoodQueues, GoodCells}
use ferrox.Book.View.{View, queues, total_of, best, best_key, IsBook}
use ferrox.Book.Change.{
  Local, GoodQueues-drop, GoodQueues-put, IsLevels-drop, IsLevels-put, IsSorted-drop, IsSorted-put,
  total_of-drop, total_of-put, put, drop, cells,
}

-- The queue of a price becomes `cs`; an empty one is removed.
abbrev pub replace : Side → ℤ → Cells → View → View
replace s p [] v = drop s p v
replace s p (c ∷ cs) v = put s p (c ∷ cs) v

pub total_of-replace :
    (f : Cells → ℕ) (s : Side) (p : ℤ) (cs : Cells) (v : View)
    → f [] ≡ 0
    → IsSorted (queues v s)
    → total_of f (replace s p cs v) + f (cells v s p) ≡ total_of f v + f cs
total_of-replace f s p [] v e sorted = omega (arith, total_of-drop f s p v e)
total_of-replace f s p (c ∷ cs) v e sorted = total_of-put f s p (c ∷ cs) v e sorted

-- The levels that `settle_level` writes.
abbrev pub after : OrderBook → Side → ℤ → PriceLevel → Cells → OrderBook
after b s p l [] = set_levels b s (TreeMap.remove p (levels b s))
after b s p l (c ∷ cs) = set_levels b s (TreeMap.insert p l (levels b s))

-- The level's count tells whether it is empty.
emptied :
    (l : PriceLevel) (cs : Cells)
    → l.count ≡ length cs
    → (l.count == 0) ≡ (elim cs [ [] ↦ true | _ ↦ false ])
emptied l [] e = ground arith
emptied l (c ∷ cs) e = ground arith

pub levels-settle_level :
    (b : OrderBook) (s : Side) (p : ℤ) (l : PriceLevel) (cs : Cells)
    → l.count ≡ length cs
    → (t : Side) → levels (settle_level b s p l) t ≡ levels (after b s p l cs) t
unfolding settle_level
levels-settle_level b bid p l [] e bid = rw (emptied l [] e)
levels-settle_level b bid p l [] e ask = rw (emptied l [] e)
levels-settle_level b ask p l [] e bid = rw (emptied l [] e)
levels-settle_level b ask p l [] e ask = rw (emptied l [] e)
levels-settle_level b bid p l (c ∷ cs) e bid = rw (emptied l (c ∷ cs) e)
levels-settle_level b bid p l (c ∷ cs) e ask = rw (emptied l (c ∷ cs) e)
levels-settle_level b ask p l (c ∷ cs) e bid = rw (emptied l (c ∷ cs) e)
levels-settle_level b ask p l (c ∷ cs) e ask = rw (emptied l (c ∷ cs) e)

pub rest-settle_level :
    (b : OrderBook) (s : Side) (p : ℤ) (l : PriceLevel)
    → ((settle_level b s p l).arena ≡ b.arena)
      × ((settle_level b s p l).order_index ≡ b.order_index)
unfolding settle_level
rest-settle_level b bid p l = ground arith
rest-settle_level b ask p l = ground arith

pub best-settle_level :
    {b : OrderBook} {v : View}
    → IsBook b v
    → (s : Side) (p : ℤ) (l : PriceLevel) (cs : Cells) {old : Cells}
    → TreeMap.lookup p (queues v s) ≡ some old
    → l.count ≡ length cs
    → (arena : Arena) (index : List (ℕ × ℕ)) (t : Side)
    → best (settle_level (record b { arena = arena; order_index = index }) s p l) t
      ≡ best_key t (queues (replace s p cs v) t)
unfolding settle_level
best-settle_level {b} {v} is bid p l [] q e arena index bid =
    rw (emptied l [] e) (last_key-IsLevels (IsLevels-drop is bid p (λ a i out. refl) bid))
best-settle_level is bid p l [] q e arena index ask = rw (emptied l [] e) (is.best_is ask)
best-settle_level is ask p l [] q e arena index bid = rw (emptied l [] e) (is.best_is bid)
best-settle_level is ask p l [] q e arena index ask =
    rw (emptied l [] e) (first_key-IsLevels (IsLevels-drop is ask p (λ a i out. refl) ask))
best-settle_level {v} is bid p l (c ∷ cs) q e arena index bid =
    rw (emptied l (c ∷ cs) e)
      (is.best_is bid ∙ sym (last_key-replace p (c ∷ cs) v.bids (is.sorted bid) q))
best-settle_level is bid p l (c ∷ cs) q e arena index ask =
    rw (emptied l (c ∷ cs) e) (is.best_is ask)
best-settle_level is ask p l (c ∷ cs) q e arena index bid =
    rw (emptied l (c ∷ cs) e) (is.best_is bid)
best-settle_level {v} is ask p l (c ∷ cs) q e arena index ask =
    rw (emptied l (c ∷ cs) e)
      (is.best_is ask ∙ sym (first_key-replace p (c ∷ cs) v.asks (is.sorted ask) q))

-- The three kinds of fields that `settle_level` changes on its side.
module _ {b : OrderBook} {v : View} (is : IsBook b v) (s : Side) (p : ℤ) where
  pub IsLevels-after :
      (cs : Cells) {st : Storage} {l : PriceLevel}
      → Local is s p st
      → IsLevel st l cs
      → (t : Side) → IsLevels st (levels (after b s p l cs) t) (queues (replace s p cs v) t)
  IsLevels-after [] same at t = IsLevels-drop is s p same t
  IsLevels-after (c ∷ cs) same at t = IsLevels-put is s p same at t

  pub IsSorted-replace : (cs : Cells) (t : Side) → IsSorted (queues (replace s p cs v) t)
  IsSorted-replace [] t = IsSorted-drop is s p t
  IsSorted-replace (c ∷ cs) t = IsSorted-put is s p (c ∷ cs) t

  pub GoodQueues-replace :
      (cs : Cells) → GoodCells s p cs → (t : Side) → GoodQueues t (queues (replace s p cs v) t)
  GoodQueues-replace [] g t = GoodQueues-drop is s p t
  GoodQueues-replace (c ∷ cs) g t = GoodQueues-put is s p (c ∷ cs) (omega arith) g t

-- The view without one order.
abbrev pub dequeue : Side → ℤ → Cells → ℕ → View → View
dequeue s p rest i v = record (replace s p rest v) { free = i ∷ v.free }

-- The arena and the index have no part in the levels.
pub levels-after :
    (b : OrderBook) (arena : Arena) (index : List (ℕ × ℕ)) (s : Side) (p : ℤ) (l : PriceLevel)
    (cs : Cells) (t : Side)
    → levels (after (record b { arena = arena; order_index = index }) s p l cs) t
      ≡ levels (after b s p l cs) t
levels-after b arena index bid p l [] bid = refl
levels-after b arena index bid p l [] ask = refl
levels-after b arena index ask p l [] bid = refl
levels-after b arena index ask p l [] ask = refl
levels-after b arena index bid p l (c ∷ cs) bid = refl
levels-after b arena index bid p l (c ∷ cs) ask = refl
levels-after b arena index ask p l (c ∷ cs) bid = refl
levels-after b arena index ask p l (c ∷ cs) ask = refl
