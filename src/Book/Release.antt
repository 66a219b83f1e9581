-- ===== src/Book/Release.antt =====
-- A queue that gives up an order whose slot is then freed.
use mathlib.Core.Path.{subst}
use ferrox.Prelude.{
  Returns, ap, arith, count, if◌then◌else◌, length, length-append, mono, refl, some, ℤ, ◌++◌, ◌+◌,
  ◌<◌, ◌==◌, ◌∙◌, ◌∷◌, ◌≡◌, ◌≤◌, ℕ,
}
use ferrox.Order.{Order, Side}
use ferrox.Arena.{arena_null, PriceLevel, Arena, dealloc}
use ferrox.Arena.Seg.{Cells, uses, uses-append, Uniq}
use ferrox.Arena.Level.{IsLevel-frame, IsLevel, Keeps}
use ferrox.Arena.Pool.{IsArena-Keeps, dealloc-cons}
use ferrox.Collections.TreeMap
use ferrox.Collections.HashMap
use ferrox.Book.{OrderBook, settle_level}
use ferrox.Book.Queues.{or_empty}
use ferrox.Book.Good.{GoodCells, GoodQueues-lookup, GoodCells-split, GoodCells-append}
use ferrox.Book.View.{View, queues, total_of, IsBook}
use ferrox.Book.Change.{cells, uniq, total_of-cells}
use ferrox.Book.Settle.{dequeue}
use ferrox.Book.Dequeue.{settle_level-IsBook}

-- What holds of the slot and the queue of an order of the book.
pub record Held (b : OrderBook) (v : View) (s : Side) (p : ℤ) (xs : Cells) (i : ℕ) (order : Order)
    (ys : Cells) : Type 0 where
  pub uniq : Uniq (xs ++ (i, order) ∷ ys)
  pub room : length (xs ++ (i, order) ∷ ys) ≤ arena_null
  pub small : length b.arena.storage ≤ arena_null
  pub slot : i < b.arena.capacity
  pub not_free : (a : ℕ) → 0 < count a v.free → uses a (xs ++ (i, order) ∷ ys) ≡ 0
  pub some_used : 0 < b.arena.count
  pub good : GoodCells s p (xs ++ (i, order) ∷ ys)

pub queue-Held :
    {b : OrderBook} {v : View} (s : Side) (p : ℤ) (xs : Cells) (i : ℕ) (order : Order) (ys : Cells)
    → IsBook b v
    → TreeMap.lookup p (queues v s) ≡ some (xs ++ (i, order) ∷ ys)
    → Held b v s p xs i order ys
queue-Held {b} {v} s p xs i order ys is queue =
    let same : cells v s p ≡ xs ++ (i, order) ∷ ys = ap or_empty queue in
    let many : length (xs ++ (i, order) ∷ ys) ≤ total_of length v =
      subst (λ cs. length cs ≤ total_of length v) same (total_of-cells length s p v refl) in
    let used : (a : ℕ) → uses a (xs ++ (i, order) ∷ ys) ≤ total_of (uses a) v = λ a.
      subst (λ cs. uses a cs ≤ total_of (uses a) v) same (total_of-cells (uses a) s p v refl) in
    record {
      uniq = λ a. omega (arith, used a, uniq is a);
      room = omega (arith, many, is.orders, is.used, is.pool.counted, is.pool.small);
      small = omega (arith, is.pool.size, is.pool.small);
      slot = ground (arith, used i, is.slots i, uses-append i xs ((i, order) ∷ ys));
      not_free = λ a u. ground (arith, used a, is.slots a);
      some_used = omega (arith, many, is.orders, is.used, length-append {0} xs ((i, order) ∷ ys));
      good = (GoodQueues-lookup s p (queues v s) (is.good s) queue).1;
    }

-- The arena, where a level gave up a cell whose slot is then freed.
pub freed-IsBook :
    {b : OrderBook} {v : View} (s : Side) (p : ℤ) (xs : Cells) (i : ℕ) (order : Order) (ys : Cells)
    → IsBook b v
    → TreeMap.lookup p (queues v s) ≡ some (xs ++ (i, order) ∷ ys)
    → HashMap.lookup order.id b.order_index ≡ some i
    → {l : PriceLevel} {arena : Arena} → IsLevel arena.storage l (xs ++ ys)
    → Keeps (xs ++ (i, order) ∷ ys) b.arena arena
    → Returns
        (λ arena'.
          IsBook
            (settle_level
              (record b { arena = arena'; order_index = HashMap.remove order.id b.order_index })
              s
              p
              l)
            (dequeue s p (xs ++ ys) i v))
        (dealloc arena i)
freed-IsBook {b} {v} s p xs i order ys is queue found {l} {arena} is' keeps =
    let held = queue-Held s p xs i order ys is queue in
    let apart : (a : ℕ)
        → uses a (xs ++ (i, order) ∷ ys) ≡ (if i == a then 1 else 0) + uses a (xs ++ ys) =
      λ a. omega (arith, uses-append a xs ((i, order) ∷ ys), uses-append a xs ys) in
    let here : 0 < uses i (xs ++ (i, order) ∷ ys) = ground (arith, apart i) in
    let goods = GoodCells-split s p xs ((i, order) ∷ ys) held.good in
    mono
      (dealloc-cons i (IsArena-Keeps is.pool keeps held.not_free)
        (omega (arith, held.slot, keeps.capacity)) (ground (arith, held.not_free i))
        (omega (arith, held.some_used, keeps.count)))
      λ arena' (pool, used, room, same).
        settle_level-IsBook is s p xs i order ys queue found pool (room ∙ keeps.capacity)
          (omega (arith, used, keeps.count))
          (IsLevel-frame is' (λ a u. same a (λ e. ground (arith, apart i, held.uniq i))))
          (GoodCells-append s p xs ys goods.0 goods.1.1)
          (λ a ne out. same a ne ∙ keeps.same a (ground (arith, apart a)))
