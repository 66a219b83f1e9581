-- ===== src/Book/Dequeue.antt =====
-- An order taken out of its queue, its slot given back and its id out of the index: the invariant
-- that `cancel_order` and `reduce_front_quantity` restore.
use ferrox.Prelude.{
  sym, ◌∙◌, List, Option, [], ap, arith, count, get_elem?, if◌then◌else◌, length, length-append,
  ltb, refl, some, ℤ, ◌++◌, ◌+◌, ◌∷◌, ◌≡◌, ◌≢◌, ℕ,
}
use ferrox.Order.{Order, Side}
use ferrox.Arena.{PriceLevel, Arena}
use ferrox.Arena.Seg.{Cells, uses, uses-append}
use ferrox.Arena.Level.{IsLevel}
use ferrox.Arena.Pool.{IsArena}
use ferrox.Collections.TreeMap
use ferrox.Collections.HashMap
use ferrox.Collections.HashMap.Laws.{IsMap-remove, length-remove, lookup-remove}
use ferrox.Book.{OrderBook, settle_level}
use ferrox.Book.Queues.{or_empty}
use ferrox.Book.Good.{GoodCells}
use ferrox.Book.View.{pairs-append, queues-free, View, queues, total_of, pairs, hit, IsBook}
use ferrox.Book.Change.{Local, cells}
use ferrox.Book.Settle.{
  IsLevels-after, levels-after, best-settle_level, GoodQueues-replace, levels-settle_level,
  rest-settle_level, IsSorted-replace, total_of-replace, dequeue, replace,
}

module _ {b : OrderBook} {v : View} (is : IsBook b v) (s : Side) (p : ℤ) (xs : Cells) (i : ℕ)
    (order : Order) (ys : Cells)
    (queue : TreeMap.lookup p (queues v s) ≡ some (xs ++ (i, order) ∷ ys))
    (found : HashMap.lookup order.id b.order_index ≡ some i) where
  -- A measure that adds up along a queue loses what the order had.
  pub total_of-dequeue :
      (f : Cells → ℕ)
      → f [] ≡ 0
      → ((cs ds : Cells) → f (cs ++ ds) ≡ f cs + f ds)
      → total_of f (dequeue s p (xs ++ ys) i v) + f ((i, order) ∷ []) ≡ total_of f v
  total_of-dequeue f e plus = omega (
    arith,
    total_of-replace f s p (xs ++ ys) v e (is.sorted s),
    ap (λ (o : Option Cells). f (or_empty o)) queue,
    plus xs ((i, order) ∷ ys),
    plus ((i, order) ∷ []) ys,
    plus xs ys,
  )

  slots_left :
      {cap : ℕ} (a : ℕ)
      → cap ≡ b.arena.capacity
      → count a (i ∷ v.free) + total_of (uses a) (dequeue s p (xs ++ ys) i v)
        ≡ (if ltb a cap then 1 else 0)
  slots_left a room = ground (arith, is.slots a, total_of-dequeue (uses a) refl (uses-append a))

  index_left :
      (id j : ℕ)
      → total_of (pairs id j) (dequeue s p (xs ++ ys) i v)
        ≡ hit j (HashMap.lookup id (HashMap.remove order.id b.order_index))
  index_left id j = ground (
    arith,
    is.index id j,
    lookup-remove order.id id b.order_index is.is_map,
    total_of-dequeue (pairs id j) refl (pairs-append id j),
  )

  orders_left :
      length (HashMap.remove order.id b.order_index) ≡ total_of length (dequeue s p (xs ++ ys) i v)
  orders_left = omega (
    arith,
    is.orders,
    length-remove order.id b.order_index found,
    total_of-dequeue length refl (length-append {0}),
  )

  -- What is in no cell of the price is neither the slot nor in a cell that stays.
  left : (a : ℕ) → uses a (cells v s p) ≡ 0 → (a ≢ i) × (uses a (xs ++ ys) ≡ 0)
  left a out =
      let before : uses a (xs ++ (i, order) ∷ ys) ≡ 0 =
        ap (λ (o : Option Cells). uses a (or_empty o)) (sym queue) ∙ out in
      ground (arith, uses-append a xs ((i, order) ∷ ys), uses-append a xs ys)

  pub settle_level-IsBook :
      {l : PriceLevel} {arena : Arena}
      → IsArena arena (i ∷ v.free)
      → arena.capacity ≡ b.arena.capacity
      → arena.count + 1 ≡ b.arena.count
      → IsLevel arena.storage l (xs ++ ys)
      → GoodCells s p (xs ++ ys)
      → ((a : ℕ)
          → a ≢ i
          → uses a (xs ++ ys) ≡ 0
          → get_elem? arena.storage a ≡ get_elem? b.arena.storage a)
      → IsBook
          (settle_level
            (record b { arena = arena; order_index = HashMap.remove order.id b.order_index })
            s
            p
            l)
          (dequeue s p (xs ++ ys) i v)
  settle_level-IsBook {l} {arena} pool room used at fit same =
      let index : List (ℕ × ℕ) = HashMap.remove order.id b.order_index in
      let b1 : OrderBook = record b { arena = arena; order_index = index } in
      let rest : Cells = xs ++ ys in
      let near : Local is s p arena.storage = λ a u out. same a (left a out).0 (left a out).1 in
      let (arena_is, index_is) = rest-settle_level b1 s p l in
      record {
        pool = rw arena_is pool;
        is_levels = λ t.
            rw
              (
                arena_is,
                levels-settle_level b1 s p l rest at.counted t,
                queues-free (replace s p rest v) (i ∷ v.free) t,
              )
              (rw (levels-after b arena index s p l rest t) (IsLevels-after is s p rest near at t));
        sorted = λ t.
            rw (queues-free (replace s p rest v) (i ∷ v.free) t) (IsSorted-replace is s p rest t);
        good = λ t.
            rw (queues-free (replace s p rest v) (i ∷ v.free) t)
              (GoodQueues-replace is s p rest fit t);
        best_is = λ t.
            rw (queues-free (replace s p rest v) (i ∷ v.free) t)
              (best-settle_level is s p l rest queue at.counted arena index t);
        slots = λ a. rw arena_is (slots_left a room);
        index = λ id j. rw index_is (index_left id j);
        is_map = rw index_is (IsMap-remove order.id b.order_index is.is_map);
        orders = rw index_is orders_left;
        used =
            rw (arena_is, index_is)
              (omega (arith, used, is.used, length-remove order.id b.order_index found));
      }
