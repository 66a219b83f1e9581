-- ===== src/Book/Insert.antt =====
-- `OrderBook::insert_order`.
use ferrox.Prelude.{
  ap, if◌then◌else◌, length, length-append, ltb, ◌<◌, count, get_elem?, ◌≢◌, Option-cases, arith,
  inl, inr, none, ◌+◌, List, [], refl, sym, ℤ, ◌++◌, ◌∷◌, ◌≡◌, ℕ,
}
use ferrox.Order.{Order, Side, bid, ask}
use ferrox.Arena.{PriceLevel, Arena}
use ferrox.Arena.Seg.{nil, Cells, uses, uses-append}
use ferrox.Arena.Level.{IsLevel}
use ferrox.Arena.Pool.{IsArena}
use ferrox.Collections.TreeMap
use ferrox.Collections.TreeMap.Sorted.{first_key-insert, last_key-insert}
use ferrox.Collections.HashMap
use ferrox.Collections.HashMap.Laws.{IsMap-insert, length-insert, lookup-insert}
use ferrox.Book.{OrderBook, levels, set_levels, entry_or_new, update_best_after_insert}
use ferrox.Book.Queues.{IsLevels-lookup, IsLevels-lookup-none}
use ferrox.Book.Good.{GoodCells-append, GoodCells-cells_at, GoodOrder, GoodCells}
use ferrox.Book.View.{
  pairs-append, queues-free, best, best_key, View, queues, total_of, pairs, hit, IsBook,
}
use ferrox.Book.Change.{GoodQueues-put, IsLevels-put, IsSorted-put, total_of-put, put, cells}

-- The order stands at the end of the queue of its price, in the slot `i`.
abbrev pub enqueue : Order → ℕ → List ℕ → View → View
enqueue order i free v =
    let s : Side = order.side in
    let p : ℤ = order.price in record (put s p (cells v s p ++ (i, order) ∷ []) v) { free = free }

-- The book that `insert_at` makes.
abbrev pub inserted : OrderBook → Side → ℤ → PriceLevel → Arena → List (ℕ × ℕ) → OrderBook
inserted b s p l arena index =
    update_best_after_insert
      (record (set_levels b s (TreeMap.insert p l (levels b s))) {
        arena = arena;
        order_index = index;
      })
      s p

levels-inserted :
    (b : OrderBook) (s : Side) (p : ℤ) (l : PriceLevel) (arena : Arena) (index : List (ℕ × ℕ))
    (t : Side)
    → levels (inserted b s p l arena index) t
      ≡ levels (set_levels b s (TreeMap.insert p l (levels b s))) t
unfolding update_best_after_insert
levels-inserted b bid p l arena index bid = refl
levels-inserted b bid p l arena index ask = refl
levels-inserted b ask p l arena index bid = refl
levels-inserted b ask p l arena index ask = refl

rest-inserted :
    (b : OrderBook) (s : Side) (p : ℤ) (l : PriceLevel) (arena : Arena) (index : List (ℕ × ℕ))
    → ((inserted b s p l arena index).arena ≡ arena)
      × ((inserted b s p l arena index).order_index ≡ index)
unfolding update_best_after_insert
rest-inserted b bid p l arena index = (refl, refl)
rest-inserted b ask p l arena index = (refl, refl)

-- The cached best price is kept up by a comparison alone.
best-inserted :
    {b : OrderBook} {v : View}
    → IsBook b v
    → (s : Side) (p : ℤ) (l : PriceLevel) (arena : Arena) (index : List (ℕ × ℕ)) (cs : Cells)
      (t : Side)
    → best (inserted b s p l arena index) t ≡ best_key t (queues (put s p cs v) t)
unfolding update_best_after_insert
best-inserted {v} is bid p l arena index cs bid =
    rw (is.best_is bid) (sym (last_key-insert p cs v.bids (is.sorted bid)))
best-inserted is bid p l arena index cs ask = is.best_is ask
best-inserted is ask p l arena index cs bid = is.best_is bid
best-inserted {v} is ask p l arena index cs ask =
    rw (is.best_is ask) (sym (first_key-insert p cs v.asks))

-- `entry(price).or_insert_with(PriceLevel::new)` is the level of the queue at the price.
pub entry-IsLevel :
    {b : OrderBook} {v : View}
    → IsBook b v
    → (s : Side) (p : ℤ) → IsLevel b.arena.storage (entry_or_new p (levels b s)) (cells v s p)
entry-IsLevel {b} {v} is s p = elim (Option-cases (TreeMap.lookup p (queues v s))) [
  | inl missing ↦
      rw (missing, IsLevels-lookup-none p (is.is_levels s) missing)
        (record { chain = nil; counted = refl; sums = refl })
  | inr (cs, found) ↦
      let (l, there, is') = IsLevels-lookup p (is.is_levels s) found in rw (found, there) is'
]

module _ {b : OrderBook} {v : View} (is : IsBook b v) (order : Order) {i : ℕ} {free : List ℕ}
    (slot : v.free ≡ i ∷ free) (fits : GoodOrder order.side order.price order)
    (fresh : HashMap.lookup order.id b.order_index ≡ none) where
  -- The measures of the view after the insertion.
  total_of-enqueue :
      (f : Cells → ℕ)
      → f [] ≡ 0
      → ((xs : Cells) → f (xs ++ (i, order) ∷ []) ≡ f xs + f ((i, order) ∷ []))
      → total_of f (enqueue order i free v) ≡ total_of f v + f ((i, order) ∷ [])
  total_of-enqueue f e plus =
      let s : Side = order.side in
      let p : ℤ = order.price in
      omega (
        arith,
        plus (cells v s p),
        total_of-put f s p (cells v s p ++ (i, order) ∷ []) v e (is.sorted s),
      )

module _ {b : OrderBook} {v : View} (is : IsBook b v) (order : Order) {i : ℕ} {free : List ℕ}
    (slot : v.free ≡ i ∷ free) (fits : GoodOrder order.side order.price order)
    (fresh : HashMap.lookup order.id b.order_index ≡ none) where
  pub unused : total_of (uses i) v ≡ 0
  unused = ground (arith, is.slots i, ap (count i) slot)

  slots_after :
      {cap : ℕ} (a : ℕ)
      → cap ≡ b.arena.capacity
      → count a free + total_of (uses a) (enqueue order i free v) ≡ (if ltb a cap then 1 else 0)
  slots_after a room = ground (
    arith,
    is.slots a,
    ap (count a) slot,
    total_of-enqueue is order slot fits fresh (uses a) refl
        (λ xs. uses-append a xs ((i, order) ∷ [])),
  )

  index_after :
      (id j : ℕ)
      → total_of (pairs id j) (enqueue order i free v)
        ≡ hit j (HashMap.lookup id (HashMap.insert order.id i b.order_index))
  index_after id j = ground (
    arith,
    is.index id j,
    lookup-insert order.id id i b.order_index,
    total_of-enqueue is order slot fits fresh (pairs id j) refl
        (λ xs. pairs-append id j xs ((i, order) ∷ [])),
  )

  orders_after :
      length (HashMap.insert order.id i b.order_index) ≡ total_of length (enqueue order i free v)
  orders_after = omega (
    arith,
    is.orders,
    length-insert order.id i b.order_index fresh,
    total_of-enqueue is order slot fits fresh length refl
        (λ xs. length-append xs ((i, order) ∷ [])),
  )

  pub inserted-IsBook :
      {l : PriceLevel} {arena : Arena}
      → IsArena arena free
      → arena.capacity ≡ b.arena.capacity
      → arena.count ≡ b.arena.count + 1
      → IsLevel arena.storage l (cells v order.side order.price ++ (i, order) ∷ [])
      → ((a : ℕ)
          → a ≢ i
          → uses a (cells v order.side order.price) ≡ 0
          → get_elem? arena.storage a ≡ get_elem? b.arena.storage a)
      → IsBook
          (inserted b order.side order.price l arena (HashMap.insert order.id i b.order_index))
          (enqueue order i free v)
  inserted-IsBook {l} {arena} pool room used at same =
      let s : Side = order.side in
      let p : ℤ = order.price in
      let cs : Cells = cells v s p ++ (i, order) ∷ [] in
      let index : List (ℕ × ℕ) = HashMap.insert order.id i b.order_index in
      let long : 0 < length cs = omega (arith, length-append {0} (cells v s p) ((i, order) ∷ [])) in
      let all_fit : GoodCells s p cs =
        GoodCells-append s p (cells v s p) ((i, order) ∷ [])
          (GoodCells-cells_at s p (queues v s) (is.good s)) (fits, tt) in
      let (arena_is, index_is) = rest-inserted b s p l arena index in
      record {
        pool = rw arena_is pool;
        is_levels = λ t.
            rw (arena_is, levels-inserted b s p l arena index t, queues-free (put s p cs v) free t)
              (IsLevels-put is s p (λ a used_a out. same a (λ e. ground (arith, unused)) out) at t);
        sorted = λ t. rw (queues-free (put s p cs v) free t) (IsSorted-put is s p cs t);
        good =
            λ t. rw (queues-free (put s p cs v) free t) (GoodQueues-put is s p cs long all_fit t);
        best_is =
            λ t. rw (queues-free (put s p cs v) free t) (best-inserted is s p l arena index cs t);
        slots = λ a. rw arena_is (slots_after a room);
        index = λ id j. rw index_is (index_after id j);
        is_map = rw index_is (IsMap-insert order.id i b.order_index is.is_map fresh);
        orders = rw index_is orders_after;
        used =
            rw (arena_is, index_is)
              (omega (arith, used, is.used, length-insert order.id i b.order_index fresh));
      }
