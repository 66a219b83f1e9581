-- ===== src/Book/InsertOrder.antt =====
-- `OrderBook::insert_order`, on every branch.
use ferrox.Prelude.{
  Option, Result, [], ap, err, length, ◌<◌, List, Returns, arith, bind, count, get_elem?, none, ok,
  refl, returns, some, ℤ, ◌+◌, ◌∙◌, ◌∷◌, ◌≡◌, ◌≢◌, ℕ,
}
use ferrox.Order.{Order, Side}
use ferrox.Arena.{arena_null, Arena, alloc, from_order}
use ferrox.Arena.Seg.{uses}
use ferrox.Arena.Level.{IsLevel-frame, IsLevel}
use ferrox.Arena.Pool.{IsArena-Keeps, IsArena, Allocated, alloc-Allocated}
use ferrox.Arena.PushBack.{push_back-append}
use ferrox.Collections.HashMap
use ferrox.Book.{
  OrderBook, BookError, duplicate_order_id, arena_full, levels, entry_or_new, insert_at,
  insert_order,
}
use ferrox.Book.Good.{GoodOrder}
use ferrox.Book.View.{View, IsBook}
use ferrox.Book.Change.{uniq_free, total_of-cells, Uniq-cells, cells}
use ferrox.Book.Insert.{unused, enqueue, inserted-IsBook, entry-IsLevel}

module _ {b : OrderBook} {v : View} (is : IsBook b v) (order : Order) {i : ℕ} {free : List ℕ}
    (slot : v.free ≡ i ∷ free) (fits : GoodOrder order.side order.price order)
    (fresh : HashMap.lookup order.id b.order_index ≡ none) where
  -- `insert_at` with the slot that `alloc` took from the free list.
  insert_at-enqueue :
      {arena : Arena}
      → get_elem? arena.storage i ≡ some (from_order order)
      → ((a : ℕ) → a ≢ i → get_elem? arena.storage a ≡ get_elem? b.arena.storage a)
      → arena.count ≡ b.arena.count + 1
      → arena.capacity ≡ b.arena.capacity
      → IsArena arena free
      → Returns
          (λ (r, b'). (r ≡ ok tt) × IsBook b' (enqueue order i free v))
          (insert_at b order arena i)
  unfolding insert_at
  insert_at-enqueue {arena} at same used room pool =
      let s : Side = order.side in
      let p : ℤ = order.price in
      let new : uses i (cells v s p) ≡ 0 =
        omega (arith, unused is order slot fits fresh, total_of-cells (uses i) s p v refl) in
      let level : IsLevel arena.storage (entry_or_new p (levels b s)) (cells v s p) =
        IsLevel-frame (entry-IsLevel is s p) (λ a u. same a (λ e. ground arith)) in
      let room_left : length (cells v s p) < arena_null = omega (
        arith,
        total_of-cells length s p v refl,
        is.orders,
        is.used,
        is.pool.counted,
        is.pool.small,
        ap (λ (l : List ℕ). length l) slot,
      ) in
      bind
        (push_back-append i order level (Uniq-cells is s p) new at
          (omega (arith, pool.size, pool.small)) room_left)
        λ (arena', level') (is', keeps). returns (
          refl,
          inserted-IsBook is order slot fits fresh
              (IsArena-Keeps pool keeps (λ a u.
                ground (arith, is.slots a, ap (count a) slot, total_of-cells (uses a) s p v refl)))
              (keeps.capacity ∙ room) (keeps.count ∙ used) is'
              (λ a ne out. keeps.same a (ground arith) ∙ same a ne),
        )

-- What `insert_order` promises, by what the index finds and what slots are free.
abbrev pub Inserted :
    OrderBook → View → Order → Option ℕ → List ℕ → Result BookError (Unit {0}) × OrderBook → Type 0
Inserted b v order (some _) free (r, b') = (r ≡ err (duplicate_order_id order.id)) × (b' ≡ b)
Inserted b v order none [] (r, b') = (r ≡ err arena_full) × (b' ≡ b)
Inserted b v order none (i ∷ free) (r, b') = (r ≡ ok tt) × IsBook b' (enqueue order i free v)

-- On a book that meets the invariant, an order of a positive `u64` quantity joins the end of the
-- queue of its price and side, in the first free slot, and the invariant holds again. An id that is
-- in the book, or else an arena with no free slot, is reported and changes nothing. There is no panic.
pub insert_order-Inserted :
    {b : OrderBook} {v : View} (order : Order)
    → IsBook b v
    → 0 < order.quantity
    → order.quantity < 18_446_744_073_709_551_616
    → Returns
        (Inserted b v order (HashMap.lookup order.id b.order_index) v.free)
        (insert_order b order)
unfolding insert_order
insert_order-Inserted {b} {v} order is some_quantity word =
    go (HashMap.lookup order.id b.order_index) v.free refl refl
      (alloc-Allocated order is.pool (λ a. (uniq_free is a).0))
  where
    go :
        (found : Option ℕ) (free : List ℕ)
        → HashMap.lookup order.id b.order_index ≡ found
        → v.free ≡ free
        → Returns (Allocated b.arena order free) (alloc b.arena order)
        → Returns (Inserted b v order found free) (insert_order b order)
    go (some i) free e f done = rw (e, insert_order) (returns (refl, refl))
    go none [] e f done =
        rw (e, insert_order)
          (bind done λ (r, arena) (failed, same). rw (failed, same) (returns (refl, refl)))
    go none (i ∷ free) e f done =
        rw (e, insert_order)
          (bind done λ (r, arena) (taken, at, same, used, room, pool). rw taken (
            insert_at-enqueue is order f
              (record { side = refl; price = refl; positive = some_quantity; word = word }) e at
              same used room pool))
