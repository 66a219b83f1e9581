-- ===== src/Book/Reduce.antt =====
-- `OrderBook::reduce_front_quantity`, on every branch.
use mathlib.Core.Path.{subst}
use ferrox.Prelude.{
  Bool-cases, err, false, if◌then◌else◌, inl, inr, ltb, mono, true, ◌-◌, ◌==◌, ◌≤◌, Returns, bind,
  get_elem?, ok, returns, length, sym, ◌∙◌, [], ap, arith, refl, some, ℤ, ◌<◌, ◌∷◌, ◌≡◌, ℕ,
}
use ferrox.Order.{Order, Side, bid, ask}
use ferrox.Arena.{arena_null, PriceLevel, Arena, dealloc}
use ferrox.Arena.Seg.{Cells, uses, node}
use ferrox.Arena.Level.{IsLevel, Keeps, Keeps-weaken, Keeps-trans, head-ne_null, Seg-cons}
use ferrox.Arena.PopFront.{pop_front-cons}
use ferrox.Arena.Quantity.{less, set_quantity-less}
use ferrox.Arena.Pool.{IsArena-Keeps}
use ferrox.Collections.TreeMap
use ferrox.Collections.HashMap
use ferrox.Book.{
  peek_front, Levels, OrderBook, fill_exceeds_quantity, set_levels, levels, drop_front, reduce_at,
  reduce_front_quantity,
}
use ferrox.Book.Queues.{IsLevels-lookup, or_empty}
use ferrox.Book.View.{View, queues, total_of, pairs, best, best_key, IsBook}
use ferrox.Book.Change.{
  Local, total_of-cells, put, cells, total_of-put, IsLevels-put, IsSorted-put, GoodQueues-put,
}
use ferrox.Book.Settle.{dequeue}
use ferrox.Book.Release.{queue-Held, freed-IsBook}
use ferrox.Collections.TreeMap.Sorted.{first_key-replace, last_key-replace}

rest-set_levels :
    (b : OrderBook) (arena : Arena) (s : Side) (m : Levels)
    → ((set_levels (record b { arena = arena }) s m).arena ≡ arena)
      × ((set_levels (record b { arena = arena }) s m).order_index ≡ b.order_index)
rest-set_levels b arena bid m = (refl, refl)
rest-set_levels b arena ask m = (refl, refl)

levels-set_levels :
    (b : OrderBook) (arena : Arena) (s : Side) (m : Levels) (t : Side)
    → levels (set_levels (record b { arena = arena }) s m) t ≡ levels (set_levels b s m) t
levels-set_levels b arena bid m bid = refl
levels-set_levels b arena bid m ask = refl
levels-set_levels b arena ask m bid = refl
levels-set_levels b arena ask m ask = refl

free-put : (s : Side) (p : ℤ) (cs : Cells) (v : View) → (put s p cs v).free ≡ v.free
free-put bid p cs v = refl
free-put ask p cs v = refl

-- A level that stays keeps the best price.
best-set_levels :
    {b : OrderBook} {v : View}
    → IsBook b v
    → (s : Side) (p : ℤ) (cs : Cells) {old : Cells} → TreeMap.lookup p (queues v s) ≡ some old
    → (arena : Arena) (m : Levels) (t : Side)
    → best (set_levels (record b { arena = arena }) s m) t ≡ best_key t (queues (put s p cs v) t)
best-set_levels {v} is bid p cs q arena m bid =
    is.best_is bid ∙ sym (last_key-replace p cs v.bids (is.sorted bid) q)
best-set_levels is bid p cs q arena m ask = is.best_is ask
best-set_levels is ask p cs q arena m bid = is.best_is bid
best-set_levels {v} is ask p cs q arena m ask =
    is.best_is ask ∙ sym (first_key-replace p cs v.asks (is.sorted ask) q)

-- The view with the front order of a queue reduced, and removed at zero.
abbrev pub take_front : Side → ℤ → ℕ → Order → Cells → ℕ → View → View
take_front s p i o cs fill v =
    if ltb fill o.quantity then put s p ((i, less o fill) ∷ cs) v else dequeue s p cs i v

module _ {b : OrderBook} {v : View} (is : IsBook b v) (s : Side) (p : ℤ) {i : ℕ} {o : Order}
    {cs : Cells} (queue : TreeMap.lookup p (queues v s) ≡ some ((i, o) ∷ cs)) where
  -- The index names the order at the front.
  pub front_indexed : HashMap.lookup o.id b.order_index ≡ some i
  front_indexed =
      let here = total_of-cells (pairs o.id i) s p v refl in
      let same : cells v s p ≡ (i, o) ∷ cs = ap or_empty queue in
      let one : 0 < pairs o.id i (cells v s p) = rw same (ground arith) in
      ground (arith, is.index o.id i)

  -- The book with the front order reduced in its place.
  reduced-IsBook :
      {arena : Arena} {l : PriceLevel} (fill : ℕ)
      → fill < o.quantity
      → IsLevel arena.storage l ((i, less o fill) ∷ cs)
      → Keeps ((i, o) ∷ cs) b.arena arena
      → IsBook
          (set_levels (record b { arena = arena }) s (TreeMap.insert p l (levels b s)))
          (put s p ((i, less o fill) ∷ cs) v)
  reduced-IsBook {arena} {l} fill part at keeps =
      let held = queue-Held s p [] i o cs is queue in
      let fits = held.good.0 in
      let same : cells v s p ≡ (i, o) ∷ cs = ap or_empty queue in
      let new : Cells = (i, less o fill) ∷ cs in
      let kept : (f : Cells → ℕ)
          → f [] ≡ 0
          → f new ≡ f ((i, o) ∷ cs)
          → total_of f (put s p new v) ≡ total_of f v =
        λ f e same_f. omega (arith, total_of-put f s p new v e (is.sorted s), ap f same) in
      let m : Levels = TreeMap.insert p l (levels b s) in
      let (arena_is, index_is) = rest-set_levels b arena s m in
      let free_is = free-put s p new v in
      let near : Local is s p arena.storage =
        λ a u out. keeps.same a (ap (uses a) (sym same) ∙ out) in
      record {
        pool = rw (arena_is, free_is) (IsArena-Keeps is.pool keeps held.not_free);
        is_levels =
            λ t. rw (arena_is, levels-set_levels b arena s m t) (IsLevels-put is s p near at t);
        sorted = IsSorted-put is s p new;
        good = GoodQueues-put is s p new (omega arith) (
          record {
            side = fits.side;
            price = fits.price;
            positive = omega arith;
            word = omega (arith, fits.word);
          },
          held.good.1,
        );
        best_is = best-set_levels is s p new queue arena m;
        slots = λ a. rw (arena_is, free_is, keeps.capacity, kept (uses a) refl refl) (is.slots a);
        index = λ id j. rw (index_is, kept (pairs id j) refl refl) (is.index id j);
        is_map = rw index_is is.is_map;
        orders = rw (index_is, kept length refl refl) is.orders;
        used = rw (arena_is, index_is, keeps.count) is.used;
      }

  -- The book with the front order filled completely.
  drop_front-IsBook :
      {arena : Arena} {l : PriceLevel} (fill : ℕ)
      → fill ≡ o.quantity
      → IsLevel arena.storage l ((i, less o fill) ∷ cs)
      → Keeps ((i, o) ∷ cs) b.arena arena
      → Returns (λ (r, b'). (r ≡ ok 0) × IsBook b' (dequeue s p cs i v)) (drop_front b s p l arena)
  unfolding drop_front
  drop_front-IsBook {arena} {l} fill all at keeps =
      let held = queue-Held s p [] i o cs is queue in
      let (first, n, here, rest) = Seg-cons at.chain in
      let here' = ap (get_elem? arena.storage) first ∙ here in
      rw here' (
        bind
          (pop_front-cons i (less o fill) cs at held.uniq (omega (arith, held.small, keeps.size))
            (omega (arith, held.room)) (omega arith))
          λ (popped, arena1, l1) (got, at1, keeps1).
            bind
              (subst (Returns _) (ap (dealloc arena1) (sym first)) (
                freed-IsBook s p [] i o cs is queue front_indexed at1
                  (Keeps-trans keeps (Keeps-weaken (λ a out. omega arith) keeps1))))
              λ arena2 done. returns (refl, done))

  -- The run of `reduce_front_quantity` up to `reduce_at`, and of `peek_front`.
  front_run :
      (l : PriceLevel) × (n : ℕ) × IsLevel b.arena.storage l ((i, o) ∷ cs)
      × ((fill : ℕ)
          → reduce_front_quantity b s p fill ≡ reduce_at b s p fill l (node o arena_null n))
      × (peek_front b s p ≡ some (some (node o arena_null n)))
  unfolding reduce_front_quantity peek_front
  front_run =
      let (l, there, at) = IsLevels-lookup p (is.is_levels s) queue in
      let (first, n, here, rest) = Seg-cons at.chain in
      let here' = ap (get_elem? b.arena.storage) first ∙ here in
      let held = queue-Held s p [] i o cs is queue in
      let nonempty = head-ne_null at.chain held.small in
      (
        l,
        n,
        at,
        (λ fill. rw (there, reduce_front_quantity, nonempty, here')),
        rw (there, peek_front, nonempty, here'),
      )

  -- On a book that meets the invariant, `peek_front` shows the first order of the queue.
  pub peek_front-cons : (n : ℕ) × (peek_front b s p ≡ some (some (node o arena_null n)))
  peek_front-cons = let (l, n, at, run, peek) = front_run in (n, peek)

  -- On a book that meets the invariant, a fill within the quantity of the first order of a price is
  -- taken off it, and what remains is returned; at zero the order leaves the queue, its slot and
  -- the index, and an empty level goes. The invariant holds again, and there is no panic.
  pub reduce_front_quantity-take_front :
      (fill : ℕ)
      → fill ≤ o.quantity
      → Returns
          (λ (r, b'). (r ≡ ok (o.quantity - fill)) × IsBook b' (take_front s p i o cs fill v))
          (reduce_front_quantity b s p fill)
  unfolding reduce_at
  reduce_front_quantity-take_front fill small =
      let (l, n, at, run, peek) = front_run in
      let held = queue-Held s p [] i o cs is queue in
      let enough : ltb o.quantity fill ≡ false = ground arith in
      let write = set_quantity-less i o cs fill at held.uniq small held.good.0.word in
      rw (run fill, enough)
        (elim (Bool-cases (ltb fill o.quantity)) [
          | inl part ↦ bind write λ arena (at', keeps).
              let left : (o.quantity - fill == 0) ≡ false = ground arith in
              rw (left, part) (returns (refl, reduced-IsBook fill (ground arith) at' keeps))
          | inr all ↦ bind write λ arena (at', keeps).
              let gone : (o.quantity - fill == 0) ≡ true = ground arith in
              rw (gone, all)
                (mono (drop_front-IsBook fill (ground arith) at' keeps)
                  λ (r, b') (r_is, is'). (r_is ∙ ap ok (ground arith), is'))
        ])

  -- A fill beyond the quantity of the first order is refused with both numbers, and the book stays.
  pub reduce_front_quantity-exceeds :
      (fill : ℕ)
      → o.quantity < fill
      → reduce_front_quantity b s p fill ≡ some (err (fill_exceeds_quantity o.quantity fill), b)
  unfolding reduce_at
  reduce_front_quantity-exceeds fill big =
      let (l, n, at, run, peek) = front_run in
      let over : ltb o.quantity fill ≡ true = ground arith in rw (run fill, over)
