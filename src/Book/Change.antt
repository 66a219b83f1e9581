-- ===== src/Book/Change.antt =====
-- Replacing the queue of one price, on the levels and on the queues.
use ferrox.Prelude.{[], arith, count, get_elem?, length, refl, ℤ, ◌+◌, ◌<◌, ◌≡◌, ◌≤◌, ℕ}
use ferrox.Order.{Side, bid, ask}
use ferrox.Arena.{Storage, PriceLevel}
use ferrox.Arena.Seg.{Uniq, Cells, uses}
use ferrox.Arena.Level.{IsLevel}
use ferrox.Collections.TreeMap
use ferrox.Collections.TreeMap.Sorted.{IsSorted, IsSorted-insert, IsSorted-remove}
use ferrox.Book.{OrderBook, levels, set_levels}
use ferrox.Book.Queues.{
  IsLevels-frame, IsLevels-insert, IsLevels-remove, sum-insert, sum-lookup, sum-remove, cells_at,
  IsLevels,
}
use ferrox.Book.Good.{GoodQueues-insert, GoodQueues-remove, GoodCells, GoodQueues}
use ferrox.Book.View.{View, queues, set_queues, total_of, IsBook}

-- The queues with the cells of a price replaced, and with its level removed.
abbrev pub put : Side → ℤ → Cells → View → View
put s p cs v = set_queues v s (TreeMap.insert p cs (queues v s))

abbrev pub drop : Side → ℤ → View → View
drop s p v = set_queues v s (TreeMap.remove p (queues v s))

abbrev pub cells : View → Side → ℤ → Cells
cells v s p = cells_at p (queues v s)

pub total_of-put :
    (f : Cells → ℕ) (s : Side) (p : ℤ) (cs : Cells) (v : View)
    → f [] ≡ 0
    → IsSorted (queues v s)
    → total_of f (put s p cs v) + f (cells v s p) ≡ total_of f v + f cs
total_of-put f bid p cs v e s = omega (arith, sum-insert f p cs v.bids e s)
total_of-put f ask p cs v e s = omega (arith, sum-insert f p cs v.asks e s)

pub total_of-drop :
    (f : Cells → ℕ) (s : Side) (p : ℤ) (v : View)
    → f [] ≡ 0
    → total_of f (drop s p v) + f (cells v s p) ≡ total_of f v
total_of-drop f bid p v e = omega (arith, sum-remove f p v.bids e)
total_of-drop f ask p v e = omega (arith, sum-remove f p v.asks e)

pub total_of-cells :
    (f : Cells → ℕ) (s : Side) (p : ℤ) (v : View) → f [] ≡ 0 → f (cells v s p) ≤ total_of f v
total_of-cells f bid p v e = omega (arith, sum-lookup f p v.bids e)
total_of-cells f ask p v e = omega (arith, sum-lookup f p v.asks e)

-- Each index stands once at most, in a level as on both sides.
abbrev pub UniqView : View → Type 0
UniqView v = (a : ℕ) → total_of (uses a) v ≤ 1

module _ {b : OrderBook} {v : View} (is : IsBook b v) where
  pub uniq : UniqView v
  uniq a = ground (arith, is.slots a)

  pub Uniq-cells : (s : Side) (p : ℤ) → Uniq (cells v s p)
  Uniq-cells s p a = omega (arith, uniq a, total_of-cells (uses a) s p v refl)

  -- A free slot holds no order, and each is free once.
  pub uniq_free : (a : ℕ) → (count a v.free ≤ 1) × (0 < count a v.free → total_of (uses a) v ≡ 0)
  uniq_free a = (ground (arith, is.slots a), λ h. ground (arith, is.slots a))

  -- The storage may have changed in the cells of the price and in free slots.
  abbrev pub Local : Side → ℤ → Storage → Type 0
  Local s p st =
      (a : ℕ)
      → 0 < total_of (uses a) v
      → uses a (cells v s p) ≡ 0
      → get_elem? st a ≡ get_elem? b.arena.storage a

  pub IsLevels-put :
      (s : Side) (p : ℤ) {st : Storage} {l : PriceLevel} {cs : Cells}
      → Local s p st
      → IsLevel st l cs
      → (t : Side)
      → IsLevels st
          (levels (set_levels b s (TreeMap.insert p l (levels b s))) t)
          (queues (put s p cs v) t)
  IsLevels-put bid p same at bid =
      IsLevels-insert p (is.is_levels bid) (is.sorted bid) (λ a. omega (arith, uniq a)) at
        (λ a i. same a (omega arith))
  IsLevels-put bid p same at ask =
      IsLevels-frame (is.is_levels ask)
        (λ a i. same a (omega arith) (omega (arith, uniq a, sum-lookup (uses a) p v.bids refl)))
  IsLevels-put ask p same at ask =
      IsLevels-insert p (is.is_levels ask) (is.sorted ask) (λ a. omega (arith, uniq a)) at
        (λ a i. same a (omega arith))
  IsLevels-put ask p same at bid =
      IsLevels-frame (is.is_levels bid)
        (λ a i. same a (omega arith) (omega (arith, uniq a, sum-lookup (uses a) p v.asks refl)))

  pub IsLevels-drop :
      (s : Side) (p : ℤ) {st : Storage}
      → Local s p st
      → (t : Side)
      → IsLevels st
          (levels (set_levels b s (TreeMap.remove p (levels b s))) t)
          (queues (drop s p v) t)
  IsLevels-drop bid p same bid =
      IsLevels-remove p (is.is_levels bid) (λ a. omega (arith, uniq a))
        (λ a i. same a (omega arith))
  IsLevels-drop bid p same ask =
      IsLevels-frame (is.is_levels ask)
        (λ a i. same a (omega arith) (omega (arith, uniq a, sum-lookup (uses a) p v.bids refl)))
  IsLevels-drop ask p same ask =
      IsLevels-remove p (is.is_levels ask) (λ a. omega (arith, uniq a))
        (λ a i. same a (omega arith))
  IsLevels-drop ask p same bid =
      IsLevels-frame (is.is_levels bid)
        (λ a i. same a (omega arith) (omega (arith, uniq a, sum-lookup (uses a) p v.asks refl)))

  pub IsSorted-put : (s : Side) (p : ℤ) (cs : Cells) (t : Side) → IsSorted (queues (put s p cs v) t)
  IsSorted-put bid p cs bid = IsSorted-insert p cs v.bids (is.sorted bid)
  IsSorted-put bid p cs ask = is.sorted ask
  IsSorted-put ask p cs bid = is.sorted bid
  IsSorted-put ask p cs ask = IsSorted-insert p cs v.asks (is.sorted ask)

  pub IsSorted-drop : (s : Side) (p : ℤ) (t : Side) → IsSorted (queues (drop s p v) t)
  IsSorted-drop bid p bid = IsSorted-remove p v.bids (is.sorted bid)
  IsSorted-drop bid p ask = is.sorted ask
  IsSorted-drop ask p bid = is.sorted bid
  IsSorted-drop ask p ask = IsSorted-remove p v.asks (is.sorted ask)

  pub GoodQueues-put :
      (s : Side) (p : ℤ) (cs : Cells)
      → 0 < length cs
      → GoodCells s p cs
      → (t : Side) → GoodQueues t (queues (put s p cs v) t)
  GoodQueues-put bid p cs n g bid = GoodQueues-insert bid p cs v.bids (is.good bid) n g
  GoodQueues-put bid p cs n g ask = is.good ask
  GoodQueues-put ask p cs n g bid = is.good bid
  GoodQueues-put ask p cs n g ask = GoodQueues-insert ask p cs v.asks (is.good ask) n g

  pub GoodQueues-drop : (s : Side) (p : ℤ) (t : Side) → GoodQueues t (queues (drop s p v) t)
  GoodQueues-drop bid p bid = GoodQueues-remove bid p v.bids (is.good bid)
  GoodQueues-drop bid p ask = is.good ask
  GoodQueues-drop ask p bid = is.good bid
  GoodQueues-drop ask p ask = GoodQueues-remove ask p v.asks (is.good ask)
