-- ===== src/Reference/Room.antt =====
-- How many orders and free slots a view has after a change.
use ferrox.Prelude.{
  ap, arith, length, length-append, ltb, refl, some, true, ℕ, ℤ, ◌++◌, ◌+◌, ◌<◌, ◌≡◌, List, [], ◌∷◌,
}
use ferrox.Order.{Order, Side, bid, ask}
use ferrox.Arena.Seg.{Cells}
use ferrox.Arena.Quantity.{less}
use ferrox.Collections.TreeMap
use ferrox.Book.Queues.{or_empty}
use ferrox.Book.View.{View, queues, total_of}
use ferrox.Book.Change.{cells, put, total_of-put}
use ferrox.Book.Settle.{dequeue, total_of-replace}
use ferrox.Book.Insert.{enqueue}
use ferrox.Book.Reduce.{take_front}
use ferrox.Reference.Views.{IsTidy}

free-put : (s : Side) (p : ℤ) (cs : Cells) (v : View) → (put s p cs v).free ≡ v.free
free-put bid p cs v = refl
free-put ask p cs v = refl

module _ (s : Side) (p : ℤ) (v : View) (is : IsTidy v) where
  -- One order less.
  pub total_of-dequeue :
      (xs : Cells) (i : ℕ) (o : Order) (ys : Cells)
      → TreeMap.lookup p (queues v s) ≡ some (xs ++ ((i, o) ∷ ys))
      → total_of length (dequeue s p (xs ++ ys) i v) + 1 ≡ total_of length v
  total_of-dequeue xs i o ys queue =
      let before : cells v s p ≡ xs ++ ((i, o) ∷ ys) = ap or_empty queue in
      let whole = ap (λ (zs : Cells). length zs) before in
      omega (
        arith,
        whole,
        length-append xs ((i, o) ∷ ys),
        length-append xs ys,
        total_of-replace length s p (xs ++ ys) v refl (is.sorted s),
      )

  -- A fill of part of the front order.
  pub total_of-take_front :
      (i : ℕ) (o : Order) (cs : Cells) (fill : ℕ)
      → TreeMap.lookup p (queues v s) ≡ some ((i, o) ∷ cs)
      → fill < o.quantity
      → (total_of length (take_front s p i o cs fill v) ≡ total_of length v)
        × (length (take_front s p i o cs fill v).free ≡ length v.free)
  total_of-take_front i o cs fill queue part =
      let before : cells v s p ≡ (i, o) ∷ cs = ap or_empty queue in
      let whole = ap (λ (zs : Cells). length zs) before in
      let some_left : ltb fill o.quantity ≡ true = ground arith in
      rw some_left (
        omega (arith, whole, total_of-put length s p ((i, less o fill) ∷ cs) v refl (is.sorted s)),
        ap (λ (l : List ℕ). length l) (free-put s p ((i, less o fill) ∷ cs) v),
      )

-- One order more.
pub total_of-enqueue :
    (o : Order) (i : ℕ) (free : List ℕ) (v : View)
    → IsTidy v
    → total_of length (enqueue o i free v) ≡ total_of length v + 1
total_of-enqueue o i free v is =
    let s : Side = o.side in
    let p : ℤ = o.price in
    omega (
      arith,
      length-append (cells v s p) ((i, o) ∷ []),
      total_of-put length s p (cells v s p ++ (i, o) ∷ []) v refl (is.sorted s),
    )
