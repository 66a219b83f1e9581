-- ===== src/Reference/Every.antt =====
-- Every book that meets the invariant has a reference book with the same orders.
use mathlib.Core.Path.{subst}
use mathlib.Core.List.{reverse_aux}
use ferrox.Prelude.{
  Option, ap, arith, length, length-append, none, refl, reverse, some, suc, ℕ, ◌++◌, ◌+◌, ◌∙◌, ◌≡◌,
  ◌≢◌, ◌≤◌, List, [], ◌∷◌,
}
use ferrox.Order.{Order}
use ferrox.Arena.Seg.{Cells}
use ferrox.Collections.HashMap
use ferrox.Book.{OrderBook}
use ferrox.Book.Queues.{Queues, sum}
use ferrox.Book.View.{View, IsBook, pairs, hit, total_of}
use ferrox.Book.Resting.{orders_of, orders_in}
use ferrox.Reference.Views.{IsBook-IsTidy}
use ferrox.Reference.Number.{
  number, ids, listed, length-number, InOrder-number, UniqIds-number, Agrees-number,
}
use ferrox.Reference.Bounded.{InOrder}
use ferrox.Reference.Maker.{Stands}

-- A measure that adds up over the orders.
module _ (m : List Order → ℕ) (m_nil : m [] ≡ 0)
    (m-append : (xs ys : List Order) → m (xs ++ ys) ≡ m xs + m ys) where
  measure-reverse_aux :
      (qs acc : Queues)
      → m (orders_in (reverse_aux qs acc)) ≡ sum (λ cs. m (orders_of cs)) qs + m (orders_in acc)
  measure-reverse_aux [] acc = omega arith
  measure-reverse_aux ((k, cs) ∷ qs) acc =
      omega (arith, measure-reverse_aux qs ((k, cs) ∷ acc), m-append (orders_of cs) (orders_in acc))

  measure-orders_in : (qs : Queues) → m (orders_in qs) ≡ sum (λ cs. m (orders_of cs)) qs
  measure-orders_in [] = m_nil
  measure-orders_in ((k, cs) ∷ qs) =
      omega (arith, measure-orders_in qs, m-append (orders_of cs) (orders_in qs))

  measure-listed : (v : View) → m (listed v) ≡ total_of (λ cs. m (orders_of cs)) v
  measure-listed v = omega (
    arith,
    m_nil,
    measure-orders_in v.asks,
    measure-reverse_aux v.bids [],
    m-append (orders_in v.asks) (orders_in (reverse v.bids)),
  )

ids-append : (id : ℕ) (xs ys : List Order) → ids id (xs ++ ys) ≡ ids id xs + ids id ys
ids-append id [] ys = omega arith
ids-append id (x ∷ xs) ys = omega (arith, ids-append id xs ys)

ids-pairs :
    (id i : ℕ) (cs : Cells)
    → ((j : ℕ) → j ≢ i → pairs id j cs ≡ 0)
    → ids id (orders_of cs) ≡ pairs id i cs
ids-pairs id i [] others = refl
ids-pairs id i ((j, o) ∷ cs) others =
    let rest = ids-pairs id i cs (λ k ne. omega (arith, others k ne)) in
    let here = others j in ground arith

ids-sum :
    (id i : ℕ) (qs : Queues)
    → ((j : ℕ) → j ≢ i → sum (pairs id j) qs ≡ 0)
    → sum (λ cs. ids id (orders_of cs)) qs ≡ sum (pairs id i) qs
ids-sum id i [] others = refl
ids-sum id i ((k, cs) ∷ qs) others = omega (
  arith,
  ids-pairs id i cs (λ j ne. omega (arith, others j ne)),
  ids-sum id i qs (λ j ne. omega (arith, others j ne)),
)

length-orders_of : (cs : Cells) → length (orders_of cs) ≡ length cs
length-orders_of [] = refl
length-orders_of ((i, o) ∷ cs) = ap suc (length-orders_of cs)

sum-length : (qs : Queues) → sum (λ cs. length (orders_of cs)) qs ≡ sum length qs
sum-length [] = refl
sum-length ((k, cs) ∷ qs) = omega (arith, sum-length qs, length-orders_of cs)

pub length-listed : (v : View) → length (listed v) ≡ total_of length v
length-listed v = omega (
  arith,
  measure-listed (λ (os : List Order). length os) refl length-append v,
  sum-length v.bids,
  sum-length v.asks,
)

module _ {b : OrderBook} {v : View} (is : IsBook b v) where
  -- An id stands once at most.
  ids_once : (id : ℕ) → ids id (listed v) ≤ 1
  ids_once id = go (HashMap.lookup id b.order_index) refl
    where
      bound :
          (i : ℕ)
          → ((j : ℕ) → j ≢ i → total_of (pairs id j) v ≡ 0)
          → total_of (pairs id i) v ≤ 1
          → ids id (listed v) ≤ 1
      bound i others once = omega (
        arith,
        measure-listed (ids id) refl (ids-append id) v,
        ids-sum id i v.bids (λ j ne. omega (arith, others j ne)),
        ids-sum id i v.asks (λ j ne. omega (arith, others j ne)),
      )

      go : (found : Option ℕ) → HashMap.lookup id b.order_index ≡ found → ids id (listed v) ≤ 1
      go none e =
          bound 0 (λ j ne. is.index id j ∙ ap (hit j) e)
            (let h = is.index id 0 ∙ ap (hit 0) e in omega arith)
      go (some i) e =
          bound i (λ j ne. is.index id j ∙ ap (hit j) e ∙ ground arith)
            (let h = is.index id i ∙ ap (hit i) e in ground arith)

  -- The listed orders, numbered, stand for the book.
  pub Stands-number : Stands b.arena.capacity (length (listed v)) v (number 0 (listed v))
  Stands-number =
      let counted = is.pool.counted in
      let used = is.used in
      let total = is.orders in
      record {
        tidy = IsBook-IsTidy is;
        agrees = Agrees-number 0 v (IsBook-IsTidy is);
        order =
            subst (InOrder 0 (number 0 (listed v))) {x = 0 + length (listed v)}
              {y = length (listed v)} (omega arith) (InOrder-number 0 (listed v));
        ids = UniqIds-number 0 (listed v) ids_once;
        size = length-number 0 (listed v) ∙ length-listed v;
        room = omega arith;
      }
