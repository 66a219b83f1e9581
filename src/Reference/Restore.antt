-- ===== src/Reference/Restore.antt =====
-- Inserting listed orders into an empty book gives the book back.
use mathlib.Core.Path.{subst}
use mathlib.Core.List.{reverse_aux}
use ferrox.Prelude.{
  append-nil, reverse, ℤ, All, Option, Result, Returns, ap, append_assoc, arith, bind, length,
  length-append, mono, none, ok, refl, returns, some, suc, sym, ℕ, ◌++◌, ◌+◌, ◌<◌, ◌∙◌, ◌≡◌, ◌≤◌,
  List, [], ◌∷◌,
}
use ferrox.Order.{Order, Side, bid, ask}
use ferrox.Arena.{arena_null}
use ferrox.Arena.Seg.{Cells}
use ferrox.Collections.HashMap
use ferrox.Book
use ferrox.Book.{OrderBook, BookError, order_count, all_resting_orders, insert_order}
use ferrox.Book.Good.{GoodCells, GoodQueues}
use ferrox.Book.Queues.{Queues}
use ferrox.Book.View.{View, IsBook, hit}
use ferrox.Book.Insert.{enqueue}
use ferrox.Book.InsertOrder.{Inserted, insert_order-Inserted}
use ferrox.Book.Resting.{orders_of, orders_in, all_resting_orders-queues}
use ferrox.Matching
use ferrox.Matching.{resting, MatchingEngine, insert_all, restore_from_orders}
use ferrox.Reference.{Resting, ReferenceBook}
use ferrox.Reference.Views.{IsBook-IsTidy}
use ferrox.Reference.Kept.{Fresh, Fresh-before, UniqIds}
use ferrox.Reference.Maker.{Stands}
use ferrox.Reference.Add.{Simulates, Stands-push, no_pairs}
use ferrox.Reference.Number.{number, listed}
use ferrox.Reference.Every.{Stands-number, length-listed}
use ferrox.Reference.Run.{start-Simulates}

-- An order as `insert_order` takes it.
abbrev IsGood : Order → Type 0
IsGood o = (0 < o.quantity) × (o.quantity < 18_446_744_073_709_551_616)

-- An order of a fresh id finds a slot.
Inserted-Fresh :
    {cap hi : ℕ} {b : OrderBook} {v : View} {rs : List Resting} (o : Order) (found : Option ℕ)
    (free : List ℕ)
    → IsBook b v
    → Stands cap hi v rs
    → Fresh o.id rs
    → length rs < cap
    → HashMap.lookup o.id b.order_index ≡ found
    → v.free ≡ free
    → (r : Result BookError (Unit {0})) (b' : OrderBook) → Inserted b v o found free (r, b')
    → (i : ℕ) × (rest : List ℕ) × (v.free ≡ i ∷ rest) × (r ≡ ok tt) × IsBook b' (enqueue o i rest v)
Inserted-Fresh o (some i) free is st fresh small look slots r b' made =
    let once = is.index o.id i ∙ ap (hit i) look in
    let never = no_pairs st o.id i fresh in absurd (ground arith)
Inserted-Fresh o none [] is st fresh small look slots r b' made =
    let room = st.room in
    let size = st.size in
    let none_free = ap (λ (l : List ℕ). length l) slots in absurd (omega arith)
Inserted-Fresh o none (i ∷ rest) is st fresh small look slots r b' (fine, is') =
    (i, rest, slots, fine, is')

insert_all-Stands :
    (os : List Order) {cap hi : ℕ} {v : View} (rs : List Resting) (b : OrderBook)
    → IsBook b v
    → Stands cap hi v rs
    → All IsGood os
    → UniqIds (rs ++ number hi os)
    → length rs + length os ≤ cap
    → Returns
        (λ r.
          (b' : OrderBook) × (v' : View) × (r ≡ ok b')
          × IsBook b' v'
          × Stands cap (hi + length os) v' (rs ++ number hi os))
        (insert_all b os)
unfolding insert_all
insert_all-Stands [] {cap} {hi} {v} rs b is st good uniq small = returns (
  b,
  v,
  refl,
  is,
  subst (Stands cap (hi + 0) v) (sym (append-nil rs))
      (subst (λ n. Stands cap n v rs) {x = hi} {y = hi + 0} (omega arith) st),
)
insert_all-Stands (o ∷ os) {cap} {hi} {v} rs b is st good uniq small =
    let r : Resting = record { order = o; seq = hi } in
    let fresh = Fresh-before rs r (number (hi + 1) os) uniq in
    let joined = append_assoc rs (r ∷ []) (number (hi + 1) os) in
    bind (insert_order-Inserted o is good.0.0 good.0.1) λ (r', b') made.
      let (i, free, slots, fine, is') =
        Inserted-Fresh o (HashMap.lookup o.id b.order_index) v.free is st fresh (omega arith) refl
          refl r' b' made in
      rw fine (
        mono
          (insert_all-Stands os (rs ++ r ∷ []) b' is'
            (Stands-push rs o st slots fresh (IsBook-IsTidy is')) good.1
            (subst UniqIds (sym joined) uniq) (omega (arith, length-append rs (r ∷ []))))
          λ out (b'', v'', same, is'', st''). (
            b'',
            v'',
            same,
            is'',
            subst (Stands cap (hi + suc (length os)) v'') joined (
                subst (λ n. Stands cap n v'' ((rs ++ r ∷ []) ++ number (hi + 1) os))
                  {x = hi + 1 + length os} {y = hi + suc (length os)} (omega arith) st''),
          ))

IsGood-orders_of : (s : Side) (p : ℤ) (cs : Cells) → GoodCells s p cs → All IsGood (orders_of cs)
IsGood-orders_of s p [] good = tt
IsGood-orders_of s p ((i, o) ∷ cs) good =
    ((good.0.positive, good.0.word), IsGood-orders_of s p cs good.1)

All-join : {A : Type 0} (P : A → Type 0) (xs ys : List A) → All P xs → All P ys → All P (xs ++ ys)
All-join P [] ys h k = k
All-join P (x ∷ xs) ys h k = (h.0, All-join P xs ys h.1 k)

IsGood-reverse_aux :
    (s : Side) (qs acc : Queues)
    → GoodQueues s qs
    → All IsGood (orders_in acc)
    → All IsGood (orders_in (reverse_aux qs acc))
IsGood-reverse_aux s [] acc good h = h
IsGood-reverse_aux s ((p, cs) ∷ qs) acc good h =
    IsGood-reverse_aux s qs ((p, cs) ∷ acc) good.2
      (All-join IsGood (orders_of cs) (orders_in acc) (IsGood-orders_of s p cs good.1) h)

IsGood-orders_in : (s : Side) (qs : Queues) → GoodQueues s qs → All IsGood (orders_in qs)
IsGood-orders_in s [] good = tt
IsGood-orders_in s ((p, cs) ∷ qs) good =
    All-join IsGood (orders_of cs) (orders_in qs) (IsGood-orders_of s p cs good.1)
      (IsGood-orders_in s qs good.2)

-- An engine and another one of `cap'` slots that hold the same orders as one reference book.
pub record SameBooks (engine : MatchingEngine) (cap' : ℕ) (engine' : MatchingEngine) : Type 0 where
  pub book : ReferenceBook
  pub old : Simulates engine.book.arena.capacity engine book
  pub new : Simulates cap' engine' book

-- On a book that meets the invariant, `restore_from_orders` of the orders that `all_resting_orders`
-- lists, into an arena of any `u32` capacity that has room for them, succeeds without a panic. The
-- new engine holds the same orders, of the same priority: both go with one reference book.
pub restore_from_orders-SameBooks :
    (engine : MatchingEngine) {v : View} (cap' : ℕ)
    → IsBook engine.book v
    → cap' ≤ arena_null
    → order_count engine.book ≤ cap'
    → Returns
        (λ os.
          Returns
            (λ r. (engine' : MatchingEngine) × (r ≡ ok engine') × SameBooks engine cap' engine')
            (restore_from_orders os cap'))
        (all_resting_orders engine.book)
unfolding restore_from_orders Matching.with_capacity
restore_from_orders-SameBooks engine {v} cap' is small room =
    let os : List Order = listed v in
    let st = Stands-number is in
    let start = start-Simulates cap' small in
    let total = is.orders in
    let good : All IsGood os =
      All-join IsGood (orders_in v.asks) (orders_in (reverse v.bids))
        (IsGood-orders_in ask v.asks (is.good ask))
        (IsGood-reverse_aux bid v.bids [] (is.good bid) tt) in
    rw (all_resting_orders-queues engine.book v is) (
      returns (
        bind
          (insert_all-Stands os [] (Book.with_capacity cap') start.is start.stand good st.ids
            (omega (arith, length-listed v)))
          λ r (b', v', same, is', st'). rw same (
            returns (
              record { book = b'; fills_buf = [] },
              refl,
              record {
                book = record { resting = number 0 os; next_seq = length os };
                old = record { view = v; is = is; stand = st };
                new = record {
                  view = v';
                  is = is';
                  stand =
                      subst (λ n. Stands cap' n v' (number 0 os)) {x = 0 + length os}
                        {y = length os} (omega arith) st';
                };
              },
            ))))
