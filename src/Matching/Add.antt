-- ===== src/Matching/Add.antt =====
-- `MatchingEngine::add_order`, on every branch.
use mathlib.Core.Path.{subst}
use ferrox.Prelude.{
  Bool-cases, ap, inl, inr, mono, none, refl, returns, some, suc, ◌+◌, ◌∙◌, Bool, List, Option,
  Result, Returns, [], arith, bind, err, false, ok, true, ◌<◌, ◌==◌, ◌∷◌, ◌≡◌, ℕ,
}
use ferrox.Order.{Order}
use ferrox.Collections.HashMap
use ferrox.Book.{order_count, BookError, arena_full, duplicate_order_id, OrderBook}
use ferrox.Book.View.{hit, View, IsBook, pairs, total_of}
use ferrox.Book.Insert.{inserted, enqueue}
use ferrox.Book.InsertOrder.{Inserted, insert_order-Inserted}
use ferrox.Matching.{
  MatchingEngine, add_order, rest_order, rest_status, Loop, book_error, cancelled_self_trade,
  fully_filled, Fill, Added, conclude,
}
use ferrox.Matching.Sweep.{Sweep}
use ferrox.Matching.Laws.{traded_quantity, AllFair, traded_quantity-Sweep}
use ferrox.Matching.Rounds.{match_loop-Swept}

-- What is left of the taker.
abbrev pub remainder : Order → ℕ → Order
remainder taker q = record taker { quantity = q }

-- How `add_order` ends after a sweep that made `fills` and left the view `v` and the quantity `q`;
-- the Boolean tells whether the sweep met an order of the same trader.
pub data Ending (taker : Order) (fills : List Fill) (v : View) (q : ℕ) : Bool → Added → Type 0 where
  self_trade :
      {book : OrderBook}
      → IsBook book v
      → Ending taker fills v q true (
        ok (record { order_id = taker.id; status = cancelled_self_trade; fills = fills }),
        record { book = book; fills_buf = fills },
      )
  filled :
      {book : OrderBook}
      → q ≡ 0
      → IsBook book v
      → Ending taker fills v q false (
        ok (record { order_id = taker.id; status = fully_filled; fills = fills }),
        record { book = book; fills_buf = fills },
      )
  rested :
      {book : OrderBook} {i : ℕ} {free : List ℕ}
      → 0 < q
      → v.free ≡ i ∷ free
      → ((j : ℕ) → total_of (pairs taker.id j) v ≡ 0)
      → IsBook book (enqueue (remainder taker q) i free v)
      → Ending taker fills v q false (
        ok (record { order_id = taker.id; status = rest_status fills; fills = fills }),
        record { book = book; fills_buf = fills },
      )
  duplicate :
      {book : OrderBook} (i : ℕ)
      → 0 < q
      → total_of (pairs taker.id i) v ≡ 1
      → IsBook book v
      → Ending taker fills v q false (
        err (book_error (duplicate_order_id taker.id)),
        record { book = book; fills_buf = fills },
      )
  full :
      {book : OrderBook}
      → 0 < q
      → v.free ≡ []
      → ((j : ℕ) → total_of (pairs taker.id j) v ≡ 0)
      → IsBook book v
      → Ending taker fills v q false
          (err (book_error arena_full), record { book = book; fills_buf = fills })

-- No order of an id that the index does not find.
unindexed :
    {b : OrderBook} {v : View} (id : ℕ)
    → IsBook b v
    → HashMap.lookup id b.order_index ≡ none
    → (j : ℕ) → total_of (pairs id j) v ≡ 0
unindexed id is look j = is.index id j ∙ ap (λ o. hit j o) look

rest_order-Ending :
    (taker : Order) (s : Loop) {v : View} (found : Option ℕ) (free : List ℕ)
    → HashMap.lookup taker.id s.book.order_index ≡ found
    → v.free ≡ free
    → IsBook s.book v
    → 0 < s.quantity
    → (out : Result BookError (Unit {0}) × OrderBook)
    → Inserted s.book v (remainder taker s.quantity) found free out
    → Ending taker s.fills v s.quantity false (rest_order taker s out)
rest_order-Ending taker s {v} (some i) free look slots is more (r, b) (failed, same) =
    let once : total_of (pairs taker.id i) v ≡ 1 =
      is.index taker.id i ∙ ap (λ o. hit i o) look ∙ ground arith in
    rw (failed, same) (duplicate i more once is)
rest_order-Ending taker s none [] look slots is more (r, b) (failed, same) =
    rw (failed, same) (full more slots (unindexed taker.id is look) is)
rest_order-Ending taker s none (i ∷ free) look slots is more (r, b) (inserted, is') =
    rw inserted (rested more slots (unindexed taker.id is look) is')

conclude-Ending :
    (taker : Order) (s : Loop) {v : View}
    → IsBook s.book v
    → s.quantity < 18_446_744_073_709_551_616
    → Returns (Ending taker s.fills v s.quantity s.self_trade) (conclude taker s)
unfolding conclude
conclude-Ending taker s {v} is word = elim (Bool-cases s.self_trade) [
  | inl own ↦ rw own (returns (self_trade is))
  | inr other ↦ rw other (elim (Bool-cases (s.quantity == 0)) [
    | inl over ↦ rw over (returns (filled (ground arith) is))
    | inr more ↦ rw more (
        bind (insert_order-Inserted (remainder taker s.quantity) is (ground arith) word) λ out made.
          returns (
            rest_order-Ending taker s (HashMap.lookup taker.id s.book.order_index) v.free refl refl
              is (ground arith) out made))
  ])
]

-- What `add_order` does on a book that stands for `v`: fair fills, which a sweep of the queues makes
-- and which, with what is left, add up to the order, and an ending that fits.
pub record IsAdded (taker : Order) (v : View) (added : Added) : Type 0 where
  pub fills : List Fill
  pub swept_view : View
  pub rest : ℕ
  pub own : Bool
  pub sweep : Sweep taker v taker.quantity fills swept_view rest own
  pub fair : AllFair taker fills
  pub kept : traded_quantity fills + rest ≡ taker.quantity
  pub ending : Ending taker fills swept_view rest own added

-- An order of a positive `u64` quantity, added to an engine whose book meets the invariant, sweeps
-- the makers in the order of price and time: they are traded with as long as they cross, quantity is
-- left and the maker's trader is another one. The fills lie within the limit and add up, with the
-- rest, to the quantity. Then the order is reported as cancelled, filled or resting in the book, or
-- the id as a duplicate, or the arena as full, and the invariant holds again. The loops end within
-- their fuel, and there is no panic.
pub add_order-IsAdded :
    (engine : MatchingEngine) {v : View} (taker : Order)
    → IsBook engine.book v
    → 0 < taker.quantity
    → taker.quantity < 18_446_744_073_709_551_616
    → Returns (IsAdded taker v) (add_order engine taker)
unfolding add_order
add_order-IsAdded engine {v} taker is more word =
    let some_quantity : (taker.quantity == 0) ≡ false = ground arith in
    let start : Loop = record {
      book = engine.book;
      fills = [];
      quantity = taker.quantity;
      self_trade = false;
    } in
    rw some_quantity (
      bind
        (match_loop-Swept (suc (order_count engine.book)) taker start is refl
          (ground (arith, is.orders)))
        λ (r, s) (fills, v', fine, same, fair, sweep, is').
          let kept = traded_quantity-Sweep sweep in
          rw fine (
            mono (conclude-Ending taker s is' (omega arith)) (λ added ends. record {
              fills = fills;
              swept_view = v';
              rest = s.quantity;
              own = s.self_trade;
              sweep = sweep;
              fair = fair;
              kept = kept;
              ending = subst (λ l. Ending taker l v' s.quantity s.self_trade added) same ends;
            })))
