-- ===== src/Reference/Differential.antt =====
-- tests/book_model.rs: `run_differential`, which runs a sequence of operations on an engine and on
-- the reference book and compares what they return and show. A panic is `none`. How proptest's
-- `Index` picks an element of a collection of some length is a parameter.
use ferrox.Prelude.{
  Bool, Option, Result, eqb_ℤ, err, false, get_elem?, if◌then◌else◌, length, none, not, ok, some,
  true, ℕ, ℤ, ◌&&◌, ◌++◌, ◌+◌, ◌==◌, ◌>>=◌, List, [], ◌∷◌,
}
use ferrox.Order
use ferrox.Order.{Order, Side, bid, ask}
use ferrox.Book.{order_count, all_resting_orders}
use ferrox.Matching
use ferrox.Matching.{
  Fill, OrderStatus, fully_filled, partially_filled, resting, cancelled_self_trade, AddOrderResult,
  MatchingEngine, MatchingError, add_order,
}
use ferrox.Reference.{
  orders, ReferenceBook, same_side, ref_add, ref_cancel, ref_best_bid, ref_best_ask, canonical,
}

pub data Op (Index : Type 0) : Type 0 where
  add : Side → (price : ℤ) → (qty trader : ℕ) → Op Index
  cancel : Index → Op Index

abbrev pub arena_capacity : ℕ
arena_capacity = 1_024

-- `PartialEq` of what is compared.
abbrev pub status_eq : OrderStatus → OrderStatus → Bool
status_eq fully_filled fully_filled = true
status_eq partially_filled partially_filled = true
status_eq resting resting = true
status_eq cancelled_self_trade cancelled_self_trade = true
status_eq _ _ = false

abbrev pub bool_eq : Bool → Bool → Bool
bool_eq true b = b
bool_eq false b = not b

abbrev pub fill_eq : Fill → Fill → Bool
fill_eq f g =
    f.taker_order_id == g.taker_order_id
    && (f.maker_order_id == g.maker_order_id
        && (eqb_ℤ f.price g.price
            && (f.quantity == g.quantity && bool_eq f.maker_fully_filled g.maker_fully_filled)))

abbrev pub order_eq : Order → Order → Bool
order_eq o p =
    o.id == p.id
    && (o.trader_id == p.trader_id
        && (same_side o.side p.side
            && (eqb_ℤ o.price p.price && (o.quantity == p.quantity && o.timestamp == p.timestamp))))

abbrev pub list_eq : {A : Type 0} → (A → A → Bool) → List A → List A → Bool
list_eq eq [] [] = true
list_eq eq [] (y ∷ ys) = false
list_eq eq (x ∷ xs) [] = false
list_eq eq (x ∷ xs) (y ∷ ys) = eq x y && list_eq eq xs ys

abbrev pub option_eq : {A : Type 0} → (A → A → Bool) → Option A → Option A → Bool
option_eq eq none none = true
option_eq eq none (some y) = false
option_eq eq (some x) none = false
option_eq eq (some x) (some y) = eq x y

-- `Result::ok`
abbrev pub ok_of : {E A : Type 0} → Result E A → Option A
ok_of (ok a) = some a
ok_of (err e) = none

-- An order that the engine rejects, or what differs, with the step.
pub data TestCaseError : Type 0 where
  rejected : (step : ℕ) → MatchingError → TestCaseError
  status_differs fills_differ cancel_differs best_bid_differs best_ask_differs order_count_differs
        contents_differ :
      (step : ℕ) → TestCaseError

-- The variables of `run_differential`.
pub record Test : Type 0 where
  pub engine : MatchingEngine
  pub reference : ReferenceBook
  pub issued_ids : List ℕ
  pub transcript : List (OrderStatus × List Fill)

-- `prop_assert_eq`
abbrev pub check :
    {A : Type 0} → Bool → TestCaseError → Result TestCaseError A → Result TestCaseError A
check b e next = if b then next else err e

-- What follows unless a comparison failed.
abbrev pub unless_failed :
    {A B : Type 0}
    → Result TestCaseError A
    → (A → Option (Result TestCaseError B))
    → Option (Result TestCaseError B)
unless_failed (err e) f = some (err e)
unless_failed (ok a) f = f a

-- The comparisons at the end of a step.
unfoldable pub observe : (step : ℕ) → Test → Option (Result TestCaseError Test)
observe step t =
    unless_failed
      (check (option_eq eqb_ℤ t.engine.book.best_bid (ref_best_bid t.reference))
        (best_bid_differs step)
        (check (option_eq eqb_ℤ t.engine.book.best_ask (ref_best_ask t.reference))
          (best_ask_differs step)
          (check (order_count t.engine.book == length t.reference.resting)
            (order_count_differs step) (ok t))))
      λ t. do
        orders ← all_resting_orders t.engine.book
        some (check (list_eq order_eq orders (canonical t.reference)) (contents_differ step) (ok t))

unfoldable pub run_add :
    (step : ℕ) → Side → ℤ → (qty trader : ℕ) → Test → Option (Result TestCaseError Test)
run_add step side price qty trader t = do
  order ← Order.new (step + 1) trader side price qty (step + 1)
  ((ref_status, ref_fills), reference) ← ref_add t.reference order
  (r, engine) ← add_order t.engine order
  unless_failed
      (elim r [
        | err e ↦ err (rejected step e)
        | ok result ↦ check (status_eq result.status ref_status) (status_differs step) (
            check (list_eq fill_eq result.fills ref_fills) (fills_differ step) (
              ok (record {
                engine = engine;
                reference = reference;
                issued_ids = t.issued_ids ++ (step + 1) ∷ [];
                transcript = t.transcript ++ (result.status, result.fills) ∷ [];
              })))
      ])
      (observe step)

unfoldable pub run_cancel : (step id : ℕ) → Test → Option (Result TestCaseError Test)
run_cancel step id t = do
  (ref_result, reference) ← ref_cancel t.reference id
  (r, engine) ← Matching.cancel t.engine id
  unless_failed
      (check (option_eq order_eq (ok_of r) ref_result) (cancel_differs step)
        (ok (record t { engine = engine; reference = reference })))
      (observe step)

module _ {Index : Type 0} (index : Index → (len : ℕ) → ℕ) where
  unfoldable pub run_op : (step : ℕ) → Op Index → Test → Option (Result TestCaseError Test)
  run_op step (add side price qty trader) t = run_add step side price qty trader t
  run_op step (cancel idx) t = elim t.issued_ids [
    | [] ↦ some (ok t)
    | ◌∷◌ i is ↦ do
      id ← get_elem? t.issued_ids (index idx (length t.issued_ids))
      run_cancel step id t
  ]

  -- The loop, from a step on.
  unfoldable pub run_ops : (step : ℕ) → List (Op Index) → Test → Option (Result TestCaseError Test)
  run_ops step [] t = some (ok t)
  run_ops step (op ∷ ops) t = do r ← run_op step op t; unless_failed r (run_ops (step + 1) ops)

  unfoldable pub run_differential :
      List (Op Index) → Option (Result TestCaseError (List (OrderStatus × List Fill)))
  run_differential ops = do
    r ← run_ops 0 ops (record {
      engine = Matching.with_capacity arena_capacity;
      reference = record { resting = []; next_seq = 0 };
      issued_ids = [];
      transcript = [];
    })
    unless_failed r (λ t. some (ok t.transcript))
