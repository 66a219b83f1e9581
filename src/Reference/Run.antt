-- ===== src/Reference/Run.antt =====
-- The differential test passes.
use ferrox.Prelude.{
  ap, get_elem?_of_lt, All, bind, returns, Returns, arith, length, ok, refl, ℕ, ◌+◌, ◌<◌, ◌≡◌, ◌≤◌,
  List, [], ◌∷◌,
}
use ferrox.Order.{bid, ask}
use ferrox.Arena
use ferrox.Arena.{Arena, arena_null}
use ferrox.Book
use ferrox.Book.{order_count, all_resting_orders}
use ferrox.Book.New.{empty, with_capacity-IsBook}
use ferrox.Matching
use ferrox.Matching.{
  Fill, OrderStatus, fully_filled, partially_filled, resting, cancelled_self_trade, add_order,
}
use ferrox.Reference.Views.{at, IsBook-IsTidy}
use ferrox.Reference.Agrees.{Agrees}
use ferrox.Reference.Add.{Simulates}
use ferrox.Reference.Differential.{Op, Test, arena_capacity, run_op, run_ops, run_differential}
use ferrox.Reference.Step.{IsStep, Passes, run_cancel-Passes, run_add-Passes}

-- The start: an engine and a reference book without orders.
pub start-Simulates :
    (cap : ℕ)
    → cap ≤ arena_null
    → Simulates cap (Matching.with_capacity cap) (record { resting = []; next_seq = 0 })
unfolding Matching.with_capacity Book.with_capacity Arena.new
start-Simulates cap small =
    let is = with_capacity-IsBook cap small in
    let counted = is.pool.counted in
    record {
      view = empty cap;
      is = is;
      stand = record {
        tidy = IsBook-IsTidy is;
        agrees = no_orders;
        order = omega arith;
        ids = tt;
        size = refl;
        room = omega arith;
      };
    }
  where
    no_orders : Agrees [] (empty cap)
    no_orders bid p = refl
    no_orders ask p = refl

-- The quantities of the orders are positive `u64`s.
abbrev pub IsOp : {Index : Type 0} → Op Index → Type 0
IsOp (Op.add side price qty trader) = (0 < qty) × (qty < 18_446_744_073_709_551_616)
IsOp (Op.cancel idx) = Unit

module _ {Index : Type 0} (index : Index → (len : ℕ) → ℕ)
    (picks : (idx : Index) (len : ℕ) → 0 < len → index idx len < len) where
  run_op-Passes :
      (step : ℕ) (op : Op Index) (t : Test)
      → IsStep step t
      → IsOp op
      → step < arena_capacity
      → Passes step (run_op index step op t)
  unfolding run_op
  run_op-Passes step (Op.add side price qty trader) t is (more, word) small =
      run_add-Passes step side price qty trader t is more word small
  run_op-Passes step (Op.cancel idx) t is good small = go t.issued_ids refl
    where
      later : IsStep (step + 1) t
      later =
          let orders = is.orders in
          let seqs = is.seqs in
          record {
            sim = is.sim;
            orders = omega arith;
            seqs = omega arith;
            ids = λ id above. is.ids id (omega arith);
          }

      go :
          (issued : List ℕ)
          → t.issued_ids ≡ issued
          → Passes step (run_op index step (Op.cancel idx) t)
      go [] e = rw (e, run_op) (returns (t, refl, later))
      go (i ∷ issued) e =
          let some_issued = ap (λ (is : List ℕ). length is) e in
          let (id, at) =
            get_elem?_of_lt t.issued_ids (index idx (length t.issued_ids))
              (picks idx (length t.issued_ids) (omega arith)) in
          rw (e, run_op, at) (run_cancel-Passes step id t is)

  run_ops-Passes :
      (step : ℕ) (ops : List (Op Index)) (t : Test)
      → IsStep step t
      → All IsOp ops
      → step + length ops ≤ arena_capacity
      → Returns (λ r. (t' : Test) × (r ≡ ok t')) (run_ops index step ops t)
  unfolding run_ops
  run_ops-Passes step [] t is good small = returns (t, refl)
  run_ops-Passes step (op ∷ ops) t is good small =
      bind (run_op-Passes step op t is good.0 (omega arith))
        λ r (t', passed, is'). rw passed (run_ops-Passes (step + 1) ops t' is' good.1 (omega arith))

  -- The differential test passes: a sequence of at most as many operations as the arena has slots, with
  -- positive `u64` quantities, runs on an empty engine and an empty reference book without a panic, and
  -- no comparison fails, neither of the statuses, fills and cancelled orders that they return nor of the
  -- best prices, the number of orders and the orders that they show after each operation. It is
  -- relied on that an `Index` picks an element of a collection that is not empty.
  pub run_differential-passes :
      (ops : List (Op Index))
      → All IsOp ops
      → length ops ≤ arena_capacity
      → Returns
          (λ r. (transcript : List (OrderStatus × List Fill)) × (r ≡ ok transcript))
          (run_differential index ops)
  unfolding run_differential
  run_differential-passes ops good small =
      bind
        (run_ops-Passes 0 ops start
          (record {
            sim = start-Simulates arena_capacity (omega arith);
            orders = omega arith;
            seqs = omega arith;
            ids = λ id later. tt;
          })
          good (omega arith))
        λ r (t, passed). rw passed (returns (t.transcript, refl))
    where
      start : Test
      start = record {
        engine = Matching.with_capacity arena_capacity;
        reference = record { resting = []; next_seq = 0 };
        issued_ids = [];
        transcript = [];
      }
