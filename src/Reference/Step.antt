-- ===== src/Reference/Step.antt =====
-- A step of the differential test passes.
use ferrox.Prelude.{
  returns, value, ◌++◌, Option, Result, Returns, arith, eqb_ℤ, eqb_ℤ_refl, false, length, ok, refl,
  some, true, ℕ, ℤ, ◌+◌, ◌<◌, ◌==◌, ◌≡◌, ◌≤◌, [], ◌∷◌,
}
use ferrox.Order
use ferrox.Order.{Order, Side, bid, ask}
use ferrox.Book.{order_count}
use ferrox.Reference.{canonical}
use ferrox.Reference.Equal.{
  eq_of_same, option_eq_refl, list_eq_refl, status_eq_refl, fill_eq_refl, order_eq_refl, eqb_refl,
}
use ferrox.Reference.Kept.{Fresh}
use ferrox.Reference.Add.{Simulates, add_order-ref_add}
use ferrox.Reference.Cancel.{cancel-ref_cancel}
use ferrox.Reference.Observed.{Simulates-LooksLike}
use ferrox.Reference.Differential.{
  Test, TestCaseError, arena_capacity, fill_eq, order_eq, option_eq, observe, run_add, run_cancel,
}

-- Before a step, both books hold the same orders, no more than there were steps and of earlier ids.
pub record IsStep (step : ℕ) (t : Test) : Type 0 where
  pub sim : Simulates arena_capacity t.engine t.reference
  pub orders : length t.reference.resting ≤ step
  pub seqs : t.reference.next_seq ≤ step
  pub ids : (id : ℕ) → step < id → Fresh id t.reference.resting

pub observe-Simulates :
    {cap : ℕ} (step : ℕ) (t : Test)
    → Simulates cap t.engine t.reference
    → observe step t ≡ some (ok t)
unfolding observe
observe-Simulates step t sim =
    let looks = Simulates-LooksLike t.engine t.reference sim in
    let bid_same =
      eq_of_same (option_eq eqb_ℤ) (option_eq_refl eqb_ℤ eqb_ℤ_refl) looks.best_bid_is in
    let ask_same =
      eq_of_same (option_eq eqb_ℤ) (option_eq_refl eqb_ℤ eqb_ℤ_refl) looks.best_ask_is in
    let count_same : (order_count t.engine.book == length t.reference.resting) ≡ true =
      eq_of_same (λ m n. m == n) eqb_refl looks.order_count_is in
    rw (bid_same, ask_same, count_same, looks.resting_are)
      (rw (list_eq_refl order_eq order_eq_refl (canonical t.reference)) refl)

-- A step that passes.
abbrev pub Passes : (step : ℕ) → Option (Result TestCaseError Test) → Type 0
Passes step = Returns (λ r. (t' : Test) × (r ≡ ok t') × IsStep (step + 1) t')

pub run_cancel-Passes :
    (step id : ℕ) (t : Test) → IsStep step t → Passes step (run_cancel step id t)
unfolding run_cancel
run_cancel-Passes step id t is =
    let ((r, engine), run, inner) = value (cancel-ref_cancel t.engine t.reference id is.sim) in
    let ((result, reference), run', same) = value inner in
    let t' : Test = record t { engine = engine; reference = reference } in
    let equal =
      eq_of_same (option_eq order_eq) (option_eq_refl order_eq order_eq_refl) same.result_is in
    let fewer = same.fewer in
    let seq = same.same_seq in
    let orders = is.orders in
    let seqs = is.seqs in
    rw (run', run, equal, observe-Simulates step t' same.simulates)
      (returns (
        t',
        refl,
        record {
          sim = same.simulates;
          orders = omega arith;
          seqs = omega arith;
          ids = λ id' later. same.fresh id' (is.ids id' (omega arith));
        },
      ))

pub run_add-Passes :
    (step : ℕ) (side : Side) (price : ℤ) (qty trader : ℕ) (t : Test)
    → IsStep step t
    → 0 < qty
    → qty < 18_446_744_073_709_551_616
    → step < arena_capacity
    → Passes step (run_add step side price qty trader t)
unfolding run_add Order.new
run_add-Passes step side price qty trader t is more word small =
    let order : Order = record {
      id = step + 1;
      trader_id = trader;
      side = side;
      price = price;
      quantity = qty;
      timestamp = step + 1;
    } in
    let orders = is.orders in
    let seqs = is.seqs in
    let ((r, engine), run, inner) = value (
      add_order-ref_add t.engine t.reference order is.sim more word
        (is.ids (step + 1) (omega arith)) (omega arith) (omega arith)) in
    let (((status, fills), reference), run', same) = value inner in
    let t' : Test = record {
      engine = engine;
      reference = reference;
      issued_ids = t.issued_ids ++ (step + 1) ∷ [];
      transcript = t.transcript ++ (status, fills) ∷ [];
    } in
    let positive : (qty == 0) ≡ false = ground arith in
    let longer = same.longer in
    let later = same.later in
    rw
      (
        positive,
        run',
        run,
        same.result_is,
        status_eq_refl status,
        list_eq_refl fill_eq fill_eq_refl fills,
        observe-Simulates step t' same.simulates,
      )
      (returns (
        t',
        refl,
        record {
          sim = same.simulates;
          orders = omega arith;
          seqs = omega arith;
          ids = λ id above. same.fresh id (λ e. absurd (omega arith)) (is.ids id (omega arith));
        },
      ))
