-- ===== src/Reference/Tests.antt =====
-- Runs of the reference book, and the theorems at small books.
use native.Mathlib.Nat.{mod-lt}
use ferrox.Prelude.{
  Bool, Bool-cases, Option, Returns, arith, eqb_ℤ, false, inl, inr, map, ok, pos, refl, some, true,
  ℕ, ℤ, ◌%◌, ◌>>=◌, ◌≡◌, List, [], ◌∷◌,
}
use ferrox.Order.{Order, Side, bid, ask}
use ferrox.Book.Tests.{two, two-IsBook, view_two, first_ask, second_ask}
use ferrox.Matching
use ferrox.Matching.{
  Fill, MatchingEngine, OrderStatus, add_order, resting, fully_filled, cancelled_self_trade,
}
use ferrox.Reference.{
  ReferenceBook, ref_add, ref_cancel, match_all, conclude_add, best_index, ref_best_ask, canonical,
}
use ferrox.Reference.Views.{IsBook-IsTidy}
use ferrox.Reference.Agrees.{Agrees}
use ferrox.Reference.Add.{Simulates, SameAdd, add_order-ref_add}
use ferrox.Reference.Cancel.{SameCancel, cancel-ref_cancel}
use ferrox.Reference.Observed.{LooksLike, Simulates-LooksLike}
use ferrox.Reference.Differential.{Op, run_differential}
use ferrox.Reference.Run.{run_differential-passes}

abbrev order : ℕ → ℕ → Side → ℕ → ℕ → Order
order i t s p q = record {
  id = i;
  trader_id = t;
  side = s;
  price = pos p;
  quantity = q;
  timestamp = i;
}

-- `reference_model_sanity`
abbrev summary : (OrderStatus × List Fill) → OrderStatus × List (ℕ × ℤ × ℕ × Bool)
summary (s, fills) =
    (s, map (λ (f : Fill). (f.maker_order_id, f.price, f.quantity, f.maker_fully_filled)) fills)

run :
    List Order
    → ReferenceBook
    → Option (List (OrderStatus × List (ℕ × ℤ × ℕ × Bool)) × ReferenceBook)
run [] b = some ([], b)
run (o ∷ os) b = do (r, b) ← ref_add b o; (rest, b) ← run os b; some (summary r ∷ rest, b)

sanity : Option (List (OrderStatus × List (ℕ × ℤ × ℕ × Bool)) × Option ℤ × List Order)
unfolding run ref_add match_all conclude_add best_index
sanity = do
  (out, b) ←
      run
        (order 1 1 ask 100 5
          ∷ order 2 1 ask 101 10
          ∷ order 3 2 bid 101 12
          ∷ order 4 1 bid 105 1
          ∷ [])
        (record { resting = []; next_seq = 0 })
  some (out, ref_best_ask b, canonical b)

sanity_lem :
    sanity
    ≡ some (
      (resting, [])
          ∷ (resting, [])
          ∷ (fully_filled, (1, pos 100, 5, true) ∷ (2, pos 101, 7, false) ∷ [])
          ∷ (cancelled_self_trade, [])
          ∷ [],
      some (pos 101),
      order 2 1 ask 101 3 ∷ [],
    )
unfolding sanity
sanity_lem = refl

-- The theorems at an engine with two asks at 100.
abbrev engine : MatchingEngine
engine = record { book = two; fills_buf = [] }

abbrev book : ReferenceBook
book = record {
  resting = record { order = first_ask; seq = 0 } ∷ record { order = second_ask; seq = 1 } ∷ [];
  next_seq = 2;
}

same_orders : Agrees book.resting view_two
same_orders bid p = refl
same_orders ask p = elim (Bool-cases (eqb_ℤ (pos 100) p)) [
  | inl here ↦ rw here refl
  | inr away ↦ rw away refl
]

both : Simulates 4 engine book
both = record {
  view = view_two;
  is = two-IsBook;
  stand = record {
    tidy = IsBook-IsTidy two-IsBook;
    agrees = same_orders;
    order = (omega arith, (omega arith, omega arith));
    ids = ((λ e. absurd (omega arith), tt), (tt, tt));
    size = refl;
    room = refl;
  };
}

add_order-ref_add_example :
    Returns
      (λ (r, e).
        Returns (SameAdd 4 (order 4 9 bid 100 7) book r e) (ref_add book (order 4 9 bid 100 7)))
      (add_order engine (order 4 9 bid 100 7))
add_order-ref_add_example =
    add_order-ref_add engine book (order 4 9 bid 100 7) both (omega arith) (omega arith)
      (λ e. absurd (omega arith), (λ e. absurd (omega arith), tt)) (omega arith) (omega arith)

cancel-ref_cancel_example :
    Returns
      (λ (r, e). Returns (SameCancel 4 book r e) (ref_cancel book 2))
      (Matching.cancel engine 2)
cancel-ref_cancel_example = cancel-ref_cancel engine book 2 both

Simulates-LooksLike_example : LooksLike engine book
Simulates-LooksLike_example = Simulates-LooksLike engine book both

-- An index is taken modulo the length.
abbrev index : ℕ → ℕ → ℕ
index i len = i % len

abbrev ops : List (Op ℕ)
ops =
    Op.add ask (pos 100) 5 1
    ∷ Op.add ask (pos 101) 10 1
    ∷ Op.add bid (pos 101) 12 2
    ∷ Op.cancel 4
    ∷ Op.add bid (pos 105) 1 1
    ∷ []

run_differential-passes_example :
    Returns
      (λ r. (transcript : List (OrderStatus × List Fill)) × (r ≡ ok transcript))
      (run_differential index ops)
run_differential-passes_example =
    run_differential-passes index (λ i len more. mod-lt i more) ops
      (
        (omega arith, omega arith),
        (
          (omega arith, omega arith),
          ((omega arith, omega arith), (tt, ((omega arith, omega arith), tt))),
        ),
      )
      (omega arith)
