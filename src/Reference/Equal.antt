-- ===== src/Reference/Equal.antt =====
-- The comparisons of the differential test pass what is equal.
use mathlib.Core.Path.{subst}
use ferrox.Prelude.{
  Bool, Option, arith, eqb_ℤ_refl, false, none, refl, some, true, ℕ, ◌==◌, ◌≡◌, List, [], ◌∷◌,
}
use ferrox.Order.{Order}
use ferrox.Matching.{
  Fill, OrderStatus, fully_filled, partially_filled, resting, cancelled_self_trade,
}
use ferrox.Reference.Best.{same_side_refl}
use ferrox.Reference.Differential.{status_eq, bool_eq, fill_eq, order_eq, list_eq, option_eq}

module _ {A : Type 0} (eq : A → A → Bool) (eq_refl : (x : A) → eq x x ≡ true) where
  pub list_eq_refl : (xs : List A) → list_eq eq xs xs ≡ true
  list_eq_refl [] = refl
  list_eq_refl (x ∷ xs) = rw (eq_refl x) (list_eq_refl xs)

  pub option_eq_refl : (x : Option A) → option_eq eq x x ≡ true
  option_eq_refl none = refl
  option_eq_refl (some x) = eq_refl x

  pub eq_of_same : {x y : A} → x ≡ y → eq x y ≡ true
  eq_of_same {x} same = subst (λ z. eq x z ≡ true) same (eq_refl x)

pub status_eq_refl : (s : OrderStatus) → status_eq s s ≡ true
status_eq_refl fully_filled = refl
status_eq_refl partially_filled = refl
status_eq_refl resting = refl
status_eq_refl cancelled_self_trade = refl

pub eqb_refl : (n : ℕ) → (n == n) ≡ true
eqb_refl n = ground arith

bool_eq_refl : (b : Bool) → bool_eq b b ≡ true
bool_eq_refl true = refl
bool_eq_refl false = refl

pub fill_eq_refl : (f : Fill) → fill_eq f f ≡ true
fill_eq_refl f =
    rw
      (
        eqb_refl f.taker_order_id,
        eqb_refl f.maker_order_id,
        eqb_ℤ_refl f.price,
        eqb_refl f.quantity,
      )
      (bool_eq_refl f.maker_fully_filled)

pub order_eq_refl : (o : Order) → order_eq o o ≡ true
order_eq_refl o =
    rw
      (
        eqb_refl o.id,
        eqb_refl o.trader_id,
        same_side_refl o.side,
        eqb_ℤ_refl o.price,
        eqb_refl o.quantity,
      )
      (eqb_refl o.timestamp)
