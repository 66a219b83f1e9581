-- ===== src/Order.antt =====
-- src/order.rs: sides and orders.
use ferrox.Prelude.{ℕ, ◌==◌, if◌then◌else◌, Option, none, some, ℤ}

pub data Side : Type 0 where
  bid ask : Side

-- A price is an `i64`, every other number a `u64`.
pub record Order : Type 0 where
  pub id : ℕ
  pub trader_id : ℕ
  pub side : Side
  pub price : ℤ
  pub quantity : ℕ
  pub timestamp : ℕ

-- `Order::new`
unfoldable pub new : (id trader_id : ℕ) → Side → ℤ → (quantity timestamp : ℕ) → Option Order
new id trader_id side price quantity timestamp =
    if quantity == 0
    then none
    else some (record {
      id = id;
      trader_id = trader_id;
      side = side;
      price = price;
      quantity = quantity;
      timestamp = timestamp;
    })
