-- ===== src/Reference.antt =====
-- tests/book_model.rs: the naive reference book, a flat list of resting orders that is scanned for
-- the best maker at every step, and the operations of the differential test. A panic is `none`, and
-- so is a loop that outlives its fuel.
pub mod Add
pub mod Agrees
pub mod Best
pub mod Bounded
pub mod Cancel
pub mod Position
pub mod Canonical
pub mod Differential
pub mod Equal
pub mod Every
pub mod Kept
pub mod Maker
pub mod Number
pub mod Observed
pub mod Prices
pub mod Queued
pub mod Ranked
pub mod Restore
pub mod Room
pub mod Run
pub mod Step
pub mod Sweep
pub mod MakerFill
mod Tests
pub mod Views
use ferrox.Prelude.{
  Bool, Option, eqb_ℤ, false, filter, get_elem?, if◌then◌else◌, leb, leb_ℤ, length, ltb, ltb_ℤ,
  max_ℤ, min, min_ℤ, none, not, set, some, suc, true, zero, ℕ, ℤ, ◌&&◌, ◌++◌, ◌+◌, ◌-◌, ◌==◌, ◌>>=◌,
  ◌||◌, List, [], ◌∷◌,
}
use ferrox.Order.{Order, Side, bid, ask}
use ferrox.Matching.{
  Fill, OrderStatus, cancelled_self_trade, fully_filled, partially_filled, resting,
}

pub record Resting : Type 0 where
  pub order : Order
  pub seq : ℕ

pub record ReferenceBook : Type 0 where
  pub resting : List Resting
  pub next_seq : ℕ

abbrev pub same_side : Side → Side → Bool
same_side bid bid = true
same_side bid ask = false
same_side ask bid = false
same_side ask ask = true

abbrev pub better_price : Side → ℤ → ℤ → Bool
better_price ask p cur = ltb_ℤ p cur
better_price bid p cur = ltb_ℤ cur p

-- Whether an order takes the place of the best one so far.
abbrev pub better : Side → Resting → Resting → Bool
better s r cur =
    better_price s r.order.price cur.order.price
    || (eqb_ℤ r.order.price cur.order.price && ltb r.seq cur.seq)

abbrev pub pick : Side → ℕ → Resting → Option (ℕ × Resting) → Option (ℕ × Resting)
pick s i r none = some (i, r)
pick s i r (some (b, cur)) = if better s r cur then some (i, r) else some (b, cur)

-- The loop of `best_index` from the index `i` on, with the best index so far and the order there.
abbrev pub best_from : Side → ℕ → List Resting → Option (ℕ × Resting) → Option (ℕ × Resting)
best_from s i [] best = best
best_from s i (r ∷ rs) best =
    best_from s (suc i) rs (if same_side r.order.side s then pick s i r best else best)

abbrev pub index_of : Option (ℕ × Resting) → Option ℕ
index_of none = none
index_of (some (i, r)) = some i

unfoldable pub best_index : Side → List Resting → Option ℕ
best_index s rs = index_of (best_from s 0 rs none)

abbrev pub maker_side : Side → Side
maker_side bid = ask
maker_side ask = bid

abbrev pub price_crosses : Side → (maker_price taker_price : ℤ) → Bool
price_crosses bid p price = leb_ℤ p price
price_crosses ask p price = leb_ℤ price p

-- `Vec::remove`
abbrev pub remove_at : ℕ → List Resting → List Resting
remove_at i [] = []
remove_at zero (r ∷ rs) = rs
remove_at (suc i) (r ∷ rs) = r ∷ remove_at i rs

-- The variables of the loop of `add`.
pub record Matched : Type 0 where
  pub resting : List Resting
  pub fills : List Fill
  pub quantity : ℕ
  pub self_trade : Bool

-- The loop's body with the fill of a maker at an index.
abbrev pub fill_maker : Order → ℕ → Resting → Matched → Matched
fill_maker taker i maker s =
    let qty : ℕ = min s.quantity maker.order.quantity in
    let left : Resting = record maker {
      order = record (maker.order) { quantity = maker.order.quantity - qty };
    } in
    record s {
      resting =
          if maker.order.quantity - qty == 0 then remove_at i s.resting else set s.resting i left;
      fills =
          s.fills
          ++ record {
            taker_order_id = taker.id;
            maker_order_id = maker.order.id;
            price = maker.order.price;
            quantity = qty;
            maker_fully_filled = maker.order.quantity == qty;
          }
            ∷ [];
      quantity = s.quantity - qty;
    }

-- What the loop does with a maker: it goes on after a fill.
abbrev pub meet_maker : (Matched → Option Matched) → Order → ℕ → Resting → Matched → Option Matched
meet_maker again taker i maker s =
    if not (price_crosses taker.side maker.order.price taker.price)
    then some s
    else (if maker.order.trader_id == taker.trader_id
        then some (record s { self_trade = true })
        else again (fill_maker taker i maker s))

unfoldable pub match_all : (fuel : ℕ) → Order → Matched → Option Matched
match_all zero taker s = none
match_all (suc fuel) taker s =
    let again : Matched → Option Matched = λ s'. match_all fuel taker s' in
    if ltb 0 s.quantity
    then elim (best_index (maker_side taker.side) s.resting) [
      | none ↦ some s
      | some i ↦ do maker ← get_elem? s.resting i; meet_maker again taker i maker s
    ]
    else some s

abbrev pub status_of : List Fill → OrderStatus
status_of [] = resting
status_of (_ ∷ _) = partially_filled

-- The code behind the loop: the status, and the rest of the order rests. The next sequence number is
-- a `u64`; one too many panics.
unfoldable pub conclude_add :
    Order → ReferenceBook → Matched → Option ((OrderStatus × List Fill) × ReferenceBook)
conclude_add taker book s =
    if s.self_trade
    then some ((cancelled_self_trade, s.fills), record book { resting = s.resting })
    else (if s.quantity == 0
        then some ((fully_filled, s.fills), record book { resting = s.resting })
        else (if ltb (book.next_seq + 1) 18_446_744_073_709_551_616
            then some (
              (status_of s.fills, s.fills),
              record {
                resting =
                    s.resting
                    ++ record {
                      order = record taker { quantity = s.quantity };
                      seq = book.next_seq;
                    }
                      ∷ [];
                next_seq = book.next_seq + 1;
              },
            )
            else none))

-- A turn of the loop but the last two removes a resting order.
unfoldable pub ref_add : ReferenceBook → Order → Option ((OrderStatus × List Fill) × ReferenceBook)
ref_add book taker = do
  s ←
      match_all (suc (length book.resting)) taker (record {
        resting = book.resting;
        fills = [];
        quantity = taker.quantity;
        self_trade = false;
      })
  conclude_add taker book s

-- `position(|r| r.order.id == id)`
abbrev pub position : ℕ → List Resting → Option ℕ
position id [] = none
position id (r ∷ rs) =
    if r.order.id == id
    then some 0
    else elim (position id rs) [ none ↦ none | some i ↦ some (suc i) ]

unfoldable pub ref_cancel : ReferenceBook → (id : ℕ) → Option (Option Order × ReferenceBook)
ref_cancel book id = elim (position id book.resting) [
  | none ↦ some (none, book)
  | some i ↦ do
    r ← get_elem? book.resting i
    some (some r.order, record book { resting = remove_at i book.resting })
]

abbrev pub on_side : Side → Resting → Bool
on_side s r = same_side r.order.side s

-- `max` and `min` of the prices of the orders of a side.
abbrev pub highest : List Resting → Option ℤ
highest [] = none
highest (r ∷ rs) =
    some (elim (highest rs) [ none ↦ r.order.price | some p ↦ max_ℤ r.order.price p ])

abbrev pub lowest : List Resting → Option ℤ
lowest [] = none
lowest (r ∷ rs) = some (elim (lowest rs) [ none ↦ r.order.price | some p ↦ min_ℤ r.order.price p ])

abbrev pub ref_best_bid : ReferenceBook → Option ℤ
ref_best_bid book = highest (filter (on_side bid) book.resting)

abbrev pub ref_best_ask : ReferenceBook → Option ℤ
ref_best_ask book = lowest (filter (on_side ask) book.resting)

-- `sort_by_key`, which is stable: an order goes in front of the first one with a greater key.
abbrev pub insert_by : (Resting → Resting → Bool) → Resting → List Resting → List Resting
insert_by le r [] = r ∷ []
insert_by le r (q ∷ rs) = if le r q then r ∷ q ∷ rs else q ∷ insert_by le r rs

abbrev pub sort_by : (Resting → Resting → Bool) → List Resting → List Resting
sort_by le [] = []
sort_by le (r ∷ rs) = insert_by le r (sort_by le rs)

-- The keys `(price, seq)` and `(Reverse(price), seq)`.
abbrev pub key_le : Side → Resting → Resting → Bool
key_le s r q =
    better_price s r.order.price q.order.price
    || (eqb_ℤ r.order.price q.order.price && leb r.seq q.seq)

abbrev pub orders : List Resting → List Order
orders [] = []
orders (r ∷ rs) = r.order ∷ orders rs

abbrev pub canonical : ReferenceBook → List Order
canonical book =
    orders (sort_by (key_le ask) (filter (on_side ask) book.resting))
    ++ orders (sort_by (key_le bid) (filter (on_side bid) book.resting))
