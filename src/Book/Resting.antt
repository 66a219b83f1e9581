-- ===== src/Book/Resting.antt =====
-- `OrderBook::all_resting_orders`: the orders of the queues, ask by ask and then from the best bid on.
use mathlib.Core.List.{reverse_aux}
use ferrox.Prelude.{
  reverse, arith, false, get_elem?-lt, if◌then◌else◌, length, ltb, refl, some, suc, zero, ℕ, ◌++◌,
  ◌+◌, ◌<◌, ◌==◌, ◌≡◌, ◌≤◌, List, [], ◌∷◌,
}
use ferrox.Order.{Order, bid, ask}
use ferrox.Arena.{Arena, Storage, arena_null}
use ferrox.Arena.Seg.{Cells, uses, Seg, nil, cons}
use ferrox.Book.{Levels, OrderBook, level_orders, levels_orders, all_resting_orders}
use ferrox.Book.Queues.{Queues, IsLevels, sum}
use ferrox.Book.View.{View, IsBook}

abbrev pub orders_of : Cells → List Order
orders_of [] = []
orders_of ((i, o) ∷ cs) = o ∷ orders_of cs

abbrev pub orders_in : Queues → List Order
orders_in [] = []
orders_in ((p, cs) ∷ qs) = orders_of cs ++ orders_in qs

-- The cells of an index below `n`.
abbrev below : ℕ → Cells → ℕ
below zero cs = 0
below (suc n) cs = below n cs + uses n cs

below-cons :
    (n i : ℕ) (o : Order) (cs : Cells)
    → below n ((i, o) ∷ cs) ≡ (if ltb i n then 1 else 0) + below n cs
below-cons zero i o cs = ground arith
below-cons (suc n) i o cs = let rest = below-cons n i o cs in ground arith

below_nil : (n : ℕ) → below n [] ≡ 0
below_nil zero = refl
below_nil (suc n) = omega (arith, below_nil n)

length-below :
    (cap : ℕ) (cs : Cells) → ((a : ℕ) → cap ≤ a → uses a cs ≡ 0) → length cs ≡ below cap cs
length-below cap [] out = omega (arith, below_nil cap)
length-below cap ((i, o) ∷ cs) out =
    let rest = length-below cap cs (λ a h. omega (arith, out a h)) in
    let here = below-cons cap i o cs in let at_i = out i in ground arith

below_le : (n : ℕ) (cs : Cells) → ((a : ℕ) → uses a cs ≤ 1) → below n cs ≤ n
below_le zero cs once = omega arith
below_le (suc n) cs once = omega (arith, below_le n cs once, once n)

-- No more cells than slots.
length-cells_le :
    (cap : ℕ) (cs : Cells) → ((a : ℕ) → uses a cs ≤ (if ltb a cap then 1 else 0)) → length cs ≤ cap
length-cells_le cap cs once =
    let n = length-below cap cs (λ a h. let u = once a in ground arith) in
    let m = below_le cap cs (λ a. let u = once a in ground arith) in omega arith

level_orders-Seg :
    (fuel : ℕ) (arena : Arena) {l p h : ℕ} (cs : Cells)
    → Seg arena.storage l arena_null p h cs
    → length arena.storage ≤ arena_null
    → length cs < fuel
    → level_orders fuel arena h ≡ some (orders_of cs)
unfolding level_orders
level_orders-Seg zero arena cs seg small enough = absurd (omega arith)
level_orders-Seg (suc fuel) arena [] nil small enough = refl
level_orders-Seg (suc fuel) arena ((i, o) ∷ cs) (cons {m} at seg) small enough =
    let rest = level_orders-Seg fuel arena cs seg small (omega arith) in
    let inside = get_elem?-lt arena.storage i at in
    let more : (i == arena_null) ≡ false = ground arith in rw (more, at, rest)

-- Every queue is shorter than the fuel.
abbrev Short : ℕ → Queues → Type 0
Short fuel [] = Unit
Short fuel ((p, cs) ∷ qs) = (length cs < fuel) × Short fuel qs

levels_orders-IsLevels :
    (fuel : ℕ) (arena : Arena) {m : Levels} {qs : Queues}
    → IsLevels arena.storage m qs
    → length arena.storage ≤ arena_null
    → Short fuel qs
    → levels_orders fuel arena m ≡ some (orders_in qs)
unfolding levels_orders
levels_orders-IsLevels fuel arena IsLevels.nil small short = refl
levels_orders-IsLevels fuel arena (IsLevels.cons {cs} is rest) small short =
    let here = level_orders-Seg fuel arena cs is.chain small short.0 in
    let more = levels_orders-IsLevels fuel arena rest small short.1 in rw (here, more)

IsLevels-reverse_aux :
    {st : Storage} {m n : Levels} {qs rs : Queues}
    → IsLevels st m qs
    → IsLevels st n rs
    → IsLevels st (reverse_aux m n) (reverse_aux qs rs)
IsLevels-reverse_aux IsLevels.nil behind = behind
IsLevels-reverse_aux (IsLevels.cons is rest) behind =
    IsLevels-reverse_aux rest (IsLevels.cons is behind)

Short-reverse_aux :
    (fuel : ℕ) (qs rs : Queues) → Short fuel qs → Short fuel rs → Short fuel (reverse_aux qs rs)
Short-reverse_aux fuel [] rs short behind = behind
Short-reverse_aux fuel ((p, cs) ∷ qs) rs short behind =
    Short-reverse_aux fuel qs ((p, cs) ∷ rs) short.1 (short.0, behind)

Short-sum :
    (cap : ℕ) (qs : Queues)
    → ((a : ℕ) → sum (uses a) qs ≤ (if ltb a cap then 1 else 0))
    → Short (suc cap) qs
Short-sum cap [] once = tt
Short-sum cap ((p, cs) ∷ qs) once =
    let n = length-cells_le cap cs (λ a. omega (arith, once a)) in
    (omega arith, Short-sum cap qs (λ a. omega (arith, once a)))

-- On a book that meets the invariant, `all_resting_orders` does not panic and its fuel is enough: it
-- returns the orders of all ask queues from the best price on and then those of all bid queues from
-- the best price on, each queue in the order of time.
pub all_resting_orders-queues :
    (b : OrderBook) (v : View)
    → IsBook b v
    → all_resting_orders b ≡ some (orders_in v.asks ++ orders_in (reverse v.bids))
unfolding all_resting_orders
all_resting_orders-queues b v is =
    let cap : ℕ = b.arena.capacity in
    let asks = Short-sum cap v.asks (λ a. omega (arith, is.slots a)) in
    let bids = Short-sum cap v.bids (λ a. omega (arith, is.slots a)) in
    let first =
      levels_orders-IsLevels (suc cap) b.arena (is.is_levels ask)
        (omega (arith, is.pool.size, is.pool.small)) asks in
    let second =
      levels_orders-IsLevels (suc cap) b.arena
        (IsLevels-reverse_aux (is.is_levels bid) IsLevels.nil)
        (omega (arith, is.pool.size, is.pool.small))
        (Short-reverse_aux (suc cap) v.bids [] bids tt) in
    rw (first, second)
