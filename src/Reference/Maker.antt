-- ===== src/Reference/Maker.antt =====
-- A turn of the reference's loop: which maker it meets.
use mathlib.Core.List.{Memᴰ}
use ferrox.Prelude.{
  ◌+◌, ap, arith, false, get_elem?, length, ltb, none, refl, some, suc, true, ℕ, ℤ, ◌++◌, ◌<◌, ◌∙◌,
  ◌≡◌, List, [], ◌∷◌,
}
use ferrox.Order.{Order, Side, bid, ask}
use ferrox.Arena.Seg.{Cells}
use ferrox.Collections.TreeMap
use ferrox.Collections.TreeMap.Sorted.{last_key-cons, lookup_first, lookup_last}
use ferrox.Book.Good.{GoodOrder, GoodQueues-lookup}
use ferrox.Book.View.{total_of, View, queues, best_key}
use ferrox.Book.Queues.{Queues}
use ferrox.Matching.{opposite, crosses}
use ferrox.Matching.Sweep.{Front}
use ferrox.Reference.{
  Resting, same_side, best_from, best_index, maker_side, price_crosses, index_of, match_all,
  meet_maker, Matched,
}
use ferrox.Reference.Views.{IsTidy}
use ferrox.Reference.Agrees.{Agrees}
use ferrox.Reference.Bounded.{InOrder, has_queue}
use ferrox.Reference.Kept.{UniqIds, get_elem?_middle}

-- The flat list stands for the view: the same queues, the orders by age, each id once, and the
-- sequence numbers below `hi`. With the free slots, there is room for `cap` orders.
pub record Stands (cap hi : ℕ) (v : View) (rs : List Resting) : Type 0 where
  pub tidy : IsTidy v
  pub agrees : Agrees rs v
  pub order : InOrder 0 rs hi
  pub ids : UniqIds rs
  pub size : length rs ≡ total_of length v
  pub room : length v.free + total_of length v ≡ cap

pub maker_side-opposite : (s : Side) → maker_side s ≡ opposite s
maker_side-opposite bid = refl
maker_side-opposite ask = refl

pub price_crosses-crosses : (s : Side) (p q : ℤ) → price_crosses s p q ≡ crosses s p q
price_crosses-crosses bid p q = refl
price_crosses-crosses ask p q = refl

best_from-none :
    (s : Side) (i : ℕ) (rs : List Resting)
    → ((r : Resting) → Memᴰ r rs → same_side r.order.side s ≡ false)
    → best_from s i rs none ≡ none
best_from-none s i [] other = refl
best_from-none s i (r ∷ rs) other =
    rw (other r (Memᴰ.head refl)) (best_from-none s (suc i) rs (λ q m. other q (Memᴰ.tail m)))

no_lookup :
    (s : Side) (p : ℤ) (qs : Queues) {cs : Cells}
    → best_key s qs ≡ none
    → TreeMap.lookup p qs ≡ some cs
    → ⊥
no_lookup bid p [] e found = cc
no_lookup bid p ((k, ds) ∷ qs) e found = let last = last_key-cons k ds qs in cc
no_lookup ask p [] e found = cc
no_lookup ask p ((k, ds) ∷ qs) e found = cc

same_side_of : (t s : Side) → (t ≡ s → ⊥) → same_side t s ≡ false
same_side_of bid bid f = absurd (f refl)
same_side_of bid ask f = refl
same_side_of ask bid f = refl
same_side_of ask ask f = absurd (f refl)

module _ {v : View} (s : Side) (rs : List Resting) (is : IsTidy v) (agrees : Agrees rs v)
    (nothing : best_key s (queues v s) ≡ none) where
  -- Without queues, no order is of the side.
  pub other_side : (r : Resting) → Memᴰ r rs → same_side r.order.side s ≡ false
  other_side r m = same_side_of r.order.side s (λ side.
      let (cs, found) = has_queue is rs agrees s r m side in
      no_lookup s r.order.price (queues v s) nothing found)

  -- There is no maker.
  pub best_index-none : best_index s rs ≡ none
  unfolding best_index
  best_index-none = ap index_of (best_from-none s 0 rs other_side)

-- The front order stands where it belongs.
pub Front-GoodOrder :
    {v : View} {s : Side} → IsTidy v → (f : Front v s) → GoodOrder s f.price f.order
Front-GoodOrder {v} {s} is f = (GoodQueues-lookup s f.price (queues v s) (is.good s) f.queue).1.0

-- The best price has a front order.
pub Front-best_key :
    {v : View} (s : Side) (p : ℤ)
    → IsTidy v
    → best_key s (queues v s) ≡ some p
    → (f : Front v s) × (f.price ≡ p)
Front-best_key {v} s p is e =
    let (cs, found) = entry s e in
    front cs found (GoodQueues-lookup s p (queues v s) (is.good s) found).0
  where
    entry :
        (s : Side)
        → best_key s (queues v s) ≡ some p
        → (cs : Cells) × (TreeMap.lookup p (queues v s) ≡ some cs)
    entry bid e = lookup_last v.bids (is.sorted bid) e
    entry ask e = lookup_first v.asks e

    front :
        (cs : Cells)
        → TreeMap.lookup p (queues v s) ≡ some cs
        → 0 < length cs
        → (f : Front v s) × (f.price ≡ p)
    front [] found long = absurd (omega arith)
    front ((i, o) ∷ cs) found long =
        (record { price = p; slot = i; order = o; behind = cs; is_best = e; queue = found }, refl)

-- A turn of the loop that finds a maker.
pub match_all-maker :
    (fuel : ℕ) (taker : Order) (s : Matched) (xs : List Resting) (r : Resting) (ys : List Resting)
    → 0 < s.quantity
    → s.resting ≡ xs ++ (r ∷ ys)
    → best_index (maker_side taker.side) s.resting ≡ some (length xs)
    → match_all (suc fuel) taker s
      ≡ meet_maker (λ s'. match_all fuel taker s') taker (length xs) r s
unfolding match_all
match_all-maker fuel taker s xs r ys more split found =
    let here : get_elem? s.resting (length xs) ≡ some r =
      ap (λ zs. get_elem? zs (length xs)) split ∙ get_elem?_middle xs r ys in
    let more' : ltb 0 s.quantity ≡ true = ground arith in rw (more', match_all, found, here) refl

pub match_all-alone :
    (fuel : ℕ) (taker : Order) (s : Matched)
    → 0 < s.quantity
    → best_index (maker_side taker.side) s.resting ≡ none
    → match_all (suc fuel) taker s ≡ some s
unfolding match_all
match_all-alone fuel taker s more found =
    let more' : ltb 0 s.quantity ≡ true = ground arith in rw (more', match_all, found) refl
