-- ===== src/Reference/Bounded.antt =====
-- The orders of a flat list by age, and the bound that the best price of the view puts on them.
use mathlib.Core.Path.{subst}
use mathlib.Core.List.{Memᴰ}
use mathlib.Core.List.Memᴰ
use ferrox.Prelude.{
  arith, All, Bool, Bool-cases, Option-cases, ap, false, filter, inl, inr, refl, some, suc, true, ℕ,
  ℤ, ◌++◌, ◌∙◌, ◌≡◌, ◌≢◌, ◌≤◌, List, [], ◌∷◌,
}
use ferrox.Order.{Order, Side, bid, ask}
use ferrox.Arena.Seg.{Cells}
use ferrox.Collections.TreeMap
use ferrox.Collections.TreeMap.Sorted.{IsSorted, lookup-first_key, lookup-last_key}
use ferrox.Book.Queues.{Queues, or_empty}
use ferrox.Book.View.{best, View, queues, best_key}
use ferrox.Book.Resting.{orders_of}
use ferrox.Reference.{Resting, better_price, orders}
use ferrox.Reference.Views.{at, IsTidy}
use ferrox.Reference.Agrees.{stands, Agrees, at_refl}

-- The sequence numbers grow along the list, from `lo` on and below `hi`.
abbrev pub InOrder : ℕ → List Resting → ℕ → Type 0
InOrder lo [] hi = lo ≤ hi
InOrder lo (r ∷ rs) hi = (lo ≤ r.seq) × InOrder (suc r.seq) rs hi

-- The first order that passes a test, and what stands round it.
pub record First (t : Resting → Bool) (rs : List Resting) (o : Order) (os : List Order)
    : Type 0 where
  pub before : List Resting
  pub here : Resting
  pub behind : List Resting
  pub split : rs ≡ before ++ (here ∷ behind)
  pub order_is : here.order ≡ o
  pub passes : t here ≡ true
  pub none_before : All (λ r. t r ≡ false) before
  pub rest : orders (filter t behind) ≡ os

pub First-filter :
    (t : Resting → Bool) (rs : List Resting) {o : Order} {os : List Order}
    → orders (filter t rs) ≡ o ∷ os
    → First t rs o os
First-filter t [] e = cc
First-filter t (r ∷ rs) {o} {os} e = elim (Bool-cases (t r)) [
  | inl here ↦
      let e' : r.order ∷ orders (filter t rs) ≡ o ∷ os = rw here at e in
      record {
        before = [];
        here = r;
        behind = rs;
        split = refl;
        order_is = cc;
        passes = here;
        none_before = tt;
        rest = cc;
      }
  | inr away ↦
      let e' : orders (filter t rs) ≡ o ∷ os = rw away at e in
      let f = First-filter t rs e' in
      record {
        before = r ∷ f.before;
        here = f.here;
        behind = f.behind;
        split = ap (λ zs. r ∷ zs) f.split;
        order_is = f.order_is;
        passes = f.passes;
        none_before = (away, f.none_before);
        rest = f.rest;
      }
]

-- No order of the side beats this price.
abbrev pub Bounded : Side → ℤ → Resting → Type 0
Bounded s p q = q.order.side ≡ s → better_price s q.order.price p ≡ false

pub best_bounds :
    (s : Side) (p k : ℤ) (qs : Queues) {cs : Cells}
    → IsSorted qs
    → best_key s qs ≡ some p
    → TreeMap.lookup k qs ≡ some cs
    → better_price s k p ≡ false
best_bounds bid p k qs {cs} sorted best found =
    let h = lookup-last_key k qs {v = cs} sorted found best in ground arith
best_bounds ask p k qs sorted best found =
    let h = lookup-first_key k qs sorted found best in ground arith

pub All-Mem :
    {P : Resting → Type 0} (rs : List Resting) → ((q : Resting) → Memᴰ q rs → P q) → All P rs
All-Mem [] h = tt
All-Mem (r ∷ rs) h = (h r (Memᴰ.head refl), All-Mem rs (λ q m. h q (Memᴰ.tail m)))

pub some_standing :
    (rs : List Resting) (q : Resting) (t : Resting → Bool)
    → Memᴰ q rs
    → t q ≡ true
    → orders (filter t rs) ≢ []
some_standing [] q t m e none_left = elim m [ ]
some_standing (r ∷ rs) q t m e none_left = elim (Bool-cases (t r)) [
  | inl here ↦ let e' : r.order ∷ orders (filter t rs) ≡ [] = rw here at none_left in cc
  | inr away ↦ elim (Memᴰ.cases_cons m) [
    | inl same ↦ let e' : t q ≡ false = ap t same ∙ away in cc
    | inr later ↦
        let e' : orders (filter t rs) ≡ [] = rw away at none_left in some_standing rs q t later e e'
  ]
]

module _ {v : View} (is : IsTidy v) (rs : List Resting) (agrees : Agrees rs v) (s : Side) where
  -- The price of an order that rests has a queue.
  pub has_queue :
      (q : Resting)
      → Memᴰ q rs
      → q.order.side ≡ s
      → (cs : Cells) × (TreeMap.lookup q.order.price (queues v s) ≡ some cs)
  has_queue q m side = elim (Option-cases (TreeMap.lookup q.order.price (queues v s))) [
    | inl missing ↦
        let here : stands s q.order.price q ≡ true =
          subst (λ t. at q.order.side q.order.price t q.order.price ≡ true) side
            (at_refl q.order.side q.order.price) in
        let nothing : orders (filter (stands s q.order.price) rs) ≡ [] =
          agrees s q.order.price ∙ ap (λ o. orders_of (or_empty o)) missing in
        absurd (some_standing rs q (stands s q.order.price) m here nothing)
    | inr found ↦ found
  ]

  -- No order that rests beats the best price.
  pub All-Bounded : (p : ℤ) → best_key s (queues v s) ≡ some p → All (Bounded s p) rs
  All-Bounded p best = All-Mem rs λ q m side.
      let (cs, found) = has_queue q m side in
      best_bounds s p q.order.price (queues v s) (is.sorted s) best found
