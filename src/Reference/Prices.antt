-- ===== src/Reference/Prices.antt =====
-- The best prices of the reference: the greatest and the least price of a side.
use ferrox.Prelude.{
  Bool-cases, Option, ap, eq_of_parts, eqb_ℤ, eqb_ℤ_iff, false, filter, min_ℤ, none, refl, sym, ℕ,
  ◌∙◌, All, Option-cases, arith, inl, inr, max_ℤ, some, ℤ, ◌≡◌, ◌≤ℤ◌, ◌⊎◌, List, [], ◌∷◌,
}
use ferrox.Order.{Order, Side, bid, ask}
use ferrox.Book.View.{View, queues, best_key}
use ferrox.Reference.Agrees.{filter_none, stands}
use ferrox.Reference.{orders}
use ferrox.Book.Resting.{orders_of}
use ferrox.Book.Queues.{or_empty}
use ferrox.Reference.{Resting, same_side, better_price, on_side, highest, lowest}
use ferrox.Reference.Best.{same_side_is}
use ferrox.Reference.Bounded.{All-Mem, All-Bounded}
use ferrox.Reference.Maker.{other_side, Stands, Front-best_key}

-- An order at this price.
abbrev HasPrice : ℤ → List Resting → Type 0
HasPrice p [] = ⊥
HasPrice p (r ∷ rs) = (r.order.price ≡ p) ⊎ HasPrice p rs

highest_le :
    (p : ℤ) (rs : List Resting) {k : ℤ}
    → All (λ r. r.order.price ≤ℤ p) rs
    → highest rs ≡ some k
    → k ≤ℤ p
highest_le p [] h e = cc
highest_le p (r ∷ rs) h e = elim (Option-cases (highest rs)) [
  | inl nothing ↦ let first = h.0 in ground arith
  | inr (j, some_j) ↦ let first = h.0 in let rest = highest_le p rs h.1 some_j in ground arith
]

highest_ge :
    (p : ℤ) (rs : List Resting) → HasPrice p rs → (k : ℤ) × (highest rs ≡ some k) × (p ≤ℤ k)
highest_ge p [] h = absurd h
highest_ge p (r ∷ rs) (inl same) = elim (Option-cases (highest rs)) [
  | inl nothing ↦ (r.order.price, ground arith, ground arith)
  | inr (j, some_j) ↦ (max_ℤ r.order.price j, ground arith, ground arith)
]
highest_ge p (r ∷ rs) (inr later) =
    let (j, some_j, above) = highest_ge p rs later in
    (max_ℤ r.order.price j, ground arith, ground arith)

lowest_ge :
    (p : ℤ) (rs : List Resting) {k : ℤ}
    → All (λ r. p ≤ℤ r.order.price) rs
    → lowest rs ≡ some k
    → p ≤ℤ k
lowest_ge p [] h e = cc
lowest_ge p (r ∷ rs) h e = elim (Option-cases (lowest rs)) [
  | inl nothing ↦ let first = h.0 in ground arith
  | inr (j, some_j) ↦ let first = h.0 in let rest = lowest_ge p rs h.1 some_j in ground arith
]

lowest_le : (p : ℤ) (rs : List Resting) → HasPrice p rs → (k : ℤ) × (lowest rs ≡ some k) × (k ≤ℤ p)
lowest_le p [] h = absurd h
lowest_le p (r ∷ rs) (inl same) = elim (Option-cases (lowest rs)) [
  | inl nothing ↦ (r.order.price, ground arith, ground arith)
  | inr (j, some_j) ↦ (min_ℤ r.order.price j, ground arith, ground arith)
]
lowest_le p (r ∷ rs) (inr later) =
    let (j, some_j, below) = lowest_le p rs later in
    (min_ℤ r.order.price j, ground arith, ground arith)

HasPrice-stands :
    (s : Side) (p : ℤ) (rs : List Resting) {o : Order} {os : List Order}
    → orders (filter (stands s p) rs) ≡ o ∷ os
    → HasPrice p (filter (on_side s) rs)
HasPrice-stands s p [] e = cc
HasPrice-stands s p (r ∷ rs) {o} {os} e = elim (Bool-cases (same_side r.order.side s)) [
  | inl here ↦ rw here (elim (Bool-cases (eqb_ℤ r.order.price p)) [
    | inl same ↦ inl ((eqb_ℤ_iff r.order.price p).0 same)
    | inr other ↦
        let e' : orders (filter (stands s p) rs) ≡ o ∷ os = rw (here, other) at e in
        inr (HasPrice-stands s p rs e')
  ])
  | inr away ↦
      let e' : orders (filter (stands s p) rs) ≡ o ∷ os = rw away at e in
      rw away (HasPrice-stands s p rs e')
]

-- What holds of the orders of a side.
pub All-on_side :
    (P : Resting → Type 0) (s : Side) (rs : List Resting)
    → All (λ r. r.order.side ≡ s → P r) rs
    → All P (filter (on_side s) rs)
All-on_side P s [] h = tt
All-on_side P s (r ∷ rs) h = elim (Bool-cases (same_side r.order.side s)) [
  | inl here ↦ rw here (h.0 (same_side_is r.order.side s here), All-on_side P s rs h.1)
  | inr away ↦ rw away (All-on_side P s rs h.1)
]

pub All-map :
    {P Q : Resting → Type 0} (rs : List Resting) → ((r : Resting) → P r → Q r) → All P rs → All Q rs
All-map [] f h = tt
All-map (r ∷ rs) f h = (f r h.0, All-map rs f h.1)

-- The best price of a side by the prices of its orders.
abbrev pub best_of : Side → List Resting → Option ℤ
best_of bid rs = highest rs
best_of ask rs = lowest rs

best_of_is :
    (s : Side) (p : ℤ) (rs : List Resting)
    → All (λ r. better_price s r.order.price p ≡ false) rs
    → HasPrice p rs
    → best_of s rs ≡ some p
best_of_is bid p rs h at =
    let (k, is_k, above) = highest_ge p rs at in
    let below = highest_le p rs (All-map rs (λ r b. ground arith) h) is_k in
    is_k ∙ ap some (eq_of_parts k p (omega arith))
best_of_is ask p rs h at =
    let (k, is_k, below) = lowest_le p rs at in
    let above = lowest_ge p rs (All-map rs (λ r b. ground arith) h) is_k in
    is_k ∙ ap some (eq_of_parts k p (omega arith))

-- It is the best price of the view.
pub best_of-best_key :
    {cap hi : ℕ} {v : View} {rs : List Resting} (s : Side)
    → Stands cap hi v rs
    → best_of s (filter (on_side s) rs) ≡ best_key s (queues v s)
best_of-best_key {v} {rs} s st = elim (Option-cases (best_key s (queues v s))) [
  | inl nothing ↦
      let none_left =
        filter_none (on_side s) rs (All-Mem rs (other_side s rs st.tidy st.agrees nothing)) in
      ap (best_of s) none_left ∙ empty s ∙ sym nothing
  | inr (p, first) ↦
      let (f, p_is) = Front-best_key s p st.tidy first in
      let queue = st.agrees s f.price ∙ ap (λ o. orders_of (or_empty o)) f.queue in
      let bounded = All-Bounded st.tidy rs st.agrees s f.price f.is_best in
      best_of_is s f.price (filter (on_side s) rs)
        (All-on_side (λ r. better_price s r.order.price f.price ≡ false) s rs bounded)
        (HasPrice-stands s f.price rs queue)
      ∙ ap some p_is
      ∙ sym first
]
  where
    empty : (s : Side) → best_of s [] ≡ none
    empty bid = refl
    empty ask = refl
