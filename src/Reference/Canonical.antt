-- ===== src/Reference/Canonical.antt =====
-- The reference's `canonical` against the queues.
use mathlib.Core.Path.{subst}
use mathlib.Core.List.{reverse_aux}
use ferrox.Prelude.{
  ℕ, Bool-cases, eqb_ℤ_refl, reverse, some, All, ap, arith, eqb_ℤ, eqb_ℤ_iff, filter, inl, inr, sym,
  true, ℤ, ◌∙◌, ◌≡◌, ◌⊎◌, List, [], ◌∷◌,
}
use ferrox.Order.{Side, bid, ask}
use ferrox.Arena.Seg.{Cells}
use ferrox.Collections.TreeMap
use ferrox.Collections.TreeMap.Sorted.{IsSorted, Above, lookup-Above}
use ferrox.Book.Queues.{Queues, or_empty}
use ferrox.Book.View.{View, queues}
use ferrox.Book.Resting.{orders_of, orders_in}
use ferrox.Reference.{Resting, orders, same_side, better_price, on_side, sort_by, key_le}
use ferrox.Reference.Best.{same_side_refl}
use ferrox.Reference.Bounded.{has_queue, All-Mem}
use ferrox.Reference.Maker.{Stands}
use ferrox.Reference.Prices.{All-on_side}
use ferrox.Reference.Queued.{All-zip, Filled, HasKey, orders-orders_in, RankedKeys}
use ferrox.Reference.Ranked.{
  IsRanked-sort_by, filter-sort_by, All-sort_by, InOrder-on_side, filter-on_side,
}

-- The queues of a side as `all_resting_orders` walks them.
abbrev walk : Side → Queues → Queues
walk bid qs = reverse qs
walk ask qs = qs

pub All-reverse_aux :
    {A : Type 0} (P : A → Type 0) (xs ys : List A) → All P xs → All P ys → All P (reverse_aux xs ys)
All-reverse_aux P [] ys h k = k
All-reverse_aux P (x ∷ xs) ys h k = All-reverse_aux P xs (x ∷ ys) h.1 (h.0, k)

HasKey-reverse_aux :
    (p : ℤ) (xs ys : Queues) → HasKey p xs ⊎ HasKey p ys → HasKey p (reverse_aux xs ys)
HasKey-reverse_aux p [] ys (inl h) = absurd h
HasKey-reverse_aux p [] ys (inr h) = h
HasKey-reverse_aux p ((k, cs) ∷ xs) ys (inl (inl same)) =
    HasKey-reverse_aux p xs ((k, cs) ∷ ys) (inr (inl same))
HasKey-reverse_aux p ((k, cs) ∷ xs) ys (inl (inr later)) =
    HasKey-reverse_aux p xs ((k, cs) ∷ ys) (inl later)
HasKey-reverse_aux p ((k, cs) ∷ xs) ys (inr h) =
    HasKey-reverse_aux p xs ((k, cs) ∷ ys) (inr (inr h))

Above-All : (k : ℤ) (qs : Queues) → Above k qs → All (λ e. better_price ask k e.0 ≡ true) qs
Above-All k [] a = tt
Above-All k ((j, cs) ∷ qs) a = (ground (arith, a.0), Above-All k qs a.1)

RankedKeys-ask : (qs : Queues) → IsSorted qs → RankedKeys ask qs
RankedKeys-ask [] sorted = tt
RankedKeys-ask ((k, cs) ∷ qs) sorted = (Above-All k qs sorted.0, RankedKeys-ask qs sorted.1)

RankedKeys-reverse_aux :
    (qs acc : Queues)
    → IsSorted qs
    → RankedKeys bid acc
    → All (λ e. Above e.0 qs) acc
    → RankedKeys bid (reverse_aux qs acc)
RankedKeys-reverse_aux [] acc sorted ranked under = ranked
RankedKeys-reverse_aux ((k, cs) ∷ qs) acc sorted ranked under =
    RankedKeys-reverse_aux qs ((k, cs) ∷ acc) sorted.1
      (All-zip acc (λ e a b. let c = a.0 in ground arith) under under, ranked)
      (sorted.0, All-zip acc (λ e a b. a.1) under under)

-- The entries of a sorted map are what it finds.
All-lookup :
    (P : ℤ × Cells → Type 0) (qs : Queues)
    → IsSorted qs
    → ((k : ℤ) (cs : Cells) → TreeMap.lookup k qs ≡ some cs → P (k, cs))
    → All P qs
All-lookup P [] sorted f = tt
All-lookup P ((j, ds) ∷ qs) sorted f = (
  f j ds (ground (arith, eqb_ℤ_refl j)),
  All-lookup P qs sorted.1
      (λ k cs e. f k cs (ground (arith, eqb_ℤ_iff j k, lookup-Above k j qs sorted.0))),
)

HasKey-lookup : (p : ℤ) (qs : Queues) {cs : Cells} → TreeMap.lookup p qs ≡ some cs → HasKey p qs
HasKey-lookup p [] e = cc
HasKey-lookup p ((j, ds) ∷ qs) e = elim (Bool-cases (eqb_ℤ j p)) [
  | inl here ↦ inl ((eqb_ℤ_iff j p).0 here)
  | inr past ↦ inr (HasKey-lookup p qs (rw past at e))
]

module _ {cap hi : ℕ} {v : View} {rs : List Resting} (st : Stands cap hi v rs) where
  RankedKeys-walk : (s : Side) → RankedKeys s (walk s (queues v s))
  RankedKeys-walk bid = RankedKeys-reverse_aux v.bids [] (st.tidy.sorted bid) tt tt
  RankedKeys-walk ask = RankedKeys-ask v.asks (st.tidy.sorted ask)

  HasKey-walk : (s : Side) (p : ℤ) → HasKey p (queues v s) → HasKey p (walk s (queues v s))
  HasKey-walk bid p h = HasKey-reverse_aux p v.bids [] (inl h)
  HasKey-walk ask p h = h

  All-walk : (s : Side) (P : ℤ × Cells → Type 0) → All P (queues v s) → All P (walk s (queues v s))
  All-walk bid P h = All-reverse_aux P v.bids [] h tt
  All-walk ask P h = h

  -- The orders of a side, sorted, are those of the queues as they are walked.
  pub orders-walk :
      (s : Side)
      → orders (sort_by (key_le s) (filter (on_side s) rs)) ≡ orders_in (walk s (queues v s))
  orders-walk s =
      let here : List Resting = filter (on_side s) rs in
      let sorted : List Resting = sort_by (key_le s) here in
      let qs : Queues = queues v s in
      orders-orders_in s (walk s qs) sorted (RankedKeys-walk s) (IsRanked-sort_by s here)
        (All-sort_by (λ r. same_side r.order.side s ≡ true) (key_le s) here
          (All-on_side (λ r. same_side r.order.side s ≡ true) s rs
            (All-Mem rs (λ r m e. subst (λ t. same_side t s ≡ true) (sym e) (same_side_refl s)))))
        (All-sort_by (λ r. HasKey r.order.price (walk s qs)) (key_le s) here
          (All-on_side (λ r. HasKey r.order.price (walk s qs)) s rs
            (All-Mem rs (λ r m e.
              let (cs, found) = has_queue st.tidy rs st.agrees s r m e in
              HasKey-walk s r.order.price (HasKey-lookup r.order.price qs found)))))
        (All-walk s (Filled s sorted) (
          All-lookup (Filled s sorted) qs (st.tidy.sorted s) (λ k cs found.
            ap orders (
              filter-sort_by s k 0 hi here (InOrder-on_side s 0 hi rs st.order)
              ∙ filter-on_side s k rs)
            ∙ st.agrees s k
            ∙ ap (λ o. orders_of (or_empty o)) found)))
