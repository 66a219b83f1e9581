-- ===== src/Reference/Number.antt =====
-- The orders of a book, numbered as they are listed, as a flat list that stands for its view.
use mathlib.Core.Path.{subst}
use mathlib.Core.List.{reverse_aux}
use ferrox.Prelude.{
  Bool, append-nil, eqb_ℤ, eqb_ℤ_iff, false, none, reverse, sym, true, ◌&&◌, Bool-cases, ap, arith,
  filter, if◌then◌else◌, inl, inr, length, refl, suc, ℕ, ℤ, ◌++◌, ◌+◌, ◌==◌, ◌∙◌, ◌≡◌, ◌≤◌, List,
  [], ◌∷◌,
}
use ferrox.Order.{Order, Side, bid, ask}
use ferrox.Arena.Seg.{Cells}
use ferrox.Collections.TreeMap
use ferrox.Collections.TreeMap.Sorted.{IsSorted, lookup-Above}
use ferrox.Book.Good.{GoodCells, GoodQueues}
use ferrox.Book.Queues.{Queues, cells_at}
use ferrox.Book.View.{View}
use ferrox.Book.Change.{cells}
use ferrox.Book.Resting.{orders_of, orders_in}
use ferrox.Reference.{same_side, Resting, orders}
use ferrox.Reference.Views.{at, IsTidy}
use ferrox.Reference.Agrees.{Agrees, stands, filter-append}
use ferrox.Reference.Bounded.{InOrder}
use ferrox.Reference.Kept.{Fresh, UniqIds}

abbrev pub number : ℕ → List Order → List Resting
number n [] = []
number n (o ∷ os) = record { order = o; seq = n } ∷ number (n + 1) os

pub length-number : (n : ℕ) (os : List Order) → length (number n os) ≡ length os
length-number n [] = refl
length-number n (o ∷ os) = ap suc (length-number (n + 1) os)

pub InOrder-number : (n : ℕ) (os : List Order) → InOrder n (number n os) (n + length os)
InOrder-number n [] = omega arith
InOrder-number n (o ∷ os) = (
  omega arith,
  subst (λ k. InOrder k (number (n + 1) os) (n + suc (length os))) {x = n + 1} {y = suc n}
      (omega arith)
      (subst (λ k. InOrder (n + 1) (number (n + 1) os) k) {x = n + 1 + length os}
        {y = n + suc (length os)} (omega arith) (InOrder-number (n + 1) os)),
)

-- How many orders have the id.
abbrev pub ids : ℕ → List Order → ℕ
ids id [] = 0
ids id (o ∷ os) = (if o.id == id then 1 else 0) + ids id os

Fresh-number : (id n : ℕ) (os : List Order) → ids id os ≡ 0 → Fresh id (number n os)
Fresh-number id n [] none_of = tt
Fresh-number id n (o ∷ os) none_of =
    (λ e. absurd (ground arith), Fresh-number id (n + 1) os (omega arith))

pub UniqIds-number : (n : ℕ) (os : List Order) → ((id : ℕ) → ids id os ≤ 1) → UniqIds (number n os)
UniqIds-number n [] once = tt
UniqIds-number n (o ∷ os) once = (
  Fresh-number o.id (n + 1) os (let here = once (o.id) in ground arith),
  UniqIds-number (n + 1) os (λ id. omega (arith, once id)),
)

-- The orders at a side and price.
abbrev here : Side → ℤ → List Order → List Order
here s p os = filter (λ (o : Order). at o.side o.price s p) os

orders-number :
    (s : Side) (p : ℤ) (n : ℕ) (os : List Order)
    → orders (filter (stands s p) (number n os)) ≡ here s p os
orders-number s p n [] = refl
orders-number s p n (o ∷ os) =
    let rest = orders-number s p (n + 1) os in
    elim (Bool-cases (at o.side o.price s p)) [
      | inl yes' ↦ rw yes' (ap (λ zs. o ∷ zs) rest)
      | inr no' ↦ rw no' rest
    ]

abbrev shown : Bool → List Order → List Order
shown b os = if b then os else []

shown-nil : (b : Bool) → shown b [] ≡ []
shown-nil true = refl
shown-nil false = refl

-- The orders of a queue are at its side and price, and at no other.
here-orders_of :
    (s : Side) (p : ℤ) (t : Side) (q : ℤ) (cs : Cells)
    → GoodCells s p cs
    → here t q (orders_of cs) ≡ shown (at s p t q) (orders_of cs)
here-orders_of s p t q [] good = sym (shown-nil (at s p t q))
here-orders_of s p t q ((i, o) ∷ cs) good =
    let rest = here-orders_of s p t q cs good.1 in
    let same : at o.side o.price t q ≡ at s p t q =
      ap (λ k. at k o.price t q) good.0.side ∙ ap (λ k. at s k t q) good.0.price in
    elim (Bool-cases (at s p t q)) [
      | inl yes' ↦ rw (same, yes') (ap (λ zs. o ∷ zs) (rw yes' at rest))
      | inr no' ↦ rw (same, no') (rw no' at rest)
    ]

-- The first queue and the others.
orders_at-cons :
    (k q : ℤ) (cs : Cells) (qs : Queues)
    → IsSorted ((k, cs) ∷ qs)
    → orders_of (cells_at q ((k, cs) ∷ qs))
      ≡ shown (eqb_ℤ k q) (orders_of cs) ++ orders_of (cells_at q qs)
orders_at-cons k q cs qs sorted = elim (Bool-cases (eqb_ℤ k q)) [
  | inl same ↦
      let past : TreeMap.lookup q qs ≡ none =
        ground (arith, eqb_ℤ_iff k q, lookup-Above q k qs sorted.0) in
      rw (same, past) (sym (append-nil (orders_of cs)))
  | inr other ↦ rw other refl
]

-- It stands alone where the price is its own.
orders_at_alone :
    (k q : ℤ) (cs : Cells) (qs : Queues) (os : List Order)
    → IsSorted ((k, cs) ∷ qs)
    → orders_of (cells_at q qs) ++ (shown (eqb_ℤ k q) (orders_of cs) ++ os)
      ≡ (shown (eqb_ℤ k q) (orders_of cs) ++ orders_of (cells_at q qs)) ++ os
orders_at_alone k q cs qs os sorted = elim (Bool-cases (eqb_ℤ k q)) [
  | inl same ↦
      let past : TreeMap.lookup q qs ≡ none =
        ground (arith, eqb_ℤ_iff k q, lookup-Above q k qs sorted.0) in
      rw (same, past) (ap (λ zs. zs ++ os) (sym (append-nil (orders_of cs))))
  | inr other ↦ rw other refl
]

module _ (s : Side) (t : Side) (q : ℤ) where
  abbrev test : Order → Bool
  test o = at o.side o.price t q

  pub here-orders_in :
      (qs : Queues)
      → IsSorted qs
      → GoodQueues s qs
      → here t q (orders_in qs) ≡ shown (same_side s t) (orders_of (cells_at q qs))
  here-orders_in [] sorted good = sym (shown-nil (same_side s t))
  here-orders_in ((k, cs) ∷ qs) sorted good =
      filter-append test (orders_of cs) (orders_in qs)
      ∙ ap (λ os. os ++ here t q (orders_in qs)) (here-orders_of s k t q cs good.1)
      ∙ ap (λ os. shown (at s k t q) (orders_of cs) ++ os) (here-orders_in qs sorted.1 good.2)
      ∙ join (same_side s t)
      ∙ ap (shown (same_side s t)) (sym (orders_at-cons k q cs qs sorted))
    where
      join :
          (b : Bool)
          → shown (b && eqb_ℤ k q) (orders_of cs) ++ shown b (orders_of (cells_at q qs))
            ≡ shown b (shown (eqb_ℤ k q) (orders_of cs) ++ orders_of (cells_at q qs))
      join true = refl
      join false = refl

  pub here-reverse_aux :
      (qs acc : Queues)
      → IsSorted qs
      → GoodQueues s qs
      → here t q (orders_in (reverse_aux qs acc))
        ≡ shown (same_side s t) (orders_of (cells_at q qs)) ++ here t q (orders_in acc)
  here-reverse_aux [] acc sorted good =
      ap (λ os. os ++ here t q (orders_in acc)) (sym (shown-nil (same_side s t)))
  here-reverse_aux ((k, cs) ∷ qs) acc sorted good =
      here-reverse_aux qs ((k, cs) ∷ acc) sorted.1 good.2
      ∙ ap (λ os. shown (same_side s t) (orders_of (cells_at q qs)) ++ os)
          (filter-append test (orders_of cs) (orders_in acc)
            ∙ ap (λ os. os ++ here t q (orders_in acc)) (here-orders_of s k t q cs good.1))
      ∙ join (same_side s t) (here t q (orders_in acc))
      ∙ ap (λ os. shown (same_side s t) os ++ here t q (orders_in acc))
          (sym (orders_at-cons k q cs qs sorted))
    where
      join :
          (b : Bool) (os : List Order)
          → shown b (orders_of (cells_at q qs)) ++ (shown (b && eqb_ℤ k q) (orders_of cs) ++ os)
            ≡ shown b (shown (eqb_ℤ k q) (orders_of cs) ++ orders_of (cells_at q qs)) ++ os
      join true os = orders_at_alone k q cs qs os sorted
      join false os = refl

-- The listed orders of a view.
abbrev pub listed : View → List Order
listed v = orders_in v.asks ++ orders_in (reverse v.bids)

-- Numbered, they stand for the view.
pub Agrees-number : (n : ℕ) (v : View) → IsTidy v → Agrees (number n (listed v)) v
Agrees-number n v is t q =
    orders-number t q n (listed v)
    ∙ filter-append (λ (o : Order). at o.side o.price t q) (orders_in v.asks)
        (orders_in (reverse v.bids))
    ∙ ap (λ os. os ++ here t q (orders_in (reverse v.bids)))
        (here-orders_in ask t q v.asks (is.sorted ask) (is.good ask))
    ∙ ap (λ os. shown (same_side ask t) (orders_of (cells_at q v.asks)) ++ os)
        (here-reverse_aux bid t q v.bids [] (is.sorted bid) (is.good bid))
    ∙ one t
  where
    one :
        (t : Side)
        → shown (same_side ask t) (orders_of (cells_at q v.asks))
            ++ (shown (same_side bid t) (orders_of (cells_at q v.bids)) ++ [])
          ≡ orders_of (cells v t q)
    one bid = append-nil (orders_of (cells_at q v.bids))
    one ask = append-nil (orders_of (cells_at q v.asks))
