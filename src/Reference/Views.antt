-- ===== src/Reference/Views.antt =====
-- What the changes of a view do to the orders at each side and price.
use mathlib.Core.Path.{subst}
use ferrox.Prelude.{
  ap, eqb_ℤ_refl, false, none, Bool, Bool-cases, arith, eqb_ℤ, eqb_ℤ_iff, if◌then◌else◌, inl, inr,
  length, ltb, refl, some, ℕ, ℤ, ◌&&◌, ◌++◌, ◌<◌, ◌∙◌, ◌≡◌, List, [], ◌∷◌,
}
use ferrox.Order.{Order, Side, bid, ask}
use ferrox.Arena.Seg.{Cells}
use ferrox.Arena.Quantity.{less}
use ferrox.Collections.TreeMap
use ferrox.Collections.TreeMap.Sorted.{IsSorted, IsSorted-insert, IsSorted-remove, lookup-Above}
use ferrox.Book.Queues.{Queues, cells_at, or_empty}
use ferrox.Book.Good.{
  GoodQueues, GoodCells, GoodQueues-insert, GoodQueues-remove, GoodQueues-lookup,
}
use ferrox.Book.View.{View, IsBook, queues}
use ferrox.Book.Change.{cells, put, drop}
use ferrox.Book.Settle.{replace, dequeue}
use ferrox.Book.Insert.{enqueue}
use ferrox.Book.Reduce.{take_front}
use ferrox.Matching.Uncrossed.{lookup-insert_ne}
use ferrox.Reference.{same_side}
use ferrox.Book.{OrderBook}

-- The queues are in the order of their prices, with orders that belong there, and none is empty.
pub record IsTidy (v : View) : Type 0 where
  pub sorted : (s : Side) → IsSorted (queues v s)
  pub good : (s : Side) → GoodQueues s (queues v s)

pub IsBook-IsTidy : {b : OrderBook} {v : View} → IsBook b v → IsTidy v
IsBook-IsTidy is = record { sorted = is.sorted; good = is.good }

-- The side and the price are these.
abbrev pub at : Side → ℤ → Side → ℤ → Bool
at s p t q = same_side s t && eqb_ℤ p q

-- The cells of one side and price become `cs`, all others stay.
abbrev pub Becomes : View → Side → ℤ → Cells → View → Type 0
Becomes v s p cs v' = (t : Side) (q : ℤ) → cells v' t q ≡ (if at s p t q then cs else cells v t q)

lookup-insert_self :
    (p : ℤ) (cs : Cells) (qs : Queues) → TreeMap.lookup p (TreeMap.insert p cs qs) ≡ some cs
lookup-insert_self p cs [] = ground (arith, eqb_ℤ_refl p)
lookup-insert_self p cs ((j, ds) ∷ qs) = ground (arith, lookup-insert_self p cs qs, eqb_ℤ_refl p)

lookup-remove_self :
    (p : ℤ) (qs : Queues) → IsSorted qs → TreeMap.lookup p (TreeMap.remove p qs) ≡ none
lookup-remove_self p [] sorted = refl
lookup-remove_self p ((j, ds) ∷ qs) sorted =
    ground (arith, lookup-remove_self p qs sorted.1, eqb_ℤ_iff j p, lookup-Above p j qs sorted.0)

lookup-remove_ne :
    (p k : ℤ) (qs : Queues)
    → eqb_ℤ p k ≡ false
    → TreeMap.lookup k (TreeMap.remove p qs) ≡ TreeMap.lookup k qs
lookup-remove_ne p k [] other = refl
lookup-remove_ne p k ((j, ds) ∷ qs) other = elim (Bool-cases (eqb_ℤ j p)) [
  | inl gone ↦ let past : eqb_ℤ j k ≡ false = ground arith in rw (gone, past)
  | inr stays ↦ rw stays (let rest = lookup-remove_ne p k qs other in ground arith)
]

cells_at-insert :
    (p k : ℤ) (cs : Cells) (qs : Queues)
    → cells_at k (TreeMap.insert p cs qs) ≡ (if eqb_ℤ p k then cs else cells_at k qs)
cells_at-insert p k cs qs = elim (Bool-cases (eqb_ℤ p k)) [
  | inl same ↦
      let here : p ≡ k = (eqb_ℤ_iff p k).0 same in
      rw same (
        ap or_empty (
          subst (λ j. TreeMap.lookup j (TreeMap.insert p cs qs) ≡ some cs) here
            (lookup-insert_self p cs qs)))
  | inr other ↦ rw other (ap or_empty (lookup-insert_ne p k cs qs other))
]

cells_at-remove :
    (p k : ℤ) (qs : Queues)
    → IsSorted qs
    → cells_at k (TreeMap.remove p qs) ≡ (if eqb_ℤ p k then [] else cells_at k qs)
cells_at-remove p k qs sorted = elim (Bool-cases (eqb_ℤ p k)) [
  | inl same ↦
      let here : p ≡ k = (eqb_ℤ_iff p k).0 same in
      rw same (
        ap or_empty (
          subst (λ j. TreeMap.lookup j (TreeMap.remove p qs) ≡ none) here
            (lookup-remove_self p qs sorted)))
  | inr other ↦ rw other (ap or_empty (lookup-remove_ne p k qs other))
]

put-Becomes : (s : Side) (p : ℤ) (cs : Cells) (v : View) → Becomes v s p cs (put s p cs v)
put-Becomes bid p cs v bid q = cells_at-insert p q cs v.bids
put-Becomes bid p cs v ask q = refl
put-Becomes ask p cs v bid q = refl
put-Becomes ask p cs v ask q = cells_at-insert p q cs v.asks

drop-Becomes : (s : Side) (p : ℤ) (v : View) → IsTidy v → Becomes v s p [] (drop s p v)
drop-Becomes bid p v is bid q = cells_at-remove p q v.bids (is.sorted bid)
drop-Becomes bid p v is ask q = refl
drop-Becomes ask p v is bid q = refl
drop-Becomes ask p v is ask q = cells_at-remove p q v.asks (is.sorted ask)

cells-free :
    (v : View) (free : List ℕ) (t : Side) (q : ℤ)
    → cells (record v { free = free }) t q ≡ cells v t q
cells-free v free bid q = refl
cells-free v free ask q = refl

replace-Becomes :
    (s : Side) (p : ℤ) (cs : Cells) (v : View) → IsTidy v → Becomes v s p cs (replace s p cs v)
replace-Becomes s p [] v is = drop-Becomes s p v is
replace-Becomes s p (c ∷ cs) v is = put-Becomes s p (c ∷ cs) v

pub dequeue-Becomes :
    (s : Side) (p : ℤ) (cs : Cells) (i : ℕ) (v : View)
    → IsTidy v
    → Becomes v s p cs (dequeue s p cs i v)
dequeue-Becomes s p cs i v is t q =
    cells-free (replace s p cs v) (i ∷ v.free) t q ∙ replace-Becomes s p cs v is t q

pub enqueue-Becomes :
    (o : Order) (i : ℕ) (free : List ℕ) (v : View)
    → Becomes v o.side o.price (cells v o.side o.price ++ (i, o) ∷ []) (enqueue o i free v)
enqueue-Becomes o i free v t q =
    cells-free (put o.side o.price (cells v o.side o.price ++ (i, o) ∷ []) v) free t q
    ∙ put-Becomes o.side o.price (cells v o.side o.price ++ (i, o) ∷ []) v t q

-- The front order after a fill: less of it, or nothing.
abbrev pub front_left : ℕ → Order → Cells → ℕ → Cells
front_left i o cs fill = if ltb fill o.quantity then (i, less o fill) ∷ cs else cs

pub take_front-Becomes :
    (s : Side) (p : ℤ) (i : ℕ) (o : Order) (cs : Cells) (fill : ℕ) (v : View)
    → IsTidy v
    → Becomes v s p (front_left i o cs fill) (take_front s p i o cs fill v)
take_front-Becomes s p i o cs fill v is = elim (Bool-cases (ltb fill o.quantity)) [
  | inl part ↦ rw part (put-Becomes s p ((i, less o fill) ∷ cs) v)
  | inr all ↦ rw all (dequeue-Becomes s p cs i v is)
]

module _ (v : View) (bids_sorted : IsSorted v.bids) (asks_sorted : IsSorted v.asks)
    (good_bids : GoodQueues bid v.bids) (good_asks : GoodQueues ask v.asks) where
  sides-IsSorted : (s : Side) → IsSorted (queues v s)
  sides-IsSorted bid = bids_sorted
  sides-IsSorted ask = asks_sorted

  good_sides : (s : Side) → GoodQueues s (queues v s)
  good_sides bid = good_bids
  good_sides ask = good_asks

  tidy : IsTidy v
  tidy = record { sorted = sides-IsSorted; good = good_sides }

-- A change of one queue keeps the view tidy.
put-IsTidy :
    (s : Side) (p : ℤ) (cs : Cells) (v : View)
    → IsTidy v
    → 0 < length cs
    → GoodCells s p cs
    → IsTidy (put s p cs v)
put-IsTidy bid p cs v is long fits =
    tidy (put bid p cs v) (IsSorted-insert p cs v.bids (is.sorted bid)) (is.sorted ask)
      (GoodQueues-insert bid p cs v.bids (is.good bid) long fits) (is.good ask)
put-IsTidy ask p cs v is long fits =
    tidy (put ask p cs v) (is.sorted bid) (IsSorted-insert p cs v.asks (is.sorted ask))
      (is.good bid) (GoodQueues-insert ask p cs v.asks (is.good ask) long fits)

drop-IsTidy : (s : Side) (p : ℤ) (v : View) → IsTidy v → IsTidy (drop s p v)
drop-IsTidy bid p v is =
    tidy (drop bid p v) (IsSorted-remove p v.bids (is.sorted bid)) (is.sorted ask)
      (GoodQueues-remove bid p v.bids (is.good bid)) (is.good ask)
drop-IsTidy ask p v is =
    tidy (drop ask p v) (is.sorted bid) (IsSorted-remove p v.asks (is.sorted ask)) (is.good bid)
      (GoodQueues-remove ask p v.asks (is.good ask))

pub dequeue-IsTidy :
    (s : Side) (p : ℤ) (cs : Cells) (i : ℕ) (v : View)
    → IsTidy v
    → GoodCells s p cs
    → IsTidy (dequeue s p cs i v)
dequeue-IsTidy s p cs i v is fits =
    let t = replaced cs fits in
    tidy (dequeue s p cs i v) (t.sorted bid) (t.sorted ask) (t.good bid) (t.good ask)
  where
    replaced : (cs : Cells) → GoodCells s p cs → IsTidy (replace s p cs v)
    replaced [] fits = drop-IsTidy s p v is
    replaced (c ∷ cs) fits = put-IsTidy s p (c ∷ cs) v is (omega arith) fits

pub take_front-IsTidy :
    (s : Side) (p : ℤ) (i : ℕ) (o : Order) (cs : Cells) (fill : ℕ) (v : View)
    → IsTidy v
    → TreeMap.lookup p (queues v s) ≡ some ((i, o) ∷ cs)
    → IsTidy (take_front s p i o cs fill v)
take_front-IsTidy s p i o cs fill v is queue =
    let fits = (GoodQueues-lookup s p (queues v s) (is.good s) queue).1 in
    elim (Bool-cases (ltb fill o.quantity)) [
      | inl part ↦
          let smaller : GoodCells s p ((i, less o fill) ∷ cs) = (
            record {
              side = fits.0.side;
              price = fits.0.price;
              positive = ground arith;
              word = let w = fits.0.word in omega arith;
            },
            fits.1,
          ) in
          rw part (put-IsTidy s p ((i, less o fill) ∷ cs) v is (omega arith) smaller)
      | inr all ↦ rw all (dequeue-IsTidy s p cs i v is fits.1)
    ]
