-- ===== src/Matching/Uncrossed.antt =====
-- The engine keeps its book uncrossed: every bid stays below every ask.
use mathlib.Core.Path.{subst}
use ferrox.Prelude.{
  Option-cases, Returns, mono, ◌++◌, refl, Bool, Bool-cases, eqb_ℤ, false, inr, ltb, min, sym, ◌<◌,
  ◌∙◌, List, [], arith, eqb_ℤ_iff, inl, some, ◌<ℤ◌, ◌∷◌, ◌≡◌, ◌⊎◌, ℕ, ℤ,
}
use ferrox.Order.{Order, Side, bid, ask}
use ferrox.Collections.TreeMap
use ferrox.Collections.TreeMap.Sorted.{last_key-cons, lookup-first_key, lookup-last_key, IsSorted}
use ferrox.Book.View.{best_key, queues-free, View, IsBook, queues}
use ferrox.Book.Insert.{enqueue}
use ferrox.Book.Reduce.{take_front}
use ferrox.Matching.{crosses, Fill, opposite, MatchingEngine, Added, add_order}
use ferrox.Matching.Sweep.{Uncrossed, done, own, uncrossed, Sweep}
use ferrox.Matching.Add.{duplicate, full, rested, self_trade, Ending, add_order-IsAdded, remainder}
use ferrox.Matching.Rounds.{left}
use ferrox.Book.Settle.{replace}
use ferrox.Book.Change.{cells, drop, put}
use ferrox.Arena.Seg.{Cells}
use ferrox.Arena.Quantity.{less}

-- A price has a queue.
abbrev Found : {V : Type 0} → ℤ → List (ℤ × V) → Type 0
Found {V} p m = (v : V) × (TreeMap.lookup p m ≡ some v)

abbrev pub IsUncrossed : View → Type 0
IsUncrossed v = (p q : ℤ) → Found p v.bids → Found q v.asks → p <ℤ q

module _ {V : Type 0} (p k : ℤ) where
  pub lookup-insert_ne :
      (v : V) (m : List (ℤ × V))
      → eqb_ℤ p k ≡ false
      → TreeMap.lookup k (TreeMap.insert p v m) ≡ TreeMap.lookup k m
  lookup-insert_ne v [] other = ground arith
  lookup-insert_ne v ((j, u) ∷ m) other =
      ground (arith, lookup-insert_ne v m other, eqb_ℤ_iff p k, eqb_ℤ_iff j p, eqb_ℤ_iff j k)

  Found-insert : (v : V) (m : List (ℤ × V)) → Found k (TreeMap.insert p v m) → (p ≡ k) ⊎ Found k m
  Found-insert v m (w, e) = elim (Bool-cases (eqb_ℤ p k)) [
    | inl same ↦ inl ((eqb_ℤ_iff p k).0 same)
    | inr other ↦ inr (w, sym (lookup-insert_ne v m other) ∙ e)
  ]

  Found-remove : (m : List (ℤ × V)) → Found k (TreeMap.remove p m) → Found k m
  Found-remove [] f = f
  Found-remove ((j, u) ∷ m) (w, e) = elim (Bool-cases (eqb_ℤ j k)) [
    | inl here ↦ (u, ground arith)
    | inr past ↦ elim (Bool-cases (eqb_ℤ j p)) [
      | inl gone ↦ (w, ground arith)
      | inr stays ↦ let (w', e') = Found-remove m (w, ground arith) in (w', ground arith)
    ]
  ]

-- Replacing the queue of a price that has one crosses nothing.
module _ (v : View) (uncrossed : IsUncrossed v) (p : ℤ) where
  put-IsUncrossed : (s : Side) (cs : Cells) → Found p (queues v s) → IsUncrossed (put s p cs v)
  put-IsUncrossed bid cs at j k b a = elim (Found-insert p j cs v.bids b) [
    | inl same ↦ uncrossed j k (subst (λ i. Found i v.bids) same at) a
    | inr old ↦ uncrossed j k old a
  ]
  put-IsUncrossed ask cs at j k b a = elim (Found-insert p k cs v.asks a) [
    | inl same ↦ uncrossed j k b (subst (λ i. Found i v.asks) same at)
    | inr old ↦ uncrossed j k b old
  ]

  drop-IsUncrossed : (s : Side) → IsUncrossed (drop s p v)
  drop-IsUncrossed bid j k b a = uncrossed j k (Found-remove p j v.bids b) a
  drop-IsUncrossed ask j k b a = uncrossed j k b (Found-remove p k v.asks a)

  pub replace-IsUncrossed :
      (s : Side) (cs : Cells) → Found p (queues v s) → IsUncrossed (replace s p cs v)
  replace-IsUncrossed s [] at = drop-IsUncrossed s
  replace-IsUncrossed s (c ∷ cs) at = put-IsUncrossed s (c ∷ cs) at

  take_front-IsUncrossed :
      (s : Side) (i : ℕ) (o : Order) (cs : Cells) (fill : ℕ)
      → Found p (queues v s)
      → IsUncrossed (take_front s p i o cs fill v)
  take_front-IsUncrossed s i o cs fill at = elim (Bool-cases (ltb fill o.quantity)) [
    | inl part ↦ rw part (put-IsUncrossed s ((i, less o fill) ∷ cs) at)
    | inr all ↦ rw all (replace-IsUncrossed s cs at)
  ]

-- A sweep only takes orders away.
Sweep-IsUncrossed :
    {taker : Order} {v : View} {q : ℕ} {fills : List Fill} {v' : View} {q' : ℕ} {self : Bool}
    → Sweep taker v q fills v' q' self
    → IsUncrossed v
    → IsUncrossed v'
Sweep-IsUncrossed (done e) un = un
Sweep-IsUncrossed (uncrossed more apart) un = un
Sweep-IsUncrossed (own f more cross mine) un = un
Sweep-IsUncrossed {taker} (Sweep.trade {v} {q} f more cross other rest) un =
    Sweep-IsUncrossed rest (
      take_front-IsUncrossed v un f.price (opposite taker.side) f.slot f.order f.behind
        (min q f.order.quantity) ((f.slot, f.order) ∷ f.behind, f.queue))

-- What is left of the taker at the end crosses no maker.
Sweep-Uncrossed :
    {taker : Order} {v : View} {q : ℕ} {fills : List Fill} {v' : View} {q' : ℕ} {self : Bool}
    → Sweep taker v q fills v' q' self
    → self ≡ false
    → 0 < q'
    → Uncrossed taker v'
Sweep-Uncrossed (done e) fresh left = absurd (omega arith)
Sweep-Uncrossed (uncrossed more apart) fresh left = apart
Sweep-Uncrossed (own f more cross mine) fresh left = absurd (ground arith)
Sweep-Uncrossed (Sweep.trade f more cross other rest) fresh left = Sweep-Uncrossed rest fresh left

-- A price that the best key does not cross, no key of the side crosses.
below_all :
    {V : Type 0} (p k : ℤ) (m : List (ℤ × V))
    → IsSorted m
    → ((a : ℤ) → TreeMap.first_key m ≡ some a → crosses bid a p ≡ false)
    → Found k m
    → p <ℤ k
below_all p k [] sorted apart (w, e) = cc
below_all p k ((j, u) ∷ m) sorted apart (w, e) =
    ground (arith, lookup-first_key k ((j, u) ∷ m) sorted e refl, apart j refl)

above_all :
    {V : Type 0} (p k : ℤ) (m : List (ℤ × V))
    → IsSorted m
    → ((a : ℤ) → TreeMap.last_key m ≡ some a → crosses ask a p ≡ false)
    → Found k m
    → k <ℤ p
above_all p k [] sorted apart (w, e) = cc
above_all p k ((j, u) ∷ m) sorted apart (w, e) =
    elim (Option-cases (TreeMap.last_key ((j, u) ∷ m))) [
      | inl nothing ↦ absurd (ground (arith, last_key-cons j u m))
      | inr (a, last) ↦
          ground (arith, lookup-last_key k ((j, u) ∷ m) {v = w} sorted e last, apart a last)
    ]

-- A queue at a price that the other side does not cross.
join-IsUncrossed :
    (s : Side) (p : ℤ) (cs : Cells) (v : View)
    → IsSorted (queues v (opposite s))
    → ((a : ℤ) → best_key (opposite s) (queues v (opposite s)) ≡ some a → crosses s a p ≡ false)
    → IsUncrossed v
    → IsUncrossed (put s p cs v)
join-IsUncrossed bid p cs v sorted apart un j k b a = elim (Found-insert p j cs v.bids b) [
  | inl same ↦ subst (λ i. i <ℤ k) same (below_all p k v.asks sorted apart a)
  | inr old ↦ un j k old a
]
join-IsUncrossed ask p cs v sorted apart un j k b a = elim (Found-insert p k cs v.asks a) [
  | inl same ↦ subst (λ i. j <ℤ i) same (above_all p j v.bids sorted apart b)
  | inr old ↦ un j k b old
]

-- The sides of the view that `enqueue` makes, but that of the order, are those before.
queues-enqueue :
    (order : Order) (i : ℕ) (free : List ℕ) (v : View)
    → queues (enqueue order i free v) (opposite order.side) ≡ queues v (opposite order.side)
queues-enqueue order i free v =
    queues-free (put s p (cells v s p ++ (i, order) ∷ []) v) free (opposite s)
    ∙ other s (cells v s p ++ (i, order) ∷ [])
  where
    s : Side
    s = order.side

    p : ℤ
    p = order.price

    other : (s : Side) (cs : Cells) → queues (put s p cs v) (opposite s) ≡ queues v (opposite s)
    other bid cs = refl
    other ask cs = refl

-- An engine with the book invariant and every bid below every ask.
abbrev pub IsSafe : MatchingEngine → Type 0
IsSafe engine = (v : View) × IsBook engine.book v × IsUncrossed v

Ending-IsSafe :
    {taker : Order} {fills : List Fill} {v : View} {q : ℕ} {self : Bool} {added : Added}
    → Ending taker fills v q self added
    → (self ≡ false → 0 < q → Uncrossed taker v)
    → IsUncrossed v
    → IsSafe added.1
Ending-IsSafe {v} (self_trade is) apart un = (v, is, un)
Ending-IsSafe {v} (Ending.filled e is) apart un = (v, is, un)
Ending-IsSafe {taker} {v} {q} (rested {i} {free} more slots fresh is) apart un =
    let s : Side = taker.side in
    let sorted : IsSorted (queues v (opposite s)) =
      subst (λ qs. IsSorted qs) (queues-enqueue (remainder taker q) i free v)
        (is.sorted (opposite s)) in
    (
      enqueue (remainder taker q) i free v,
      is,
      join-IsUncrossed s taker.price (cells v s taker.price ++ (i, remainder taker q) ∷ []) v sorted
          (apart refl more) un,
    )
Ending-IsSafe {v} (duplicate i more once is) apart un = (v, is, un)
Ending-IsSafe {v} (full more slots fresh is) apart un = (v, is, un)

-- On an engine whose book meets the invariant and has every bid below every ask, `add_order` of a
-- positive `u64` quantity returns, whatever it reports, and leaves such an engine.
pub add_order-IsSafe :
    (engine : MatchingEngine) (taker : Order)
    → IsSafe engine
    → 0 < taker.quantity
    → taker.quantity < 18_446_744_073_709_551_616
    → Returns (λ (r, engine'). IsSafe engine') (add_order engine taker)
add_order-IsSafe engine taker (v, is, un) more word =
    mono (add_order-IsAdded engine taker is more word)
      λ added a. Ending-IsSafe a.ending (Sweep-Uncrossed a.sweep) (Sweep-IsUncrossed a.sweep un)
