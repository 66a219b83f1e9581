-- ===== src/Reference/Best.antt =====
-- `best_index` finds the order that the queues of a view offer first.
use mathlib.Core.Path.{subst}
use ferrox.Prelude.{
  sym, Option, arith, eqb_ℤ, length, ltb, none, ◌&&◌, ◌+◌, ◌<◌, All, Bool, Bool-cases, ap, false,
  filter, inl, inr, refl, some, suc, true, ℕ, ◌++◌, ◌∙◌, ◌≡◌, List, [], ◌∷◌,
}
use ferrox.Order.{Order, Side, bid, ask}
use ferrox.Collections.TreeMap
use ferrox.Book.Queues.{or_empty}
use ferrox.Book.View.{best, View, queues}
use ferrox.Book.Resting.{orders_of}
use ferrox.Matching.Sweep.{Front}
use ferrox.Reference.{
  Resting, same_side, better, better_price, pick, best_from, best_index, orders, index_of,
}
use ferrox.Reference.Views.{IsTidy}
use ferrox.Reference.Agrees.{stands, Agrees}
use ferrox.Reference.Bounded.{InOrder, First, First-filter, Bounded, All-Bounded}

-- What follows the best order does not take its place.
best_from-behind :
    (s : Side) (i b : ℕ) (r : Resting) (ys : List Resting)
    → All (λ q. same_side q.order.side s ≡ true → better s q r ≡ false) ys
    → best_from s i ys (some (b, r)) ≡ some (b, r)
best_from-behind s i b r [] h = refl
best_from-behind s i b r (q ∷ ys) h = elim (Bool-cases (same_side q.order.side s)) [
  | inl here ↦ rw (here, h.0 here) (best_from-behind s (suc i) b r ys h.1)
  | inr away ↦ rw away (best_from-behind s (suc i) b r ys h.1)
]

-- It takes the place of whatever comes before it.
abbrev Weaker : Side → Resting → Option (ℕ × Resting) → Type 0
Weaker s r none = Unit
Weaker s r (some (b, cur)) = better s r cur ≡ true

pick-Weaker :
    (s : Side) (r q : Resting) (i : ℕ) (best : Option (ℕ × Resting))
    → Weaker s r best
    → better s r q ≡ true
    → Weaker s r (pick s i q best)
pick-Weaker s r q i none w b = b
pick-Weaker s r q i (some (k, cur)) w b = elim (Bool-cases (better s q cur)) [
  | inl yes' ↦ rw yes' b
  | inr no' ↦ rw no' w
]

pick_best :
    (s : Side) (r : Resting) (i : ℕ) (best : Option (ℕ × Resting))
    → Weaker s r best
    → pick s i r best ≡ some (i, r)
pick_best s r i none w = refl
pick_best s r i (some (k, cur)) w = rw w

best_from-before :
    (s : Side) (i : ℕ) (r : Resting) (xs ys : List Resting) (best : Option (ℕ × Resting))
    → same_side r.order.side s ≡ true
    → Weaker s r best
    → All (λ q. same_side q.order.side s ≡ true → better s r q ≡ true) xs
    → best_from s i (xs ++ (r ∷ ys)) best
      ≡ best_from s (suc (i + length xs)) ys (some (i + length xs, r))
best_from-before s i r [] ys best side w h =
    let there : i ≡ i + 0 = omega arith in
    rw (side, best_from)
      (ap (λ (o : Option (ℕ × Resting)). best_from s (suc i) ys o) (pick_best s r i best w)
        ∙ ap (λ (k : ℕ). best_from s (suc k) ys (some (k, r))) there)
best_from-before s i r (q ∷ xs) ys best side w h =
    let there : suc i + length xs ≡ i + suc (length xs) = omega arith in
    elim (Bool-cases (same_side q.order.side s)) [
      | inl here ↦
          rw (here, best_from)
            (best_from-before s (suc i) r xs ys (pick s i q best) side
                (pick-Weaker s r q i best w (h.0 here)) h.1
              ∙ ap (λ (k : ℕ). best_from s (suc k) ys (some (k, r))) there)
      | inr away ↦
          rw (away, best_from)
            (best_from-before s (suc i) r xs ys best side w h.1
              ∙ ap (λ (k : ℕ). best_from s (suc k) ys (some (k, r))) there)
    ]

pub same_side_is : (s t : Side) → same_side s t ≡ true → s ≡ t
same_side_is bid bid e = refl
same_side_is bid ask e = cc
same_side_is ask bid e = cc
same_side_is ask ask e = refl

pub same_side_refl : (s : Side) → same_side s s ≡ true
same_side_refl bid = refl
same_side_refl ask = refl

-- Orders before the best one are strictly worse, those behind are no better.
All-Weaker :
    (s : Side) (r : Resting) (xs : List Resting)
    → All (Bounded s r.order.price) xs
    → All (λ q. stands s r.order.price q ≡ false) xs
    → All (λ q. same_side q.order.side s ≡ true → better s r q ≡ true) xs
All-Weaker s r [] bounded out = tt
All-Weaker s r (q ∷ xs) bounded out = (
  λ side. beats s r q (bounded.0 (same_side_is q.order.side s side)) (rw side at out.0),
  All-Weaker s r xs bounded.1 out.1,
)
  where
    beats :
        (s : Side) (r q : Resting)
        → better_price s q.order.price r.order.price ≡ false
        → eqb_ℤ q.order.price r.order.price ≡ false
        → better s r q ≡ true
    beats bid r q no_better other = ground arith
    beats ask r q no_better other = ground arith

All-behind :
    (s : Side) (r : Resting) (ys : List Resting) (hi : ℕ)
    → All (Bounded s r.order.price) ys
    → (lo : ℕ) → r.seq < lo
    → InOrder lo ys hi
    → All (λ q. same_side q.order.side s ≡ true → better s q r ≡ false) ys
All-behind s r [] hi bounded lo above order = tt
All-behind s r (q ∷ ys) hi bounded lo above order = (
  λ side.
      let b = bounded.0 (same_side_is q.order.side s side) in
      let older : ltb q.seq r.seq ≡ false = ground arith in
      rw (b, older) (and_false (eqb_ℤ q.order.price r.order.price)),
  All-behind s r ys hi bounded.1 (suc q.seq) (omega arith) order.1,
)
  where
    and_false : (b : Bool) → (b && false) ≡ false
    and_false true = refl
    and_false false = refl

pub All-append :
    {A : Type 0} (P : A → Type 0) (xs ys : List A) → All P (xs ++ ys) → All P xs × All P ys
All-append P [] ys h = (tt, h)
All-append P (x ∷ xs) ys h = let (a, b) = All-append P xs ys h.1 in ((h.0, a), b)

pub InOrder-behind :
    (lo hi : ℕ) (xs : List Resting) (r : Resting) (ys : List Resting)
    → InOrder lo (xs ++ (r ∷ ys)) hi
    → InOrder (suc r.seq) ys hi
InOrder-behind lo hi [] r ys h = h.1
InOrder-behind lo hi (x ∷ xs) r ys h = InOrder-behind (suc x.seq) hi xs r ys h.1

-- The oldest order at the best price, and what stands round it.
pub record IsFirst (s : Side) (rs : List Resting) (o : Order) (os : List Order) : Type 0 where
  pub first : First (stands s o.price) rs o os
  pub index_is : best_index s rs ≡ some (length first.before)

-- The scan of a list that stands for a view finds the order that the view offers first.
pub best_index-IsFirst :
    {v : View} (lo hi : ℕ) (s : Side) (rs : List Resting)
    → IsTidy v
    → Agrees rs v
    → InOrder lo rs hi
    → (f : Front v s) → f.order.price ≡ f.price
    → f.order.side ≡ s
    → IsFirst s rs f.order (orders_of f.behind)
unfolding best_index
best_index-IsFirst {v} lo hi s rs is agrees order f price side =
    let queue : orders (filter (stands s f.order.price) rs) ≡ f.order ∷ orders_of f.behind =
      agrees s f.order.price
      ∙ ap (λ o. orders_of (or_empty o))
          (ap (λ k. TreeMap.lookup k (queues v s)) price ∙ f.queue) in
    let first = First-filter (stands s f.order.price) rs queue in
    let r : Resting = first.here in
    let price_is : r.order.price ≡ f.order.price = ap (λ (o : Order). o.price) first.order_is in
    let side_is : r.order.side ≡ s = ap (λ (o : Order). o.side) first.order_is ∙ side in
    let bounded : All (Bounded s r.order.price) (first.before ++ (r ∷ first.behind)) =
      subst (λ zs. All (Bounded s r.order.price) zs) first.split
        (All-Bounded is rs agrees s r.order.price (f.is_best ∙ ap some (sym (price_is ∙ price)))) in
    let (front, back) =
      All-append (Bounded s r.order.price) first.before (r ∷ first.behind) bounded in
    let weaker = All-Weaker s r first.before front (
      subst (λ k. All (λ q. stands s k q ≡ false) first.before) (sym price_is) first.none_before) in
    let later = All-behind s r first.behind hi back.1 (suc r.seq) (omega arith) (
      InOrder-behind lo hi first.before r first.behind
        (subst (λ zs. InOrder lo zs hi) first.split order)) in
    let on : same_side r.order.side s ≡ true =
      subst (λ t. same_side t s ≡ true) (sym side_is) (same_side_refl s) in
    record {
      first = first;
      index_is =
          ap (λ zs. index_of (best_from s 0 zs none)) first.split
          ∙ ap index_of (
              best_from-before s 0 r first.before first.behind none on tt weaker
              ∙ best_from-behind s (suc (0 + length first.before)) (0 + length first.before) r
                  first.behind later)
          ∙ ap (λ (k : ℕ). some k) (omega arith);
    }
