-- ===== src/Reference/Position.antt =====
-- Where the flat list has the order of an id.
use mathlib.Core.Path.{subst}
use mathlib.Core.List.{Memᴰ}
use mathlib.Core.List.Memᴰ
use ferrox.Prelude.{
  arith, false, length, none, refl, some, sym, ℤ, ◌==◌, ◌∙◌, ◌≢◌, Bool, Bool-cases, ap, filter, inl,
  inr, true, ℕ, ◌++◌, ◌≡◌, List, [], ◌∷◌,
}
use ferrox.Order.{Order, Side}
use ferrox.Arena.Seg.{Cells}
use ferrox.Collections.TreeMap
use ferrox.Book.View.{View, queues, pairs, total_of}
use ferrox.Book.Queues.{or_empty}
use ferrox.Book.Change.{cells, total_of-cells}
use ferrox.Book.Resting.{orders_of}
use ferrox.Reference.{Resting, orders, position}
use ferrox.Reference.Agrees.{stands, at_refl}
use ferrox.Reference.Bounded.{All-Mem, has_queue}
use ferrox.Reference.Kept.{Fresh}
use ferrox.Reference.Maker.{Stands}
use ferrox.Reference.Add.{NoId}

-- An order of the list, and what stands round it.
pub record Middle (t : Resting → Bool) (rs : List Resting) (os : List Order) (o : Order)
    (ps : List Order) : Type 0 where
  pub before : List Resting
  pub seq : ℕ
  pub behind : List Resting
  pub split : rs ≡ before ++ (record { order = o; seq = seq } ∷ behind)
  pub passes : t (record { order = o; seq = seq }) ≡ true
  pub in_front : orders (filter t before) ≡ os
  pub rest : orders (filter t behind) ≡ ps

module _ {t : Resting → Bool} {rs : List Resting} {o : Order} {ps : List Order} (r : Resting) where
  pub Middle-away :
      {os : List Order} → t r ≡ false → Middle t rs os o ps → Middle t (r ∷ rs) os o ps
  Middle-away away m = record {
    before = r ∷ m.before;
    seq = m.seq;
    behind = m.behind;
    split = ap (λ zs. r ∷ zs) m.split;
    passes = m.passes;
    in_front = rw away m.in_front;
    rest = m.rest;
  }

  pub Middle-next :
      {p : Order} {os : List Order}
      → t r ≡ true
      → r.order ≡ p
      → Middle t rs os o ps
      → Middle t (r ∷ rs) (p ∷ os) o ps
  Middle-next {p} {os} here first m = record {
    before = r ∷ m.before;
    seq = m.seq;
    behind = m.behind;
    split = ap (λ zs. r ∷ zs) m.split;
    passes = m.passes;
    in_front = rw (here, m.in_front) (ap (λ k. k ∷ os) first);
    rest = m.rest;
  }

  pub Middle-here : t r ≡ true → r.order ≡ o → orders (filter t rs) ≡ ps → Middle t (r ∷ rs) [] o ps
  Middle-here here same rest = record {
    before = [];
    seq = r.seq;
    behind = rs;
    split = ap (λ k. record { order = k; seq = r.seq } ∷ rs) same;
    passes = ap (λ k. t (record { order = k; seq = r.seq })) (sym same) ∙ here;
    in_front = refl;
    rest = rest;
  }

pub Middle-filter :
    (t : Resting → Bool) (rs : List Resting) (os : List Order) {o : Order} {ps : List Order}
    → orders (filter t rs) ≡ os ++ (o ∷ ps)
    → Middle t rs os o ps
Middle-filter t [] [] e = cc
Middle-filter t [] (p ∷ os) e = cc
Middle-filter t (r ∷ rs) [] {o} {ps} e = elim (Bool-cases (t r)) [
  | inl here ↦
      let e' : r.order ∷ orders (filter t rs) ≡ o ∷ ps = rw here at e in
      let same : r.order ≡ o = cc in
      let rest : orders (filter t rs) ≡ ps = cc in Middle-here r here same rest
  | inr away ↦ Middle-away r away (Middle-filter t rs [] {o = o} {ps = ps} (rw away at e))
]
Middle-filter t (r ∷ rs) (p ∷ os) {o} {ps} e = elim (Bool-cases (t r)) [
  | inl here ↦
      let e' : r.order ∷ orders (filter t rs) ≡ p ∷ (os ++ (o ∷ ps)) = rw here at e in
      let first : r.order ≡ p = cc in
      let rest : orders (filter t rs) ≡ os ++ (o ∷ ps) = cc in
      Middle-next r here first (Middle-filter t rs os {o = o} {ps = ps} rest)
  | inr away ↦ Middle-away r away (Middle-filter t rs (p ∷ os) {o = o} {ps = ps} (rw away at e))
]

-- Cells without an order of the id.
pub NoId-orders_of : (id : ℕ) (cs : Cells) → ((i : ℕ) → pairs id i cs ≡ 0) → NoId id (orders_of cs)
NoId-orders_of id [] none_of = tt
NoId-orders_of id ((j, o) ∷ cs) none_of = (
  λ e. let here = none_of j in absurd (ground arith),
  NoId-orders_of id cs (λ i. omega (arith, none_of i)),
)

pub NoId-Memᴰ :
    (id : ℕ) (t : Resting → Bool) (rs : List Resting) (r : Resting)
    → Memᴰ r rs
    → t r ≡ true
    → NoId id (orders (filter t rs))
    → r.order.id ≢ id
NoId-Memᴰ id t [] r m e f = elim m [ ]
NoId-Memᴰ id t (q ∷ rs) r m e f = elim (Bool-cases (t q)) [
  | inl here ↦
      let f' : NoId id (q.order ∷ orders (filter t rs)) = rw here at f in
      elim (Memᴰ.cases_cons m) [
        | inl same ↦ subst (λ (z : Resting). z.order.id ≢ id) (sym same) f'.0
        | inr later ↦ NoId-Memᴰ id t rs r later e f'.1
      ]
  | inr away ↦
      let f' : NoId id (orders (filter t rs)) = rw away at f in
      elim (Memᴰ.cases_cons m) [
        | inl same ↦ let e' : t r ≡ false = ap t same ∙ away in cc
        | inr later ↦ NoId-Memᴰ id t rs r later e f'
      ]
]

-- An id that the view does not have, the list does not have.
pub Fresh-pairs :
    {cap hi : ℕ} {v : View} {rs : List Resting} (id : ℕ)
    → Stands cap hi v rs
    → ((i : ℕ) → total_of (pairs id i) v ≡ 0)
    → Fresh id rs
Fresh-pairs {v} {rs} id st none_of = All-Mem rs λ r m.
    let s : Side = r.order.side in
    let p : ℤ = r.order.price in
    let (cs, found) = has_queue st.tidy rs st.agrees s r m refl in
    let there : orders (filter (stands s p) rs) ≡ orders_of cs =
      st.agrees s p ∙ ap (λ o. orders_of (or_empty o)) found in
    let empty = NoId-orders_of id cs (λ i. no_cell s p cs i found) in
    NoId-Memᴰ id (stands s p) rs r m (at_refl s p) (subst (NoId id) (sym there) empty)
  where
    no_cell :
        (s : Side) (p : ℤ) (cs : Cells) (i : ℕ)
        → TreeMap.lookup p (queues v s) ≡ some cs
        → pairs id i cs ≡ 0
    no_cell s p cs i found =
        let whole : cells v s p ≡ cs = ap or_empty found in
        let same = ap (pairs id i) whole in
        omega (arith, none_of i, total_of-cells (pairs id i) s p v refl)

pub position-none : (id : ℕ) (rs : List Resting) → Fresh id rs → position id rs ≡ none
position-none id [] f = refl
position-none id (r ∷ rs) f =
    let other : (r.order.id == id) ≡ false = let ne = f.0 in ground arith in
    rw (other, position-none id rs f.1) refl

pub position_middle :
    (id : ℕ) (xs : List Resting) (r : Resting) (ys : List Resting)
    → Fresh id xs
    → r.order.id ≡ id
    → position id (xs ++ (r ∷ ys)) ≡ some (length xs)
position_middle id [] r ys f e = let same : (r.order.id == id) ≡ true = ground arith in rw same refl
position_middle id (x ∷ xs) r ys f e =
    let other : (x.order.id == id) ≡ false = let ne = f.0 in ground arith in
    rw (other, position_middle id xs r ys f.1 e) refl
