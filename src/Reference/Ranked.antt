-- ===== src/Reference/Ranked.antt =====
-- `sort_by_key` of the reference's `canonical`: by price, and among equal prices by age.
use ferrox.Prelude.{
  sym, pos_part, neg_part, All, Bool, Bool-cases, ap, arith, eqb_ℤ, false, filter, if◌then◌else◌,
  inl, inr, refl, suc, true, ℕ, ℤ, ◌<◌, ◌∙◌, ◌≡◌, List, [], ◌∷◌,
}
use ferrox.Order.{Side, bid, ask}
use ferrox.Reference.{Resting, same_side, better_price, on_side, insert_by, sort_by, key_le}
use ferrox.Reference.Agrees.{at_is, stands}
use ferrox.Reference.Bounded.{InOrder}
use ferrox.Reference.Prices.{All-map}
use ferrox.Reference.Kept.{InOrder_from}

-- No order beats one that stands before it.
abbrev pub IsRanked : Side → List Resting → Type 0
IsRanked s [] = Unit
IsRanked s (r ∷ rs) =
    All (λ q. better_price s q.order.price r.order.price ≡ false) rs × IsRanked s rs

All-insert_by :
    (P : Resting → Type 0) (le : Resting → Resting → Bool) (r : Resting) (rs : List Resting)
    → P r
    → All P rs
    → All P (insert_by le r rs)
All-insert_by P le r [] p h = (p, tt)
All-insert_by P le r (q ∷ rs) p h = elim (Bool-cases (le r q)) [
  | inl first ↦ rw first (p, h)
  | inr later ↦ rw later (h.0, All-insert_by P le r rs p h.1)
]

pub All-sort_by :
    (P : Resting → Type 0) (le : Resting → Resting → Bool) (rs : List Resting)
    → All P rs
    → All P (sort_by le rs)
All-sort_by P le [] h = tt
All-sort_by P le (r ∷ rs) h = All-insert_by P le r (sort_by le rs) h.0 (All-sort_by P le rs h.1)

not_better_trans :
    (s : Side) (a b c : ℤ)
    → better_price s a b ≡ false
    → better_price s b c ≡ false
    → better_price s a c ≡ false
not_better_trans bid a b c h k = ground arith
not_better_trans ask a b c h k = ground arith

key_le_first :
    (s : Side) (r q : Resting)
    → key_le s r q ≡ true
    → better_price s q.order.price r.order.price ≡ false
key_le_first bid r q e = ground arith
key_le_first ask r q e = ground arith

key_le_later :
    (s : Side) (r q : Resting)
    → key_le s r q ≡ false
    → better_price s r.order.price q.order.price ≡ false
key_le_later bid r q e = ground arith
key_le_later ask r q e = ground arith

IsRanked-insert_by :
    (s : Side) (r : Resting) (rs : List Resting)
    → IsRanked s rs
    → IsRanked s (insert_by (key_le s) r rs)
IsRanked-insert_by s r [] h = (tt, tt)
IsRanked-insert_by s r (q ∷ rs) h = elim (Bool-cases (key_le s r q)) [
  | inl first ↦
      let below = key_le_first s r q first in
      rw first (
        (
          below,
          All-map rs (λ z k. not_better_trans s z.order.price q.order.price r.order.price k below)
              h.0,
        ),
        h,
      )
  | inr later ↦ rw later (
    All-insert_by (λ z. better_price s z.order.price q.order.price ≡ false) (key_le s) r rs
        (key_le_later s r q later) h.0,
    IsRanked-insert_by s r rs h.1,
  )
]

pub IsRanked-sort_by : (s : Side) (rs : List Resting) → IsRanked s (sort_by (key_le s) rs)
IsRanked-sort_by s [] = tt
IsRanked-sort_by s (r ∷ rs) = IsRanked-insert_by s r (sort_by (key_le s) rs) (IsRanked-sort_by s rs)

older_first :
    (s : Side) (p : ℤ) (r q : Resting)
    → r.seq < q.seq
    → stands s p r ≡ true
    → key_le s r q ≡ false
    → stands s p q ≡ false
older_first s p r q older here e = elim (Bool-cases (stands s p q)) [
  | inl there ↦
      let (_, p_r) = at_is r.order.side r.order.price s p here in
      let (_, p_q) = at_is q.order.side q.order.price s p there in
      absurd (clash s (ap pos_part (p_r ∙ sym p_q)) (ap neg_part (p_r ∙ sym p_q)) e)
  | inr away ↦ away
]
  where
    clash :
        (s : Side)
        → pos_part r.order.price ≡ pos_part q.order.price
        → neg_part r.order.price ≡ neg_part q.order.price
        → key_le s r q ≡ false
        → ⊥
    clash bid a b e = ground arith
    clash ask a b e = ground arith

filter-insert_by :
    (s : Side) (p : ℤ) (r : Resting) (rs : List Resting)
    → All (λ q. r.seq < q.seq) rs
    → filter (stands s p) (insert_by (key_le s) r rs) ≡ filter (stands s p) (r ∷ rs)
filter-insert_by s p r [] h = refl
filter-insert_by s p r (q ∷ rs) h = elim (Bool-cases (key_le s r q)) [
  | inl first ↦ rw first refl
  | inr later ↦
      let rest = filter-insert_by s p r rs h.1 in
      rw later (elim (Bool-cases (stands s p r)) [
        | inl here ↦
            let past = older_first s p r q h.0 here later in
            let rest' : filter (stands s p) (insert_by (key_le s) r rs)
                ≡ r ∷ filter (stands s p) rs =
              rw here at rest in
            rw (past, here) rest'
        | inr away ↦
            let rest' : filter (stands s p) (insert_by (key_le s) r rs) ≡ filter (stands s p) rs =
              rw away at rest in
            rw away (ap (λ zs. if stands s p q then q ∷ zs else zs) rest')
      ])
]

All-younger :
    (n lo hi : ℕ) (rs : List Resting) → n < lo → InOrder lo rs hi → All (λ q. n < q.seq) rs
All-younger n lo hi [] h o = tt
All-younger n lo hi (r ∷ rs) h o =
    (omega (arith, o.0), All-younger n (suc r.seq) hi rs (omega (arith, o.0)) o.1)

-- The sort keeps the orders of one price in their order.
pub filter-sort_by :
    (s : Side) (p : ℤ) (lo hi : ℕ) (rs : List Resting)
    → InOrder lo rs hi
    → filter (stands s p) (sort_by (key_le s) rs) ≡ filter (stands s p) rs
filter-sort_by s p lo hi [] o = refl
filter-sort_by s p lo hi (r ∷ rs) o =
    filter-insert_by s p r (sort_by (key_le s) rs) (
      All-sort_by (λ q. r.seq < q.seq) (key_le s) rs
        (All-younger r.seq (suc r.seq) hi rs (omega arith) o.1))
    ∙ ap (λ zs. if stands s p r then r ∷ zs else zs) (filter-sort_by s p (suc r.seq) hi rs o.1)

pub InOrder-on_side :
    (s : Side) (lo hi : ℕ) (rs : List Resting)
    → InOrder lo rs hi
    → InOrder lo (filter (on_side s) rs) hi
InOrder-on_side s lo hi [] o = o
InOrder-on_side s lo hi (r ∷ rs) o =
    let rest = InOrder-on_side s (suc r.seq) hi rs o.1 in
    elim (Bool-cases (same_side r.order.side s)) [
      | inl here ↦ rw here (o.0, rest)
      | inr away ↦
          rw away (InOrder_from (suc r.seq) lo hi (filter (on_side s) rs) (omega (arith, o.0)) rest)
    ]

-- An order that stands at a price of the side is of the side.
pub filter-on_side :
    (s : Side) (p : ℤ) (rs : List Resting)
    → filter (stands s p) (filter (on_side s) rs) ≡ filter (stands s p) rs
filter-on_side s p [] = refl
filter-on_side s p (r ∷ rs) =
    let rest = filter-on_side s p rs in
    elim (Bool-cases (same_side r.order.side s)) [
      | inl here ↦ elim (Bool-cases (eqb_ℤ r.order.price p)) [
        | inl same ↦ rw (here, same, here) (ap (λ zs. r ∷ zs) rest)
        | inr other ↦ rw (here, other, here) rest
      ]
      | inr away ↦ rw away rest
    ]
