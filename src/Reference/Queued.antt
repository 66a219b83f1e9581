-- ===== src/Reference/Queued.antt =====
-- A list of orders by price and age against queues whose prices stand from the best one on.
use mathlib.Core.Path.{subst}
use ferrox.Prelude.{
  append-nil, All, Bool, ap, arith, eqb_ℤ, eqb_ℤ_iff, false, filter, inl, inr, refl, sym, true, ℤ,
  ◌&&◌, ◌++◌, ◌∙◌, ◌≡◌, ◌⊎◌, List, [], ◌∷◌,
}
use ferrox.Order.{Side, bid, ask}
use ferrox.Arena.Seg.{Cells}
use ferrox.Book.Queues.{Queues}
use ferrox.Book.Resting.{orders_of, orders_in}
use ferrox.Reference.{Resting, orders, same_side, better_price}
use ferrox.Reference.Agrees.{stands, filter-All, filter_none, filter-append, orders-append}
use ferrox.Reference.Best.{All-append}
use ferrox.Reference.Prices.{All-map}
use ferrox.Reference.Ranked.{IsRanked}

-- The prices of the queues, the best first.
abbrev pub RankedKeys : Side → Queues → Type 0
RankedKeys s [] = Unit
RankedKeys s ((p, cs) ∷ qs) = All (λ e. better_price s p e.0 ≡ true) qs × RankedKeys s qs

abbrev pub HasKey : ℤ → Queues → Type 0
HasKey p [] = ⊥
HasKey p ((k, cs) ∷ qs) = (k ≡ p) ⊎ HasKey p qs

-- The orders at the price of a queue are those of the queue.
abbrev pub Filled : Side → List Resting → ℤ × Cells → Type 0
Filled s rs e = orders (filter (stands s e.0) rs) ≡ orders_of e.1

-- The orders at the best price, and the others.
record Parts (s : Side) (p : ℤ) (rs : List Resting) : Type 0 where
  front : List Resting
  behind : List Resting
  split : rs ≡ front ++ behind
  front_at : All (λ r. r.order.price ≡ p) front
  worse : All (λ r. better_price s p r.order.price ≡ true) behind

worse_trans :
    (s : Side) (p a b : ℤ)
    → better_price s p a ≡ true
    → better_price s b a ≡ false
    → better_price s p b ≡ true
worse_trans bid p a b h k = ground arith
worse_trans ask p a b h k = ground arith

Parts-IsRanked :
    (s : Side) (p : ℤ) (rs : List Resting)
    → All (λ r. (p ≡ r.order.price) ⊎ (better_price s p r.order.price ≡ true)) rs
    → IsRanked s rs
    → Parts s p rs
Parts-IsRanked s p [] h ranked = record {
  front = [];
  behind = [];
  split = refl;
  front_at = tt;
  worse = tt;
}
Parts-IsRanked s p (r ∷ rs) h ranked =
    let rest = Parts-IsRanked s p rs h.1 ranked.1 in
    elim (h.0) [
      | inl here ↦ record {
        front = r ∷ rest.front;
        behind = rest.behind;
        split = ap (λ zs. r ∷ zs) rest.split;
        front_at = (sym here, rest.front_at);
        worse = rest.worse;
      }
      | inr worse ↦ record {
        front = [];
        behind = r ∷ rs;
        split = refl;
        front_at = tt;
        worse = (
          worse,
          All-map rs (λ q k. worse_trans s p r.order.price q.order.price worse k) ranked.0,
        );
      }
    ]

IsRanked-behind : (s : Side) (xs ys : List Resting) → IsRanked s (xs ++ ys) → IsRanked s ys
IsRanked-behind s [] ys h = h
IsRanked-behind s (x ∷ xs) ys h = IsRanked-behind s xs ys h.1

-- A worse price is another one.
worse_ne : (s : Side) (p k : ℤ) → better_price s p k ≡ true → eqb_ℤ k p ≡ false
worse_ne bid p k h = ground arith
worse_ne ask p k h = ground arith

and_false : (b : Bool) → (b && false) ≡ false
and_false true = refl
and_false false = refl

not_at :
    (s : Side) (p : ℤ) (rs : List Resting)
    → All (λ r. eqb_ℤ r.order.price p ≡ false) rs
    → filter (stands s p) rs ≡ []
not_at s p rs h = filter_none (stands s p) rs (
    All-map rs
      (λ r e. ap (λ b. same_side r.order.side s && b) e ∙ and_false (same_side r.order.side s)) h)

key_or_worse :
    (s : Side) (p k : ℤ) (qs : Queues)
    → All (λ e. better_price s p e.0 ≡ true) qs
    → HasKey k qs
    → better_price s p k ≡ true
key_or_worse s p k [] h at = absurd at
key_or_worse s p k ((j, cs) ∷ qs) h (inl same) = subst (λ i. better_price s p i ≡ true) same h.0
key_or_worse s p k ((j, cs) ∷ qs) h (inr later) = key_or_worse s p k qs h.1 later

drop_key :
    (s : Side) (p k : ℤ) (cs : Cells) (qs : Queues)
    → better_price s p k ≡ true
    → HasKey k ((p, cs) ∷ qs)
    → HasKey k qs
drop_key s p k cs qs worse (inl same) =
    let other = worse_ne s p k worse in absurd (ground (arith, eqb_ℤ_iff k p))
drop_key s p k cs qs worse (inr later) = later

pub All-zip :
    {A : Type 0} {P Q R : A → Type 0} (xs : List A)
    → ((x : A) → P x → Q x → R x)
    → All P xs
    → All Q xs
    → All R xs
All-zip [] f h k = tt
All-zip (x ∷ xs) f h k = (f x h.0 k.0, All-zip xs f h.1 k.1)

module _ (s : Side) (p : ℤ) (xs ys : List Resting)
    (side : All (λ r. same_side r.order.side s ≡ true) (xs ++ ys))
    (front_at : All (λ r. r.order.price ≡ p) xs)
    (worse : All (λ r. better_price s p r.order.price ≡ true) ys) where
  filter_first : filter (stands s p) (xs ++ ys) ≡ xs
  filter_first =
      let (on, _) = All-append (λ r. same_side r.order.side s ≡ true) xs ys side in
      filter-append (stands s p) xs ys
      ∙ ap (λ zs. zs ++ filter (stands s p) ys)
          (filter-All (stands s p) xs (
            All-zip xs
              (λ r a b. ap (λ t. t && eqb_ℤ r.order.price p) a ∙ (eqb_ℤ_iff r.order.price p).1 b) on
              front_at))
      ∙ ap (λ zs. xs ++ zs) (not_at s p ys (All-map ys (λ r w. worse_ne s p r.order.price w) worse))
      ∙ append-nil xs

  filter_later :
      (k : ℤ) → better_price s p k ≡ true → filter (stands s k) (xs ++ ys) ≡ filter (stands s k) ys
  filter_later k w =
      let other = worse_ne s p k w in
      filter-append (stands s k) xs ys
      ∙ ap (λ zs. zs ++ filter (stands s k) ys)
          (not_at s k xs
            (All-map xs (λ r e. ground (arith, eqb_ℤ_iff k p, eqb_ℤ_iff r.order.price k)) front_at))

-- Orders by price and age, which stand at the prices of the queues, are the orders of the queues.
pub orders-orders_in :
    (s : Side) (qs : Queues) (rs : List Resting)
    → RankedKeys s qs
    → IsRanked s rs
    → All (λ r. same_side r.order.side s ≡ true) rs
    → All (λ r. HasKey r.order.price qs) rs
    → All (λ e. Filled s rs e) qs
    → orders rs ≡ orders_in qs
orders-orders_in s [] [] keys ranked side has queue = refl
orders-orders_in s [] (r ∷ rs) keys ranked side has queue = absurd has.0
orders-orders_in s ((p, cs) ∷ qs) rs keys ranked side has queue =
    let parts = Parts-IsRanked s p rs (All-map rs (λ r k. first_or_worse r k) has) ranked in
    go parts.front parts.behind parts.split parts.front_at parts.worse
      (orders-orders_in s qs parts.behind keys.1)
  where
    first_or_worse :
        (r : Resting)
        → HasKey r.order.price ((p, cs) ∷ qs)
        → (p ≡ r.order.price) ⊎ (better_price s p r.order.price ≡ true)
    first_or_worse r (inl same) = inl same
    first_or_worse r (inr later) = inr (key_or_worse s p r.order.price qs keys.0 later)

    go :
        (xs ys : List Resting)
        → rs ≡ xs ++ ys
        → All (λ r. r.order.price ≡ p) xs
        → All (λ r. better_price s p r.order.price ≡ true) ys
        → (IsRanked s ys
            → All (λ r. same_side r.order.side s ≡ true) ys
            → All (λ r. HasKey r.order.price qs) ys
            → All (λ e. Filled s ys e) qs
            → orders ys ≡ orders_in qs)
        → orders rs ≡ orders_in ((p, cs) ∷ qs)
    go xs ys split at worse rest =
        let side' = subst (λ zs. All (λ r. same_side r.order.side s ≡ true) zs) split side in
        let has' = subst (λ zs. All (λ r. HasKey r.order.price ((p, cs) ∷ qs)) zs) split has in
        let queue' = subst (λ zs. All (λ e. Filled s zs e) ((p, cs) ∷ qs)) split queue in
        let (_, side_ys) = All-append (λ r. same_side r.order.side s ≡ true) xs ys side' in
        let (_, has_ys) = All-append (λ r. HasKey r.order.price ((p, cs) ∷ qs)) xs ys has' in
        let first : orders xs ≡ orders_of cs =
          ap orders (sym (filter_first s p xs ys side' at worse)) ∙ queue'.0 in
        let more =
          rest (IsRanked-behind s xs ys (subst (IsRanked s) split ranked)) side_ys
            (All-zip ys (λ r w k. drop_key s p r.order.price cs qs w k) worse has_ys)
            (All-zip qs (λ e w f. ap orders (sym (filter_later s p xs ys side' at worse e.0 w)) ∙ f)
              keys.0 queue'.1) in
        ap orders split
        ∙ orders-append xs ys
        ∙ ap (λ os. os ++ orders ys) first
        ∙ ap (λ os. orders_of cs ++ os) more
