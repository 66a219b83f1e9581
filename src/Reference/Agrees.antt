-- ===== src/Reference/Agrees.antt =====
-- When a flat list of resting orders stands for a view: at each side and price it has the same
-- orders in the same order.
use mathlib.Core.Path.{subst}
use ferrox.Prelude.{
  All, Bool, Bool-cases, ap, append-nil, eqb_ℤ_iff, eqb_ℤ_refl, false, filter, inl, inr, refl, sym,
  true, ℕ, ℤ, ◌++◌, ◌∙◌, ◌≡◌, List, [], ◌∷◌,
}
use ferrox.Order.{Side, bid, ask}
use ferrox.Arena.Seg.{Cells}
use ferrox.Book.View.{View}
use ferrox.Book.Change.{cells}
use ferrox.Book.Resting.{orders_of}
use ferrox.Reference.{Resting, orders}
use ferrox.Reference.Views.{at, Becomes}

abbrev pub stands : Side → ℤ → Resting → Bool
stands s p r = at r.order.side r.order.price s p

abbrev pub Agrees : List Resting → View → Type 0
Agrees rs v = (s : Side) (p : ℤ) → orders (filter (stands s p) rs) ≡ orders_of (cells v s p)

pub at_is : (s : Side) (p : ℤ) (t : Side) (q : ℤ) → at s p t q ≡ true → (s ≡ t) × (p ≡ q)
at_is bid p bid q e = (refl, (eqb_ℤ_iff p q).0 e)
at_is bid p ask q e = cc
at_is ask p bid q e = cc
at_is ask p ask q e = (refl, (eqb_ℤ_iff p q).0 e)

pub at_refl : (s : Side) (p : ℤ) → at s p s p ≡ true
at_refl bid p = eqb_ℤ_refl p
at_refl ask p = eqb_ℤ_refl p

module _ {A : Type 0} (t : A → Bool) where
  pub filter-append : (xs ys : List A) → filter t (xs ++ ys) ≡ filter t xs ++ filter t ys
  filter-append [] ys = refl
  filter-append (x ∷ xs) ys =
      let rest = filter-append xs ys in
      elim (Bool-cases (t x)) [
        | inl here ↦ rw here (ap (λ zs. x ∷ zs) rest)
        | inr away ↦ rw away rest
      ]

  pub filter-All : (xs : List A) → All (λ x. t x ≡ true) xs → filter t xs ≡ xs
  filter-All [] h = refl
  filter-All (x ∷ xs) h = rw h.0 (ap (λ zs. x ∷ zs) (filter-All xs h.1))

  pub filter_none : (xs : List A) → All (λ x. t x ≡ false) xs → filter t xs ≡ []
  filter_none [] h = refl
  filter_none (x ∷ xs) h = rw h.0 (filter_none xs h.1)

pub orders-append : (xs ys : List Resting) → orders (xs ++ ys) ≡ orders xs ++ orders ys
orders-append [] ys = refl
orders-append (x ∷ xs) ys = ap (λ os. x.order ∷ os) (orders-append xs ys)

pub orders_of-append : (xs ys : Cells) → orders_of (xs ++ ys) ≡ orders_of xs ++ orders_of ys
orders_of-append [] ys = refl
orders_of-append ((i, o) ∷ xs) ys = ap (λ os. o ∷ os) (orders_of-append xs ys)

-- The orders that stand here, part by part.
orders_here :
    (s : Side) (p : ℤ) (xs ys : List Resting)
    → orders (filter (stands s p) (xs ++ ys))
      ≡ orders (filter (stands s p) xs) ++ orders (filter (stands s p) ys)
orders_here s p xs ys =
    ap orders (filter-append (stands s p) xs ys)
    ∙ orders-append (filter (stands s p) xs) (filter (stands s p) ys)

-- They are all at this side and price.
abbrev pub AllAt : Side → ℤ → List Resting → Type 0
AllAt s p = All (λ r. (r.order.side ≡ s) × (r.order.price ≡ p))

AllAt-stands :
    (s : Side) (p : ℤ) (t : Side) (q : ℤ) (b : Bool) (zs : List Resting)
    → at s p t q ≡ b
    → AllAt s p zs
    → All (λ r. stands t q r ≡ b) zs
AllAt-stands s p t q b [] e h = tt
AllAt-stands s p t q b (z ∷ zs) e h = (
  ap (λ k. at k z.order.price t q) h.0.0 ∙ ap (λ k. at s k t q) h.0.1 ∙ e,
  AllAt-stands s p t q b zs e h.1,
)

module _ (v v' : View) (s : Side) (p : ℤ) (cs : Cells) (change : Becomes v s p cs v') where
  -- Some orders of one side and price are exchanged for others.
  pub Agrees-change :
      (xs gone zs ys : List Resting)
      → AllAt s p gone
      → AllAt s p zs
      → orders (filter (stands s p) xs) ++ (orders zs ++ orders (filter (stands s p) ys))
        ≡ orders_of cs
      → Agrees (xs ++ (gone ++ ys)) v
      → Agrees (xs ++ (zs ++ ys)) v'
  Agrees-change xs gone zs ys gone_at zs_at made agrees t q = elim (Bool-cases (at s p t q)) [
    | inl here ↦
        let (s_is, p_is) = at_is s p t q here in
        let all = filter-All (stands t q) zs (AllAt-stands s p t q true zs here zs_at) in
        let moved : orders (filter (stands t q) xs)
              ++ (orders zs ++ orders (filter (stands t q) ys))
            ≡ orders_of cs =
          subst
            (λ k.
              orders (filter (stands t k) xs) ++ (orders zs ++ orders (filter (stands t k) ys))
              ≡ orders_of cs)
            p_is
            (subst
              (λ k.
                orders (filter (stands k p) xs) ++ (orders zs ++ orders (filter (stands k p) ys))
                ≡ orders_of cs)
              s_is made) in
        let now : cells v' t q ≡ cs = change t q ∙ rw here in
        orders_here t q xs (zs ++ ys)
        ∙ ap (λ os. orders (filter (stands t q) xs) ++ os)
            (orders_here t q zs ys ∙ ap (λ rs. orders rs ++ orders (filter (stands t q) ys)) all)
        ∙ moved
        ∙ ap orders_of (sym now)
    | inr away ↦
        let none_z = filter_none (stands t q) zs (AllAt-stands s p t q false zs away zs_at) in
        let none_g = filter_none (stands t q) gone (AllAt-stands s p t q false gone away gone_at) in
        let now : cells v' t q ≡ cells v t q = change t q ∙ rw away in
        orders_here t q xs (zs ++ ys)
        ∙ ap (λ os. orders (filter (stands t q) xs) ++ os)
            (orders_here t q zs ys
              ∙ ap (λ rs. orders rs ++ orders (filter (stands t q) ys)) (none_z ∙ sym none_g)
              ∙ sym (orders_here t q gone ys))
        ∙ sym (orders_here t q xs (gone ++ ys))
        ∙ agrees t q
        ∙ ap orders_of (sym now)
  ]

-- An order behind all others.
pub Agrees-push :
    (rs : List Resting) (r : Resting) (i : ℕ) (v v' : View)
    → Becomes v r.order.side r.order.price
        (cells v r.order.side r.order.price ++ (i, r.order) ∷ [])
        v'
    → Agrees rs v
    → Agrees (rs ++ r ∷ []) v'
Agrees-push rs r i v v' change agrees =
    let s : Side = r.order.side in
    let p : ℤ = r.order.price in
    let cs : Cells = cells v s p ++ (i, r.order) ∷ [] in
    let made : orders (filter (stands s p) rs) ++ (r.order ∷ []) ≡ orders_of cs =
      ap (λ os. os ++ r.order ∷ []) (agrees s p)
      ∙ sym (orders_of-append (cells v s p) ((i, r.order) ∷ [])) in
    Agrees-change v v' s p cs change rs [] (r ∷ []) [] tt ((refl, refl), tt) made
      (subst (λ zs. Agrees zs v) (sym (append-nil rs)) agrees)
