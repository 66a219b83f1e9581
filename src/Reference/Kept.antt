-- ===== src/Reference/Kept.antt =====
-- What stays true of the flat list when an order is removed, changed or pushed.
use mathlib.Core.Path.{subst}
use ferrox.Prelude.{
  All, ap, arith, get_elem?, length, refl, set, some, suc, sym, ℕ, ◌++◌, ◌+◌, ◌∙◌, ◌≡◌, ◌≢◌, ◌≤◌,
  List, [], ◌∷◌,
}
use ferrox.Reference.{Resting, remove_at}
use ferrox.Reference.Bounded.{InOrder}

-- No other order has this id.
abbrev pub Fresh : ℕ → List Resting → Type 0
Fresh id = All (λ r. r.order.id ≢ id)

-- Each id stands once.
abbrev pub UniqIds : List Resting → Type 0
UniqIds [] = Unit
UniqIds (r ∷ rs) = Fresh r.order.id rs × UniqIds rs

module _ {A : Type 0} where
  pub get_elem?_middle :
      (xs : List A) (r : A) (ys : List A) → get_elem? (xs ++ (r ∷ ys)) (length xs) ≡ some r
  get_elem?_middle [] r ys = refl
  get_elem?_middle (x ∷ xs) r ys = get_elem?_middle xs r ys

  pub set_middle :
      (xs : List A) (r q : A) (ys : List A) → set (xs ++ (r ∷ ys)) (length xs) q ≡ xs ++ (q ∷ ys)
  set_middle [] r q ys = refl
  set_middle (x ∷ xs) r q ys = ap (λ zs. x ∷ zs) (set_middle xs r q ys)

  module _ (P : A → Type 0) where
    pub All-remove : (xs : List A) (r : A) (ys : List A) → All P (xs ++ (r ∷ ys)) → All P (xs ++ ys)
    All-remove [] r ys h = h.1
    All-remove (x ∷ xs) r ys h = (h.0, All-remove xs r ys h.1)

    pub All-replace :
        (xs : List A) (r q : A) (ys : List A)
        → (P r → P q)
        → All P (xs ++ (r ∷ ys))
        → All P (xs ++ (q ∷ ys))
    All-replace [] r q ys f h = (f h.0, h.1)
    All-replace (x ∷ xs) r q ys f h = (h.0, All-replace xs r q ys f h.1)

    pub All-push : (xs : List A) (r : A) → P r → All P xs → All P (xs ++ r ∷ [])
    All-push [] r p h = (p, tt)
    All-push (x ∷ xs) r p h = (h.0, All-push xs r p h.1)

pub remove_at_middle :
    (xs : List Resting) (r : Resting) (ys : List Resting)
    → remove_at (length xs) (xs ++ (r ∷ ys)) ≡ xs ++ ys
remove_at_middle [] r ys = refl
remove_at_middle (x ∷ xs) r ys = ap (λ zs. x ∷ zs) (remove_at_middle xs r ys)

pub InOrder_from :
    (lo lo' hi : ℕ) (rs : List Resting) → lo' ≤ lo → InOrder lo rs hi → InOrder lo' rs hi
InOrder_from lo lo' hi [] h o = omega arith
InOrder_from lo lo' hi (r ∷ rs) h o = (omega (arith, o.0), o.1)

pub InOrder-remove :
    (lo hi : ℕ) (xs : List Resting) (r : Resting) (ys : List Resting)
    → InOrder lo (xs ++ (r ∷ ys)) hi
    → InOrder lo (xs ++ ys) hi
InOrder-remove lo hi [] r ys o = InOrder_from (suc r.seq) lo hi ys (omega (arith, o.0)) o.1
InOrder-remove lo hi (x ∷ xs) r ys o = (o.0, InOrder-remove (suc x.seq) hi xs r ys o.1)

pub InOrder-replace :
    (lo hi : ℕ) (xs : List Resting) (r q : Resting) (ys : List Resting)
    → q.seq ≡ r.seq
    → InOrder lo (xs ++ (r ∷ ys)) hi
    → InOrder lo (xs ++ (q ∷ ys)) hi
InOrder-replace lo hi [] r q ys e o =
    (omega (arith, o.0, e), InOrder_from (suc r.seq) (suc q.seq) hi ys (omega (arith, e)) o.1)
InOrder-replace lo hi (x ∷ xs) r q ys e o = (o.0, InOrder-replace (suc x.seq) hi xs r q ys e o.1)

pub InOrder-push :
    (lo hi : ℕ) (rs : List Resting) (r : Resting)
    → r.seq ≡ hi
    → InOrder lo rs hi
    → InOrder lo (rs ++ r ∷ []) (hi + 1)
InOrder-push lo hi [] r e o = (omega arith, omega arith)
InOrder-push lo hi (x ∷ xs) r e o = (o.0, InOrder-push (suc x.seq) hi xs r e o.1)

pub UniqIds-remove :
    (xs : List Resting) (r : Resting) (ys : List Resting)
    → UniqIds (xs ++ (r ∷ ys))
    → UniqIds (xs ++ ys)
UniqIds-remove [] r ys u = u.1
UniqIds-remove (x ∷ xs) r ys u =
    (All-remove (λ z. z.order.id ≢ x.order.id) xs r ys u.0, UniqIds-remove xs r ys u.1)

pub UniqIds-replace :
    (xs : List Resting) (r q : Resting) (ys : List Resting)
    → q.order.id ≡ r.order.id
    → UniqIds (xs ++ (r ∷ ys))
    → UniqIds (xs ++ (q ∷ ys))
UniqIds-replace [] r q ys e u = (subst (λ id. Fresh id ys) (sym e) u.0, u.1)
UniqIds-replace (x ∷ xs) r q ys e u = (
  All-replace (λ z. z.order.id ≢ x.order.id) xs r q ys (λ other same. other (sym e ∙ same)) u.0,
  UniqIds-replace xs r q ys e u.1,
)

pub UniqIds-push :
    (rs : List Resting) (r : Resting) → Fresh r.order.id rs → UniqIds rs → UniqIds (rs ++ r ∷ [])
UniqIds-push [] r f u = (tt, tt)
UniqIds-push (x ∷ xs) r f u =
    (All-push (λ z. z.order.id ≢ x.order.id) xs r (λ e. f.0 (sym e)) u.0, UniqIds-push xs r f.1 u.1)

-- The order in the middle is the first of its id.
pub Fresh-before :
    (xs : List Resting) (r : Resting) (ys : List Resting)
    → UniqIds (xs ++ (r ∷ ys))
    → Fresh r.order.id xs
Fresh-before [] r ys u = tt
Fresh-before (x ∷ xs) r ys u = (λ e. middle xs (sym e) u.0, Fresh-before xs r ys u.1)
  where
    middle : (zs : List Resting) → r.order.id ≡ x.order.id → Fresh x.order.id (zs ++ (r ∷ ys)) → ⊥
    middle [] e f = f.0 e
    middle (z ∷ zs) e f = middle zs e f.1
