-- ===== src/Reference/MakerFill.antt =====
-- The maker that the reference meets, and the list when it is filled.
use mathlib.Core.Path.{subst}
use ferrox.Prelude.{
  length-append, if◌then◌else◌, min, ◌==◌, ap, arith, length, ltb, refl, some, sym, true, ◌∙◌, All,
  false, filter, ℕ, ◌++◌, ◌-◌, ◌<◌, ◌≡◌, ◌≤◌, List, [], ◌∷◌,
}
use ferrox.Order.{Order, Side}
use ferrox.Arena.Seg.{Cells}
use ferrox.Arena.Quantity.{less}
use ferrox.Book.View.{View}
use ferrox.Book.Reduce.{take_front}
use ferrox.Book.Resting.{orders_of}
use ferrox.Matching.{Fill, opposite}
use ferrox.Matching.Sweep.{Front, fill_of}
use ferrox.Reference.{Resting, best_index, fill_maker, Matched, orders, set, remove_at}
use ferrox.Reference.Views.{front_left, take_front-Becomes, take_front-IsTidy}
use ferrox.Reference.Room.{total_of-dequeue, total_of-take_front}
use ferrox.Reference.Agrees.{AllAt, filter_none, Agrees, Agrees-change, stands}
use ferrox.Reference.Best.{best_index-IsFirst}
use ferrox.Reference.Kept.{InOrder-remove, InOrder-replace, UniqIds-remove, UniqIds-replace}
use ferrox.Reference.Maker.{Stands, Front-GoodOrder}

-- Where the reference finds the front order of a view.
pub record Maker {v : View} {s : Side} (f : Front v s) (rs : List Resting) : Type 0 where
  pub before : List Resting
  pub seq : ℕ
  pub behind : List Resting
  pub split : rs ≡ before ++ (record { order = f.order; seq = seq } ∷ behind)
  pub none_before : All (λ q. stands s f.price q ≡ false) before
  pub rest : orders (filter (stands s f.price) behind) ≡ orders_of f.behind
  pub index_is : best_index s rs ≡ some (length before)

pub Maker-Front :
    {cap hi : ℕ} {v : View} {rs : List Resting} (s : Side)
    → Stands cap hi v rs
    → (f : Front v s) → Maker f rs
Maker-Front {hi} {v} {rs} s st f =
    let fits = Front-GoodOrder st.tidy f in
    let b = best_index-IsFirst 0 hi s rs st.tidy st.agrees st.order f fits.price fits.side in
    record {
      before = b.first.before;
      seq = b.first.here.seq;
      behind = b.first.behind;
      split =
          b.first.split
          ∙ ap
              (λ o.
                b.first.before ++ (record { order = o; seq = b.first.here.seq } ∷ b.first.behind))
              b.first.order_is;
      none_before =
          subst (λ p. All (λ q. stands s p q ≡ false) b.first.before) fits.price
            b.first.none_before;
      rest =
          subst (λ p. orders (filter (stands s p) b.first.behind) ≡ orders_of f.behind) fits.price
            b.first.rest;
      index_is = b.index_is;
    }

-- The maker with less left.
abbrev pub lessened : Resting → ℕ → Resting
lessened r fill = record r { order = record (r.order) { quantity = r.order.quantity - fill } }

module _ {cap hi : ℕ} {v : View} {s : Side} (f : Front v s) (xs : List Resting) (n : ℕ)
    (ys : List Resting) (st : Stands cap hi v (xs ++ (record { order = f.order; seq = n } ∷ ys)))
    (none_before : All (λ q. stands s f.price q ≡ false) xs)
    (rest : orders (filter (stands s f.price) ys) ≡ orders_of f.behind) (fill : ℕ) where
  abbrev pub r : Resting
  r = record { order = f.order; seq = n }

  abbrev pub after : View
  after = take_front s f.price f.slot f.order f.behind fill v

  pub r_at : (r.order.side ≡ s) × (r.order.price ≡ f.price)
  r_at = let fits = Front-GoodOrder st.tidy f in (fits.side, fits.price)

  pub made :
      (zs : List Resting) (cs : Cells)
      → front_left f.slot f.order f.behind fill ≡ cs
      → orders zs ++ orders_of f.behind ≡ orders_of cs
      → AllAt s f.price zs
      → Agrees (xs ++ (zs ++ ys)) after
  made zs cs left zs_are zs_at =
      Agrees-change v after s f.price (front_left f.slot f.order f.behind fill)
        (take_front-Becomes s f.price f.slot f.order f.behind fill v st.tidy) xs (r ∷ []) zs ys
        (r_at, tt) zs_at
        (ap (λ qs. orders qs ++ (orders zs ++ orders (filter (stands s f.price) ys)))
            (filter_none (stands s f.price) xs none_before)
          ∙ ap (λ os. orders zs ++ os) rest
          ∙ zs_are
          ∙ ap orders_of (sym left))
        st.agrees

  -- The list when the front order is filled in full.
  pub removed : f.order.quantity ≤ fill → Stands cap hi after (xs ++ ys)
  removed all =
      let full : ltb fill f.order.quantity ≡ false = ground arith in
      let less_one = total_of-dequeue s f.price v st.tidy [] f.slot f.order f.behind f.queue in
      let size = length-append xs (r ∷ ys) in
      let room = st.room in
      let was = st.size in
      record {
        tidy = take_front-IsTidy s f.price f.slot f.order f.behind fill v st.tidy f.queue;
        agrees = made [] f.behind (rw full refl) refl tt;
        order = InOrder-remove 0 hi xs r ys st.order;
        ids = UniqIds-remove xs r ys st.ids;
        size = rw full (omega (arith, length-append xs ys));
        room = rw full (omega arith);
      }

  -- The list when some of it is left.
  pub reduced : fill < f.order.quantity → Stands cap hi after (xs ++ (lessened r fill ∷ ys))
  reduced part =
      let some_left : ltb fill f.order.quantity ≡ true = ground arith in
      let (same, free) =
        total_of-take_front s f.price v st.tidy f.slot f.order f.behind fill f.queue part in
      let size = length-append xs (r ∷ ys) in
      let room = st.room in
      let was = st.size in
      record {
        tidy = take_front-IsTidy s f.price f.slot f.order f.behind fill v st.tidy f.queue;
        agrees =
            made (lessened r fill ∷ []) ((f.slot, less f.order fill) ∷ f.behind) (rw some_left refl)
              refl (r_at, tt);
        order = InOrder-replace 0 hi xs r (lessened r fill) ys refl st.order;
        ids = UniqIds-replace xs r (lessened r fill) ys refl st.ids;
        size = omega (arith, length-append xs (lessened r fill ∷ ys));
        room = omega arith;
      }

abbrev pub matched : List Resting → List Fill → ℕ → Matched
matched rs fs q = record { resting = rs; fills = fs; quantity = q; self_trade = false }

-- The fill of a front order as the reference makes it.
pub fill_maker-fill_of :
    {v : View} (taker : Order) (f : Front v (opposite taker.side)) (xs : List Resting) (n : ℕ)
    (ys : List Resting) (fs : List Fill) (q : ℕ) (zs : List Resting)
    → (if f.order.quantity - min q f.order.quantity == 0
        then remove_at (length xs) (xs ++ (record { order = f.order; seq = n } ∷ ys))
        else set
            (xs ++ (record { order = f.order; seq = n } ∷ ys))
            (length xs)
            (lessened (record { order = f.order; seq = n }) (min q f.order.quantity)))
      ≡ zs
    → fill_maker taker
        (length xs)
        (record { order = f.order; seq = n })
        (matched (xs ++ (record { order = f.order; seq = n } ∷ ys)) fs q)
      ≡ matched zs (fs ++ (fill_of taker q f ∷ [])) (q - min q f.order.quantity)
fill_maker-fill_of taker f xs n ys fs q zs e =
    let whole : (f.order.quantity == min q f.order.quantity)
        ≡ ((f.order.quantity - min q f.order.quantity) == 0) =
      ground arith in
    rw (e, whole) refl
