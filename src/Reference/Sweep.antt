-- ===== src/Reference/Sweep.antt =====
-- The loop of the reference makes the sweep that the engine's loops make.
use mathlib.Core.Path.{subst}
use ferrox.Prelude.{
  mono, ◌≢◌, append_assoc, Bool-cases, Option-cases, append-nil, inl, inr, length-append, returns,
  Returns, if◌then◌else◌, min, suc, zero, ◌==◌, ap, arith, length, ltb, refl, sym, true, ◌∙◌, Bool,
  false, ℕ, ◌++◌, ◌-◌, ◌<◌, ◌≡◌, ◌≤◌, List, [], ◌∷◌,
}
use ferrox.Order.{Order, Side}
use ferrox.Book.View.{View, queues, best_key}
use ferrox.Matching.{Fill, opposite, crosses}
use ferrox.Matching.Sweep.{Front, Sweep, done, uncrossed, own, fill_of}
use ferrox.Reference.{
  Resting, best_index, price_crosses, match_all, meet_maker, Matched, set, remove_at,
}
use ferrox.Reference.Views.{IsTidy}
use ferrox.Reference.Kept.{Fresh, All-remove, All-replace, remove_at_middle, set_middle}
use ferrox.Reference.Maker.{
  Stands, Front-GoodOrder, Front-best_key, match_all-alone, match_all-maker, best_index-none,
  maker_side-opposite, price_crosses-crosses,
}
use ferrox.Reference.MakerFill.{
  Maker, Maker-Front, lessened, removed, reduced, matched, fill_maker-fill_of,
}

-- What the loop has done at its end.
pub record IsMatched (cap hi : ℕ) (rs : List Resting) (v : View) (fills : List Fill) (q : ℕ)
    (self : Bool) (m : Matched) : Type 0 where
  pub fills_are : m.fills ≡ fills
  pub quantity_is : m.quantity ≡ q
  pub self_is : m.self_trade ≡ self
  pub stand : Stands cap hi v m.resting
  pub fewer : length m.resting ≤ length rs
  pub fresh : (id : ℕ) → Fresh id rs → Fresh id m.resting

-- The loop stops with nothing done.
stopped :
    {cap hi : ℕ} {v : View} {q : ℕ} (rs : List Resting) (fs : List Fill) (self : Bool)
    → Stands cap hi v rs
    → IsMatched cap hi rs v
        (fs ++ [])
        q
        self
        (record { resting = rs; fills = fs; quantity = q; self_trade = self })
stopped rs fs self st = record {
  fills_are = sym (append-nil fs);
  quantity_is = refl;
  self_is = refl;
  stand = st;
  fewer = omega arith;
  fresh = λ id f. f;
}

-- The list before the last turns.
wider :
    {cap hi : ℕ} {v : View} {fills : List Fill} {q : ℕ} {self : Bool} (rs zs : List Resting)
    → length zs ≤ length rs
    → ((id : ℕ) → Fresh id rs → Fresh id zs)
    → (m : Matched) → IsMatched cap hi zs v fills q self m
    → IsMatched cap hi rs v fills q self m
wider rs zs shorter fresh m is = record {
  fills_are = is.fills_are;
  quantity_is = is.quantity_is;
  self_is = is.self_is;
  stand = is.stand;
  fewer = omega (arith, shorter, is.fewer);
  fresh = λ id f. is.fresh id (fresh id f);
}

module _ (taker : Order) {v : View} (f : Front v (opposite taker.side)) where
  crosses_is :
      (b : Bool)
      → IsTidy v
      → crosses taker.side f.price taker.price ≡ b
      → price_crosses taker.side f.order.price taker.price ≡ b
  crosses_is b is e =
      let fits = Front-GoodOrder is f in
      price_crosses-crosses taker.side f.order.price taker.price
      ∙ ap (λ p. crosses taker.side p taker.price) fits.price
      ∙ e

  module _ (fuel q : ℕ) (rs : List Resting) (fs : List Fill) (m : Maker f rs) (more : 0 < q) where
    -- The turn that meets the maker at the front of the view.
    turn :
        match_all (suc fuel) taker (matched rs fs q)
        ≡ meet_maker
            (λ s. match_all fuel taker s)
            taker
            (length m.before)
            (record { order = f.order; seq = m.seq })
            (matched rs fs q)
    turn =
        match_all-maker fuel taker (matched rs fs q) m.before
          (record { order = f.order; seq = m.seq }) m.behind more m.split
          (ap (λ s. best_index s rs) (maker_side-opposite taker.side) ∙ m.index_is)

    -- A turn that trades leaves the list `zs`.
    traded :
        price_crosses taker.side f.order.price taker.price ≡ true
        → (f.order.trader_id == taker.trader_id) ≡ false
        → (zs : List Resting)
        → (if f.order.quantity - min q f.order.quantity == 0
            then remove_at
                (length m.before)
                (m.before ++ (record { order = f.order; seq = m.seq } ∷ m.behind))
            else set
                (m.before ++ (record { order = f.order; seq = m.seq } ∷ m.behind))
                (length m.before)
                (lessened (record { order = f.order; seq = m.seq }) (min q f.order.quantity)))
          ≡ zs
        → match_all (suc fuel) taker (matched rs fs q)
          ≡ match_all fuel taker
              (matched zs (fs ++ (fill_of taker q f ∷ [])) (q - min q f.order.quantity))
    traded cross differ zs e =
        turn
        ∙ ap
            (λ xs.
              meet_maker (λ s. match_all fuel taker s) taker (length m.before)
                (record { order = f.order; seq = m.seq }) (matched xs fs q))
            m.split
        ∙ rw (cross, differ)
            (ap (λ s. match_all fuel taker s)
              (fill_maker-fill_of taker f m.before m.seq m.behind fs q zs e))

module _ {cap hi : ℕ} {taker : Order} where
  -- With enough fuel, the loop of the reference makes the fills of the sweep.
  pub match_all-Sweep :
      (fuel : ℕ) {v : View} {q : ℕ} {fills : List Fill} {v' : View} {q' : ℕ} {self : Bool}
      → Sweep taker v q fills v' q' self
      → (rs : List Resting) (fs : List Fill) → 0 < fuel
      → (0 < q → length rs < fuel)
      → Stands cap hi v rs
      → Returns
          (IsMatched cap hi rs v' (fs ++ fills) q' self)
          (match_all fuel taker (matched rs fs q))
  unfolding match_all
  match_all-Sweep zero sweep rs fs some_fuel enough st = absurd (omega arith)
  match_all-Sweep (suc fuel) {q} (done over) rs fs some_fuel enough st =
      let none_left : ltb 0 q ≡ false = ground arith in
      rw (none_left, match_all) (returns (stopped rs fs false st))
  match_all-Sweep (suc fuel) {v} {q} (uncrossed more apart) rs fs some_fuel enough st =
      let s : Side = opposite taker.side in
      elim (Option-cases (best_key s (queues v s))) [
        | inl nobody ↦
            let alone = match_all-alone fuel taker (matched rs fs q) more (
              ap (λ t. best_index t rs) (maker_side-opposite taker.side)
              ∙ best_index-none s rs st.tidy st.agrees nobody) in
            subst (Returns (IsMatched cap hi rs v (fs ++ []) q false)) (sym alone)
              (returns (stopped rs fs false st))
        | inr (p, first) ↦
            let (f, p_is) = Front-best_key s p st.tidy first in
            let no = crosses_is taker f false st.tidy (apart f.price f.is_best) in
            rw (turn taker f fuel q rs fs (Maker-Front s st f) more, no)
              (returns (stopped rs fs false st))
      ]
  match_all-Sweep (suc fuel) {q} (own f more cross mine) rs fs some_fuel enough st =
      let on = crosses_is taker f true st.tidy cross in
      let same : (f.order.trader_id == taker.trader_id) ≡ true = ground arith in
      rw (turn taker f fuel q rs fs (Maker-Front (opposite taker.side) st f) more, on, same)
        (returns (stopped rs fs true st))
  match_all-Sweep (suc fuel) (Sweep.trade {v} {q} {fills} {v'} {q'} {self} f more cross other next)
        rs fs some_fuel enough st =
      let s : Side = opposite taker.side in
      let m = Maker-Front s st f in
      let yes' = crosses_is taker f true st.tidy cross in
      let differ : (f.order.trader_id == taker.trader_id) ≡ false = ground arith in
      let r : Resting = record { order = f.order; seq = m.seq } in
      let fill : ℕ = min q f.order.quantity in
      let st' = subst (λ zs. Stands cap hi v zs) m.split st in
      let shorter : length (m.before ++ (r ∷ m.behind)) < suc fuel =
        subst (λ zs. length zs < suc fuel) m.split (enough more) in
      let size = length-append m.before (r ∷ m.behind) in
      let fs' : List Fill = fs ++ (fill_of taker q f ∷ []) in
      let size = length-append m.before (r ∷ m.behind) in
      subst
        (λ l.
          Returns (IsMatched cap hi rs v' l q' self) (match_all (suc fuel) taker (matched rs fs q)))
        (append_assoc fs (fill_of taker q f ∷ []) fills)
        (elim (Bool-cases (ltb fill f.order.quantity)) [
          | inl part ↦
              let some_left : (f.order.quantity - fill == 0) ≡ false = ground arith in
              let zs : List Resting = m.before ++ (lessened r fill ∷ m.behind) in
              let step =
                traded taker f fuel q rs fs m more yes' differ zs
                  (rw some_left (set_middle m.before r (lessened r fill) m.behind)) in
              subst (Returns (IsMatched cap hi rs v' (fs' ++ fills) q' self)) (sym step) (
                mono
                  (match_all-Sweep fuel next zs fs' (omega arith) (λ left. absurd (ground arith))
                    (reduced f m.before m.seq m.behind st' m.none_before m.rest fill
                      (ground arith)))
                  (wider rs zs
                    (subst (λ ws. length zs ≤ length ws) (sym m.split)
                      (omega (arith, length-append m.before (lessened r fill ∷ m.behind))))
                    (λ id fresh.
                      All-replace (λ z. z.order.id ≢ id) m.before r (lessened r fill) m.behind
                        (λ e. e) (subst (Fresh id) m.split fresh))))
          | inr all ↦
              let none_left : (f.order.quantity - fill == 0) ≡ true = ground arith in
              let zs : List Resting = m.before ++ m.behind in
              let step =
                traded taker f fuel q rs fs m more yes' differ zs
                  (rw none_left (remove_at_middle m.before r m.behind)) in
              subst (Returns (IsMatched cap hi rs v' (fs' ++ fills) q' self)) (sym step) (
                mono
                  (match_all-Sweep fuel next zs fs' (omega arith)
                    (λ left. omega (arith, length-append m.before m.behind))
                    (removed f m.before m.seq m.behind st' m.none_before m.rest fill
                      (ground arith)))
                  (wider rs zs
                    (subst (λ ws. length zs ≤ length ws) (sym m.split)
                      (omega (arith, length-append m.before m.behind)))
                    (λ id fresh.
                      All-remove (λ z. z.order.id ≢ id) m.before r m.behind
                        (subst (Fresh id) m.split fresh))))
        ])
