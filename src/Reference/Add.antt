-- ===== src/Reference/Add.antt =====
-- `MatchingEngine::add_order` against the reference's `add`.
use mathlib.Core.Path.{subst}
use ferrox.Prelude.{
  Returns, bind, length-append, mono, returns, suc, sym, true, ◌++◌, ◌<◌, All, Bool, Bool-cases,
  Result, ap, arith, false, filter, inl, inr, length, ltb, ok, refl, ℕ, ◌+◌, ◌==◌, ◌∙◌, ◌≡◌, ◌≢◌,
  ◌≤◌, List, [], ◌∷◌,
}
use ferrox.Order.{Order, Side, bid, ask}
use ferrox.Arena.Seg.{Cells}
use ferrox.Book.Find.{find_queue}
use ferrox.Book.View.{View, IsBook, queues, pairs, total_of}
use ferrox.Book.Queues.{or_empty, sum}
use ferrox.Book.Insert.{enqueue}
use ferrox.Book.Resting.{orders_of}
use ferrox.Matching.{
  Added, cancelled_self_trade, fully_filled, Fill, AddOrderResult, MatchingEngine, MatchingError,
  OrderStatus, add_order, rest_status,
}
use ferrox.Matching.Add.{remainder, Ending, duplicate, full, add_order-IsAdded}
use ferrox.Reference.{Resting, ReferenceBook, Matched, orders, ref_add, conclude_add, status_of}
use ferrox.Reference.Views.{IsTidy, IsBook-IsTidy, enqueue-Becomes}
use ferrox.Reference.Agrees.{Agrees-push, stands}
use ferrox.Reference.Kept.{Fresh, InOrder-push, UniqIds-push, All-push}
use ferrox.Reference.Maker.{Stands}
use ferrox.Reference.Room.{total_of-enqueue}
use ferrox.Reference.Sweep.{IsMatched, match_all-Sweep}

-- An engine for `cap` orders and a reference book that hold the same orders.
pub record Simulates (cap : ℕ) (engine : MatchingEngine) (book : ReferenceBook) : Type 0 where
  pub view : View
  pub is : IsBook engine.book view
  pub stand : Stands cap book.next_seq view book.resting

-- No order of the id in a list of orders.
abbrev pub NoId : ℕ → List Order → Type 0
NoId id = All (λ o. o.id ≢ id)

NoId-filter :
    (id : ℕ) (t : Resting → Bool) (rs : List Resting) → Fresh id rs → NoId id (orders (filter t rs))
NoId-filter id t [] f = tt
NoId-filter id t (r ∷ rs) f = elim (Bool-cases (t r)) [
  | inl here ↦ rw here (f.0, NoId-filter id t rs f.1)
  | inr away ↦ rw away (NoId-filter id t rs f.1)
]

NoId-pairs : (id i : ℕ) (cs : Cells) → NoId id (orders_of cs) → pairs id i cs ≡ 0
NoId-pairs id i [] f = refl
NoId-pairs id i ((j, o) ∷ cs) f =
    let rest = NoId-pairs id i cs f.1 in
    let other : (o.id == id) ≡ false = let ne = f.0 in ground arith in rw other (omega arith)

module _ {cap hi : ℕ} {v : View} {rs : List Resting} (st : Stands cap hi v rs) (id i : ℕ)
    (fresh : Fresh id rs) where
  no_pairs_on : (s : Side) → sum (pairs id i) (queues v s) ≡ 0
  no_pairs_on s = elim (Bool-cases (ltb 0 (sum (pairs id i) (queues v s)))) [
    | inl more ↦
        let (p, cs, found, inside) =
          find_queue id i (queues v s) (st.tidy.sorted s) (ground arith) in
        let there : orders (filter (stands s p) rs) ≡ orders_of cs =
          st.agrees s p ∙ ap (λ o. orders_of (or_empty o)) found in
        let none_there =
          NoId-pairs id i cs (subst (NoId id) there (NoId-filter id (stands s p) rs fresh)) in
        absurd (omega arith)
    | inr over ↦ ground arith
  ]

  -- A fresh id is not in the view.
  pub no_pairs : total_of (pairs id i) v ≡ 0
  no_pairs = omega (arith, no_pairs_on bid, no_pairs_on ask)

-- One order more, behind all others.
pub Stands-push :
    {cap hi : ℕ} {v : View} {i : ℕ} {free : List ℕ} (rs : List Resting) (o : Order)
    → Stands cap hi v rs
    → v.free ≡ i ∷ free
    → Fresh o.id rs
    → IsTidy (enqueue o i free v)
    → Stands cap (hi + 1) (enqueue o i free v) (rs ++ record { order = o; seq = hi } ∷ [])
Stands-push {hi} {v} {i} {free} rs o st slots fresh tidy =
    let r : Resting = record { order = o; seq = hi } in
    let room = st.room in
    let size = st.size in
    let more = total_of-enqueue o i free v st.tidy in
    let one = ap (λ (l : List ℕ). length l) slots in
    record {
      tidy = tidy;
      agrees = Agrees-push rs r i v (enqueue o i free v) (enqueue-Becomes o i free v) st.agrees;
      order = InOrder-push 0 hi rs r refl st.order;
      ids = UniqIds-push rs r fresh st.ids;
      size = omega (arith, length-append rs (r ∷ []));
      room = omega arith;
    }

-- What both return for an order, and what holds of both books afterwards.
pub record SameAdd (cap : ℕ) (taker : Order) (book : ReferenceBook)
    (r : Result MatchingError AddOrderResult) (engine' : MatchingEngine)
    (out : (OrderStatus × List Fill) × ReferenceBook) : Type 0 where
  pub result_is : r ≡ ok (record { order_id = taker.id; status = out.0.0; fills = out.0.1 })
  pub simulates : Simulates cap engine' out.1
  pub longer : length out.1.resting ≤ length book.resting + 1
  pub later : out.1.next_seq ≤ book.next_seq + 1
  pub fresh : (id : ℕ) → taker.id ≢ id → Fresh id book.resting → Fresh id out.1.resting

status_of-rest_status : (fills : List Fill) → status_of fills ≡ rest_status fills
status_of-rest_status [] = refl
status_of-rest_status (f ∷ fills) = refl

module _ {cap : ℕ} {book : ReferenceBook} {v : View} {fills : List Fill} {q : ℕ} {self : Bool}
    {m : Matched} (is : IsMatched cap book.next_seq book.resting v fills q self m) where
  -- The variables at the end of the loop.
  m_is : m ≡ record { resting = m.resting; fills = fills; quantity = q; self_trade = self }
  m_is =
      ap (λ l. record m { fills = l }) is.fills_are
      ∙ ap (λ k. record m { fills = fills; quantity = k }) is.quantity_is
      ∙ ap (λ b. record m { fills = fills; quantity = q; self_trade = b }) is.self_is

  -- Nothing comes to rest.
  kept :
      (taker : Order) (engine' : MatchingEngine) (status : OrderStatus)
      → IsBook engine'.book v
      → SameAdd cap taker book
          (ok (record { order_id = taker.id; status = status; fills = fills }))
          engine'
          ((status, fills), record book { resting = m.resting })
  kept taker engine' status is' = record {
    result_is = refl;
    simulates = record { view = v; is = is'; stand = is.stand };
    longer = omega (arith, is.fewer);
    later = omega arith;
    fresh = λ id other f. is.fresh id f;
  }

  -- The rest of the order comes to rest.
  pushed :
      (taker : Order) (engine' : MatchingEngine) {i : ℕ} {free : List ℕ}
      → Fresh taker.id book.resting
      → v.free ≡ i ∷ free
      → IsBook engine'.book (enqueue (remainder taker q) i free v)
      → SameAdd cap taker book
          (ok (record { order_id = taker.id; status = rest_status fills; fills = fills }))
          engine'
          (
            (status_of fills, fills),
            record {
              resting =
                  m.resting
                  ++ record { order = record taker { quantity = q }; seq = book.next_seq } ∷ [];
              next_seq = book.next_seq + 1;
            },
          )
  pushed taker engine' {i} {free} fresh slots is' =
      let o : Order = remainder taker q in
      let r : Resting = record { order = o; seq = book.next_seq } in
      record {
        result_is =
            ap (λ status. ok (record { order_id = taker.id; status = status; fills = fills }))
              (sym (status_of-rest_status fills));
        simulates = record {
          view = enqueue o i free v;
          is = is';
          stand =
              Stands-push m.resting o is.stand slots (is.fresh taker.id fresh) (IsBook-IsTidy is');
        };
        longer = omega (arith, is.fewer, length-append m.resting (r ∷ []));
        later = omega arith;
        fresh = λ id other f. All-push (λ z. z.order.id ≢ id) m.resting r other (is.fresh id f);
      }

conclude_add-Ending :
    (taker : Order) {cap : ℕ} {book : ReferenceBook} {v : View} {fills : List Fill} {q : ℕ}
    {self : Bool} {m : Matched} {added : Added}
    → IsMatched cap book.next_seq book.resting v fills q self m
    → Fresh taker.id book.resting
    → length book.resting < cap
    → book.next_seq + 1 < 18_446_744_073_709_551_616
    → Ending taker fills v q self added
    → Returns (SameAdd cap taker book added.0 added.1) (
        conclude_add taker book
          (record { resting = m.resting; fills = fills; quantity = q; self_trade = self }))
unfolding conclude_add
conclude_add-Ending taker {book} {v} {fills} {q} is fresh small word
      (Ending.self_trade {book = book'} is') =
    returns (kept is taker (record { book = book'; fills_buf = fills }) cancelled_self_trade is')
conclude_add-Ending taker {book} {v} {fills} {q} is fresh small word
      (Ending.filled {book = book'} over is') =
    let none_left : (q == 0) ≡ true = ground arith in
    rw none_left
      (returns (kept is taker (record { book = book'; fills_buf = fills }) fully_filled is'))
conclude_add-Ending taker {book} {v} {fills} {q} is fresh small word
      (Ending.rested {book = book'} {i} {free} more slots _ is') =
    let some_left : (q == 0) ≡ false = ground arith in
    let fits : ltb (book.next_seq + 1) 18_446_744_073_709_551_616 ≡ true = ground arith in
    rw (some_left, fits)
      (returns (pushed is taker (record { book = book'; fills_buf = fills }) fresh slots is'))
conclude_add-Ending taker {book} {v} {fills} {q} is fresh small word (duplicate i more once is') =
    absurd (omega (arith, once, no_pairs is.stand taker.id i (is.fresh taker.id fresh)))
conclude_add-Ending taker {book} {v} {fills} {q} is fresh small word (full more slots _ is') =
    let room = is.stand.room in
    let size = is.stand.size in
    let none_free = ap (λ (l : List ℕ). length l) slots in absurd (omega (arith, is.fewer))

-- On an engine and a reference book that hold the same orders, with room for one more and sequence
-- numbers left, `add_order` and the reference's `add` of an order of a positive `u64` quantity and a
-- fresh id both return: the engine reports success with the status and the fills of the reference, and
-- they hold the same orders again. The reference's loop ends within its fuel.
pub add_order-ref_add :
    {cap : ℕ} (engine : MatchingEngine) (book : ReferenceBook) (taker : Order)
    → Simulates cap engine book
    → 0 < taker.quantity
    → taker.quantity < 18_446_744_073_709_551_616
    → Fresh taker.id book.resting
    → length book.resting < cap
    → book.next_seq + 1 < 18_446_744_073_709_551_616
    → Returns
        (λ (r, engine'). Returns (SameAdd cap taker book r engine') (ref_add book taker))
        (add_order engine taker)
unfolding ref_add
add_order-ref_add {cap} engine book taker sim more word fresh small seqs =
    mono (add_order-IsAdded engine taker sim.is more word) λ added a.
      bind
        (match_all-Sweep (suc (length book.resting)) a.sweep book.resting [] (omega arith)
          (λ left. omega arith) sim.stand)
        λ m is.
          subst (λ n. Returns (SameAdd cap taker book added.0 added.1) (conclude_add taker book n))
            (sym (m_is is)) (conclude_add-Ending taker is fresh small seqs a.ending)
