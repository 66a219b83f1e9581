-- ===== src/Reference/Cancel.antt =====
-- `MatchingEngine::cancel_order` against the reference's `cancel`.
use mathlib.Core.Path.{subst}
use ferrox.Prelude.{
  Option, Result, Returns, bind, err, get_elem?, length-append, map_err, ok, returns, ◌≤◌, arith,
  length, none, refl, some, sym, ◌∙◌, ◌≢◌, ap, filter, true, ℕ, ◌++◌, ◌≡◌, List, [], ◌∷◌,
}
use ferrox.Order.{Order}
use ferrox.Arena.Seg.{Cells}
use ferrox.Collections.HashMap
use ferrox.Book.{OrderBook, BookError, order_not_found}
use ferrox.Book.Good.{GoodCells-append, GoodCells-split, GoodQueues-lookup}
use ferrox.Book.Find.{Found, index-Found}
use ferrox.Book.View.{View, IsBook, queues, hit}
use ferrox.Book.Queues.{or_empty}
use ferrox.Book.Change.{cells}
use ferrox.Book.Cancel.{without, Cancelled, cancel_order-Cancelled}
use ferrox.Book.Resting.{orders_of}
use ferrox.Matching.{resting, MatchingEngine, MatchingError, book_error}
use ferrox.Matching
use ferrox.Reference.{Resting, ReferenceBook, orders, ref_cancel, position, remove_at}
use ferrox.Reference.Differential.{ok_of}
use ferrox.Reference.Views.{dequeue-Becomes, dequeue-IsTidy}
use ferrox.Reference.Agrees.{Agrees-change, stands, orders_of-append}
use ferrox.Reference.Kept.{
  UniqIds, Fresh, Fresh-before, InOrder-remove, UniqIds-remove, All-remove, get_elem?_middle,
  remove_at_middle,
}
use ferrox.Reference.Maker.{Stands}
use ferrox.Reference.Room.{total_of-dequeue}
use ferrox.Reference.Add.{Simulates}
use ferrox.Reference.Position.{Middle-filter, Fresh-pairs, position-none, position_middle}

-- What both return for an id, and what holds of both books afterwards.
pub record SameCancel (cap : ℕ) (book : ReferenceBook) (r : Result MatchingError Order)
    (engine' : MatchingEngine) (out : Option Order × ReferenceBook) : Type 0 where
  pub result_is : ok_of r ≡ out.0
  pub simulates : Simulates cap engine' out.1
  pub fewer : length out.1.resting ≤ length book.resting
  pub same_seq : out.1.next_seq ≡ book.next_seq
  pub fresh : (id : ℕ) → Fresh id book.resting → Fresh id out.1.resting

module _ {cap : ℕ} (engine : MatchingEngine) (book : ReferenceBook) (id : ℕ)
    (sim : Simulates cap engine book) where
  abbrev v : View
  v = sim.view

  -- An id that no order has.
  missing :
      {engine' : MatchingEngine}
      → IsBook engine'.book v
      → HashMap.lookup id engine.book.order_index ≡ none
      → Returns
          (SameCancel cap book (err (book_error (order_not_found id))) engine')
          (ref_cancel book id)
  unfolding ref_cancel
  missing is' look =
      let fresh = Fresh-pairs id sim.stand (λ i. sim.is.index id i ∙ ap (λ o. hit i o) look) in
      rw (position-none id book.resting fresh, ref_cancel)
        (returns (record {
          result_is = refl;
          simulates = record { view = v; is = is'; stand = sim.stand };
          fewer = omega arith;
          same_seq = refl;
          fresh = λ k f. f;
        }))

  -- The list without the order that was found.
  removed :
      {i : ℕ} (f : Found v id i) (xs : List Resting) (n : ℕ) (ys : List Resting)
      → book.resting ≡ xs ++ (record { order = f.order; seq = n } ∷ ys)
      → stands f.order.side f.order.price (record { order = f.order; seq = n }) ≡ true
      → orders (filter (stands f.order.side f.order.price) xs) ≡ orders_of f.before
      → orders (filter (stands f.order.side f.order.price) ys) ≡ orders_of f.behind
      → Stands cap book.next_seq (without v f) (xs ++ ys)
  removed {i} f xs n ys split here in_front rest =
      let o : Order = f.order in
      let r : Resting = record { order = o; seq = n } in
      let st = subst (λ zs. Stands cap book.next_seq v zs) split sim.stand in
      let cs : Cells = f.before ++ f.behind in
      let fits =
        (GoodQueues-lookup o.side o.price (queues v o.side) (st.tidy.good o.side) f.queue).1 in
      let (front, back) = GoodCells-split o.side o.price f.before ((i, o) ∷ f.behind) fits in
      let one = total_of-dequeue o.side o.price v st.tidy f.before i o f.behind f.queue in
      let size = st.size in
      let room = st.room in
      record {
        tidy =
            dequeue-IsTidy o.side o.price cs i v st.tidy
              (GoodCells-append o.side o.price f.before f.behind front back.1);
        agrees =
            Agrees-change v (without v f) o.side o.price cs
              (dequeue-Becomes o.side o.price cs i v st.tidy) xs (r ∷ []) [] ys ((refl, refl), tt)
              tt
              (ap (λ os. os ++ orders (filter (stands o.side o.price) ys)) in_front
                ∙ ap (λ os. orders_of f.before ++ os) rest
                ∙ sym (orders_of-append f.before f.behind))
              st.agrees;
        order = InOrder-remove 0 book.next_seq xs r ys st.order;
        ids = UniqIds-remove xs r ys st.ids;
        size = omega (arith, length-append xs (r ∷ ys), length-append xs ys);
        room = omega arith;
      }

  -- The order of the id leaves both.
  found :
      {i : ℕ} (f : Found v id i) {engine' : MatchingEngine}
      → IsBook engine'.book (without v f)
      → Returns (SameCancel cap book (ok f.order) engine') (ref_cancel book id)
  unfolding ref_cancel
  found {i} f {engine'} is' =
      let o : Order = f.order in
      let st = sim.stand in
      let whole : cells v o.side o.price ≡ f.before ++ ((i, o) ∷ f.behind) = ap or_empty f.queue in
      let m =
        Middle-filter (stands o.side o.price) book.resting (orders_of f.before) {o = o}
          {ps = orders_of f.behind}
          (st.agrees o.side o.price
            ∙ ap orders_of whole
            ∙ orders_of-append f.before ((i, o) ∷ f.behind)) in
      let r : Resting = record { order = o; seq = m.seq } in
      let first = Fresh-before m.before r m.behind (subst UniqIds m.split st.ids) in
      let at : position id book.resting ≡ some (length m.before) =
        ap (position id) m.split
        ∙ position_middle id m.before r m.behind (subst (λ k. Fresh k m.before) f.id_is first)
            f.id_is in
      let there : get_elem? book.resting (length m.before) ≡ some r =
        ap (λ zs. get_elem? zs (length m.before)) m.split ∙ get_elem?_middle m.before r m.behind in
      let gone : remove_at (length m.before) book.resting ≡ m.before ++ m.behind =
        ap (remove_at (length m.before)) m.split ∙ remove_at_middle m.before r m.behind in
      let size = ap (λ (zs : List Resting). length zs) m.split in
      rw (at, ref_cancel, there, gone)
        (returns (record {
          result_is = refl;
          simulates = record {
            view = without v f;
            is = is';
            stand = removed f m.before m.seq m.behind m.split m.passes m.in_front m.rest;
          };
          fewer =
              omega (arith, length-append m.before (r ∷ m.behind), length-append m.before m.behind);
          same_seq = refl;
          fresh = λ k g.
              All-remove (λ z. z.order.id ≢ k) m.before r m.behind (subst (Fresh k) m.split g);
        }))

  ref_cancel-Cancelled :
      (look : Option ℕ) (e : HashMap.lookup id engine.book.order_index ≡ look)
      (r : Result BookError Order) (book' : OrderBook)
      → Cancelled sim.is id look e (r, book')
      → Returns
          (SameCancel cap book (map_err book_error r) (record engine { book = book' }))
          (ref_cancel book id)
  ref_cancel-Cancelled none e r book' (failed, same) = rw failed (
      missing {engine' = record engine { book = book' }} (subst (λ b. IsBook b v) (sym same) sim.is)
        e)
  ref_cancel-Cancelled (some i) e r book' (made, is') =
      rw made (found (index-Found sim.is e) {engine' = record engine { book = book' }} is')

-- On an engine and a reference book that hold the same orders, `cancel_order` and the reference's
-- `cancel` of any id both return, with the same order or none, and they hold the same orders again.
pub cancel-ref_cancel :
    {cap : ℕ} (engine : MatchingEngine) (book : ReferenceBook) (id : ℕ)
    → Simulates cap engine book
    → Returns
        (λ (r, engine'). Returns (SameCancel cap book r engine') (ref_cancel book id))
        (Matching.cancel engine id)
unfolding Matching.cancel
cancel-ref_cancel engine book id sim = bind (cancel_order-Cancelled id sim.is) λ (r, book') c.
    returns (
      ref_cancel-Cancelled engine book id sim (HashMap.lookup id engine.book.order_index) refl r
        book' c)
