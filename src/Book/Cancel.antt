-- ===== src/Book/Cancel.antt =====
-- `OrderBook::cancel_order`, on every branch.
use mathlib.Core.Path.{subst}
use ferrox.Prelude.{
  ◌>>=◌, ap, get_elem?, ◌∙◌, List, Option, Result, Returns, arith, bind, err, none, ok, refl,
  returns, some, sym, ◌++◌, ◌∷◌, ◌≡◌, ℕ,
}
use ferrox.Order.{Order, Side, bid, ask}
use ferrox.Arena.{PriceLevel}
use ferrox.Arena.Seg.{node, Cells, uses-append}
use ferrox.Arena.Level.{IsLevel, Keeps-weaken, cell_at}
use ferrox.Arena.Remove.{remove-erases}
use ferrox.Collections.TreeMap
use ferrox.Collections.HashMap
use ferrox.Book.{OrderBook, BookError, order_not_found, cancel_at, cancel_order, levels}
use ferrox.Book.Queues.{IsLevels-lookup}
use ferrox.Book.Good.{GoodCells-split}
use ferrox.Book.View.{View, queues, IsBook}
use ferrox.Book.Settle.{dequeue}
use ferrox.Book.Release.{queue-Held, freed-IsBook}
use ferrox.Book.Find.{Found, index-Found}

levels-index :
    (b : OrderBook) (index : List (ℕ × ℕ)) (s : Side)
    → levels (record b { order_index = index }) s ≡ levels b s
levels-index b index bid = refl
levels-index b index ask = refl

-- The view without the order that was found.
abbrev pub without : {id i : ℕ} (v : View) → Found v id i → View
without {i} v f = dequeue f.order.side f.order.price (f.before ++ f.behind) i v

-- `cancel_at`, where the index and the level of the order are at hand.
cancel_at-IsBook :
    {b : OrderBook} {v : View} (i : ℕ) (order : Order) (xs ys : Cells) {l : PriceLevel}
    → IsBook b v
    → TreeMap.lookup order.price (queues v order.side) ≡ some (xs ++ (i, order) ∷ ys)
    → HashMap.lookup order.id b.order_index ≡ some i
    → IsLevel b.arena.storage l (xs ++ (i, order) ∷ ys)
    → Returns
        (λ (r, b'). (r ≡ ok order) × IsBook b' (dequeue order.side order.price (xs ++ ys) i v))
        (cancel_at (record b { order_index = HashMap.remove order.id b.order_index }) order i l)
unfolding cancel_at
cancel_at-IsBook i order xs ys is queue found level =
    let held = queue-Held order.side order.price xs i order ys is queue in
    let fits = (GoodCells-split order.side order.price xs ((i, order) ∷ ys) held.good).1.0 in
    bind (remove-erases xs i order ys level held.uniq held.small held.room fits.word)
      λ (arena, l') (is', keeps).
        bind
          (freed-IsBook order.side order.price xs i order ys is queue found is' (
            Keeps-weaken
              (λ a out. omega (arith, out, uses-append a xs ((i, order) ∷ ys), uses-append a xs ys))
              keeps))
          λ arena' is''. returns (refl, is'')

-- The run of `cancel_order` up to `cancel_at`.
cancel_order-some :
    (b : OrderBook) {q n : ℕ} {l : PriceLevel} (id i : ℕ) (o : Order)
    → HashMap.lookup id b.order_index ≡ some i
    → get_elem? b.arena.storage i ≡ some (node o q n)
    → TreeMap.lookup o.price (levels b o.side) ≡ some l
    → cancel_order b id
      ≡ cancel_at (record b { order_index = HashMap.remove id b.order_index }) o i l
unfolding cancel_order
cancel_order-some b {l} id i o found at there =
    let index : List (ℕ × ℕ) = HashMap.remove id b.order_index in
    let there' : TreeMap.lookup o.price (levels (record b { order_index = index }) o.side)
        ≡ some l =
      ap (TreeMap.lookup o.price) (levels-index b index o.side) ∙ there in
    rw (found, cancel_order, at, ◌>>=◌) (rw there')

-- What `cancel_order` promises, by what the index finds.
abbrev pub Cancelled :
    {b : OrderBook} {v : View} (is : IsBook b v) (id : ℕ) (found : Option ℕ)
    → HashMap.lookup id b.order_index ≡ found
    → Result BookError Order × OrderBook
    → Type 0
Cancelled {b} is id none e (r, b') = (r ≡ err (order_not_found id)) × (b' ≡ b)
Cancelled {v} is id (some i) e (r, b') =
    let f : Found v id i = index-Found is e in (r ≡ ok f.order) × IsBook b' (without v f)

-- On a book that meets the invariant, `cancel_order` returns the order of the id, which leaves its
-- queue while the others keep their places, and the invariant holds again; an id that is not in
-- the book is reported and changes nothing. There is no panic, and no missing level is met.
pub cancel_order-Cancelled :
    {b : OrderBook} {v : View} (id : ℕ) (is : IsBook b v)
    → Returns (Cancelled is id (HashMap.lookup id b.order_index) refl) (cancel_order b id)
unfolding cancel_order
cancel_order-Cancelled {b} {v} id is = go (HashMap.lookup id b.order_index) refl
  where
    go :
        (found : Option ℕ) (e : HashMap.lookup id b.order_index ≡ found)
        → Returns (Cancelled is id found e) (cancel_order b id)
    go none e = rw (e, cancel_order) (returns (refl, refl))
    go (some i) e =
        let f = index-Found is e in
        let o : Order = f.order in
        let (l, there, level) = IsLevels-lookup o.price (is.is_levels o.side) f.queue in
        let (q, n, at) = cell_at f.before i o f.behind level in
        let run = cancel_order-some b id i o e at there in
        subst (Returns (Cancelled is id (some i) e))
          (ap (λ k. cancel_at (record b { order_index = HashMap.remove k b.order_index }) o i l)
              f.id_is
            ∙ sym run)
          (cancel_at-IsBook i o f.before f.behind is f.queue
            (ap (λ k. HashMap.lookup k b.order_index) f.id_is ∙ e) level)
