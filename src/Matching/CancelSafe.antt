-- ===== src/Matching/CancelSafe.antt =====
-- `MatchingEngine::cancel_order` keeps the book uncrossed, whatever it reports.
use mathlib.Core.Path.{subst}
use ferrox.Collections.HashMap
use ferrox.Matching
use ferrox.Matching.{MatchingEngine, MatchingError}
use ferrox.Order.{Order}
use ferrox.Prelude.{
  Option, Result, Returns, bind, none, refl, returns, some, sym, ◌++◌, ◌∷◌, ◌≡◌, ℕ,
}
use ferrox.Book.View.{IsBook, View}
use ferrox.Book.Cancel.{without, Cancelled, cancel_order-Cancelled}
use ferrox.Matching.Uncrossed.{IsUncrossed, IsSafe, replace-IsUncrossed}
use ferrox.Book.{BookError, OrderBook}
use ferrox.Book.Find.{Found, index-Found}
use ferrox.Collections.HashMap.{lookup}

Cancelled-IsSafe :
    {b : OrderBook} {v : View} (is : IsBook b v) (id : ℕ) (found : Option ℕ)
    (look : HashMap.lookup id b.order_index ≡ found) (r : Result BookError Order) (b' : OrderBook)
    → IsUncrossed v
    → Cancelled is id found look (r, b')
    → (v' : View) × IsBook b' v' × IsUncrossed v'
Cancelled-IsSafe {b} {v} is id none look r b' un (failed, same) =
    (v, subst (λ c. IsBook c v) (sym same) is, un)
Cancelled-IsSafe {b} {v} is id (some i) look r b' un (done, is') =
    let f : Found v id i = index-Found is look in
    (
      without v f,
      is',
      replace-IsUncrossed v un f.order.price f.order.side (f.before ++ f.behind)
          (f.before ++ (i, f.order) ∷ f.behind, f.queue),
    )

-- On an engine with the book invariant and an uncrossed book, `cancel_order` of any id returns and
-- leaves such an engine.
pub cancel-IsSafe :
    (engine : MatchingEngine) (id : ℕ)
    → IsSafe engine
    → Returns (λ (r, engine'). IsSafe engine') (Matching.cancel engine id)
unfolding Matching.cancel
cancel-IsSafe engine id (v, is, un) = bind (cancel_order-Cancelled id is) λ (r, b') done.
    returns (Cancelled-IsSafe is id (HashMap.lookup id engine.book.order_index) refl r b' un done)
