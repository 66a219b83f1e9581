-- ===== src/Snapshot/Restore.antt =====
-- `Snapshot::capture` and `Snapshot::restore`.
use ferrox.Prelude.{
  Returns, arith, bind, ok, refl, returns, some, sym, true, ℕ, ◌==◌, ◌∙◌, ◌≡◌, ◌≤◌,
}
use ferrox.Arena.{arena_null}
use ferrox.Book.{order_count, all_resting_orders}
use ferrox.Book.View.{View, IsBook}
use ferrox.Matching.{MatchingEngine}
use ferrox.Reference.Observed.{Simulates-LooksLike}
use ferrox.Reference.Restore.{SameBooks, restore_from_orders-SameBooks}
use ferrox.Snapshot.{Format, capture, restore, verify_checksum}
use ferrox.Snapshot.Latest.{HasFields}

-- An engine and the one that a snapshot of it is restored to, of `cap'` slots: they go with one
-- reference book, and show the same best prices and orders.
pub record IsRestored (engine : MatchingEngine) (cap' : ℕ) (engine' : MatchingEngine) : Type 0 where
  pub same : SameBooks engine cap' engine'
  pub best_bid_is : engine'.book.best_bid ≡ engine.book.best_bid
  pub best_ask_is : engine'.book.best_ask ≡ engine.book.best_ask
  pub order_count_is : order_count engine'.book ≡ order_count engine.book
  pub resting_are : all_resting_orders engine'.book ≡ all_resting_orders engine.book

SameBooks-IsRestored :
    {engine : MatchingEngine} {cap' : ℕ} {engine' : MatchingEngine}
    → SameBooks engine cap' engine'
    → IsRestored engine cap' engine'
SameBooks-IsRestored {engine} {cap'} {engine'} same =
    let old = Simulates-LooksLike engine same.book same.old in
    let new' = Simulates-LooksLike engine' same.book same.new in
    record {
      same = same;
      best_bid_is = new'.best_bid_is ∙ sym old.best_bid_is;
      best_ask_is = new'.best_ask_is ∙ sym old.best_ask_is;
      order_count_is = new'.order_count_is ∙ sym old.order_count_is;
      resting_are = new'.resting_are ∙ sym old.resting_are;
    }

module _ (f : Format) (total : HasFields f) where
  -- A snapshot of an engine whose book meets the invariant has the number of records given to it and
  -- the right checksum. Restored to any `u32` number of slots that its orders fit in, it gives an engine
  -- that holds the same orders in the same priority, so that one reference book goes with both, and
  -- shows the same best prices and orders. Nothing panics, where the fields of a snapshot have bytes.
  pub restore-capture :
      (engine : MatchingEngine) {v : View} (n cap' : ℕ)
      → IsBook engine.book v
      → cap' ≤ arena_null
      → order_count engine.book ≤ cap'
      → Returns
          (λ s.
            (s.wal_record_count ≡ n)
            × (verify_checksum f s ≡ some (ok tt))
            × Returns
                (λ r.
                  (engine' : MatchingEngine) × (r ≡ ok engine') × IsRestored engine cap' engine')
                (restore s cap'))
          (capture f engine n)
  unfolding capture verify_checksum restore
  restore-capture engine n cap' is small room =
      bind (restore_from_orders-SameBooks engine cap' is small room) λ os restored.
        let (bytes, have) = total n engine.book.best_bid engine.book.best_ask os in
        rw have (
          returns (
            refl,
            rw have
                (let same : (f.hash bytes == f.hash bytes) ≡ true = ground arith in rw same refl),
            bind restored λ r (engine', made, same).
                rw made (returns (engine', refl, SameBooks-IsRestored same)),
          ))
