-- ===== src/Arena/Remove.antt =====
-- `Arena::remove` and `Arena::pop_front` take a cell out of a level.
use ferrox.Prelude.{
  ap, length-append, if◌then◌else◌, ◌+◌, ◌∙◌, ◌++◌, ◌<◌, Returns, [], arith, bind, get_elem?,
  length, refl, returns, some, true, ◌==◌, ◌∷◌, ◌≡◌, ◌≤◌, ℕ,
}
use mathlib.Core.Path.{subst}
use ferrox.Order.{Order}
use ferrox.Arena.{Arena, PriceLevel, Storage, arena_null, unlink_prev, unlink_next, remove}
use ferrox.Arena.Seg.{
  Seg-append, Seg-frame, Seg-split, nil, uses-last, Cells, uses, Uniq, uses-append, node, Seg,
}
use ferrox.Arena.Relink.{last_node, relink_first, relink_last, set_next-Wrote, set_prev-Wrote}
use ferrox.Arena.Level.{
  total-append, Keeps, SameOutside, Seg-cons, Seg-nil, head-ne_null, last-ne_null, IsLevel,
}

-- What the first branch of `remove` leaves: the cells before the node lead to its successor.
record PrevUnlinked (st : Storage) (level : PriceLevel) (prev next : ℕ) (xs : Cells)
    (out : Storage × PriceLevel) : Type 0 where
  chain : Seg out.0 prev next arena_null out.1.head xs
  tail : out.1.tail ≡ level.tail
  count : out.1.count ≡ level.count
  qty : out.1.qty ≡ level.qty
  size : length out.0 ≡ length st
  same : SameOutside xs st out.0

unlink_prev-PrevUnlinked :
    {st : Storage} {level : PriceLevel} {l n : ℕ} (next : ℕ) (xs : Cells)
    → Seg st l n arena_null level.head xs
    → Uniq xs
    → length st ≤ arena_null
    → Returns (PrevUnlinked st level l next xs) (unlink_prev st level l next)
unfolding unlink_prev
unlink_prev-PrevUnlinked {st} {l} next [] s u small =
    let first : (l == arena_null) ≡ true = ground (arith, Seg-nil s) in
    rw first (
      returns (record {
        chain = rw (Seg-nil s).0 nil;
        tail = refl;
        count = refl;
        qty = refl;
        size = refl;
        same = λ a out. refl;
      }))
unlink_prev-PrevUnlinked {st} {l} next (c ∷ cs) s u small =
    let (o, q, end) = last_node s in
    let inside = uses-last s in
    rw (last-ne_null s small) (
      bind (set_next-Wrote next end) λ st1 w. returns (record {
        chain = relink_last next s u end w;
        tail = refl;
        count = refl;
        qty = refl;
        size = w.size;
        same = λ a out. w.others a (λ e. ground arith);
      }))

-- What the second branch leaves: the cells behind the node come from its predecessor.
record NextUnlinked (st : Storage) (level : PriceLevel) (prev next : ℕ) (ys : Cells)
    (out : Storage × PriceLevel) : Type 0 where
  chain : Seg out.0 out.1.tail arena_null prev next ys
  head : out.1.head ≡ level.head
  count : out.1.count ≡ level.count
  qty : out.1.qty ≡ level.qty
  size : length out.0 ≡ length st
  same : SameOutside ys st out.0

unlink_next-NextUnlinked :
    {st : Storage} {level : PriceLevel} {i n : ℕ} (prev : ℕ) (ys : Cells)
    → Seg st level.tail arena_null i n ys
    → Uniq ys
    → length st ≤ arena_null
    → Returns (NextUnlinked st level prev n ys) (unlink_next st level prev n)
unfolding unlink_next
unlink_next-NextUnlinked {st} {n} prev [] s u small =
    let last : (n == arena_null) ≡ true = ground (arith, Seg-nil s) in
    rw last (
      returns (record {
        chain = rw (Seg-nil s).1 nil;
        head = refl;
        count = refl;
        qty = refl;
        size = refl;
        same = λ a out. refl;
      }))
unlink_next-NextUnlinked {st} {i} {n} prev ((j, o) ∷ cs) s u small =
    let (first, m, at, rest) = Seg-cons s in
    let at' : get_elem? st n ≡ some (node o i m) = ap (get_elem? st) first ∙ at in
    rw (head-ne_null s small) (
      bind (set_prev-Wrote prev at') λ st1 w. returns (record {
        chain = relink_first prev s u at' w;
        head = refl;
        count = refl;
        qty = refl;
        size = w.size;
        same = λ a out. w.others a (λ e. ground arith);
      }))

-- No index stands in both halves of a level, and that of the node between them in neither.
Uniq-apart :
    (xs : Cells) (i : ℕ) (order : Order) (ys : Cells)
    → Uniq (xs ++ (i, order) ∷ ys)
    → (a : ℕ) → (if i == a then 1 else 0) + uses a xs + uses a ys ≤ 1
Uniq-apart xs i order ys u a = omega (arith, u a, uses-append a xs ((i, order) ∷ ys))

-- `remove` between the two halves of a level.
module _ {arena : Arena} {level : PriceLevel} (xs : Cells) (i : ℕ) (order : Order) (ys : Cells)
    (is : IsLevel arena.storage level (xs ++ (i, order) ∷ ys)) (u : Uniq (xs ++ (i, order) ∷ ys))
    (small : length arena.storage ≤ arena_null) (room : length (xs ++ (i, order) ∷ ys) ≤ arena_null)
    (word : order.quantity < 18_446_744_073_709_551_616) where
  remove_between :
      {l n : ℕ}
      → get_elem? arena.storage i ≡ some (node order l n)
      → Seg arena.storage l i arena_null level.head xs
      → Seg arena.storage level.tail arena_null i n ys
      → Returns
          (λ (arena', level').
            IsLevel arena'.storage level' (xs ++ ys) × Keeps (xs ++ ys) arena arena')
          (remove arena level i)
  unfolding remove
  remove_between {l} {n} at before rest =
      let apart = Uniq-apart xs i order ys u in
      let ux : Uniq xs = λ a. omega (arith, apart a) in
      let uy : Uniq ys = λ a. omega (arith, apart a) in
      rw at (
        bind (unlink_prev-PrevUnlinked n xs before ux small) λ (st1, level1) p.
          let rest1 : Seg st1 level1.tail arena_null i n ys =
            rw p.tail (Seg-frame rest (λ a in_ys. p.same a (omega (arith, apart a)))) in
          bind (unlink_next-NextUnlinked l ys rest1 uy (omega (arith, p.size))) λ (st2, level2) q.
            returns (
              record {
                chain =
                    Seg-append
                      (rw q.head (Seg-frame p.chain (λ a in_xs. q.same a (omega (arith, apart a)))))
                      q.chain;
                counted = omega (
                  arith,
                  is.counted,
                  length-append {0} xs ((i, order) ∷ ys),
                  length-append {0} xs ys,
                );
                sums =
                    omega (arith, is.sums, total-append xs ((i, order) ∷ ys), total-append xs ys);
              },
              record {
                size = q.size ∙ p.size;
                free_head = refl;
                count = refl;
                capacity = refl;
                same = λ a out. ground (arith, uses-append a xs ys, p.same a, q.same a);
              },
            ))

  -- `remove` takes a cell out from wherever it stands in the level, brings the count and the sum of
  -- quantities up to date, does not panic, and touches none but the cells that stay.
  pub remove-erases :
      Returns
        (λ (arena', level').
          IsLevel arena'.storage level' (xs ++ ys) × Keeps (xs ++ ys) arena arena')
        (remove arena level i)
  remove-erases =
      let (l, h, before, behind) = Seg-split xs is.chain in
      let (first, n, at, rest) = Seg-cons behind in
      remove_between at (subst (λ x. Seg arena.storage l x arena_null level.head xs) first before)
        rest
