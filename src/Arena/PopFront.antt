-- ===== src/Arena/PopFront.antt =====
-- `Arena::pop_front` takes the first cell off a level.
use ferrox.Prelude.{
  Returns, [], ap, arith, bind, get_elem?, length, none, refl, returns, some, true, ◌<◌, ◌==◌, ◌∙◌,
  ◌∷◌, ◌≡◌, ◌≤◌, ℕ,
}
use ferrox.Order.{Order}
use ferrox.Arena.{Arena, PriceLevel, Storage, arena_null, unlink_front, pop_front}
use ferrox.Arena.Seg.{nil, Cells, Uniq, node, Seg}
use ferrox.Arena.Relink.{relink_first, set_prev-Wrote}
use ferrox.Arena.Level.{Keeps, SameOutside, Seg-cons, Seg-nil, head-ne_null, IsLevel}

-- What the branch of `pop_front` leaves, where the first node led to `next`.
record FrontUnlinked (st : Storage) (level : PriceLevel) (cs : Cells) (out : Storage × PriceLevel)
    : Type 0 where
  chain : Seg out.0 out.1.tail arena_null arena_null out.1.head cs
  size : length out.0 ≡ length st
  same : SameOutside cs st out.0

unlink_front-FrontUnlinked :
    {st : Storage} {level : PriceLevel} {i next : ℕ} (cs : Cells)
    → Seg st level.tail arena_null i next cs
    → Uniq cs
    → length st ≤ arena_null
    → Returns (FrontUnlinked st level cs) (unlink_front st level next)
unfolding unlink_front
unlink_front-FrontUnlinked {next} [] s u small =
    let last : (next == arena_null) ≡ true = ground (arith, Seg-nil s) in
    rw last (returns (record { chain = nil; size = refl; same = λ a out. refl }))
unlink_front-FrontUnlinked {st} {i} {next} ((j, o) ∷ cs) s u small =
    let (first, m, at, rest) = Seg-cons s in
    let at' : get_elem? st next ≡ some (node o i m) = ap (get_elem? st) first ∙ at in
    rw (head-ne_null s small) (
      bind (set_prev-Wrote arena_null at') λ st1 w. returns (record {
        chain = relink_first arena_null s u at' w;
        size = w.size;
        same = λ a out. w.others a (λ e. ground arith);
      }))

-- `pop_front` of a level that is not empty returns the index of its first cell and leaves the
-- others, with the count and the sum of quantities brought up to date; it does not panic, and
-- touches none but the cells that stay.
pub pop_front-cons :
    {arena : Arena} {level : PriceLevel} (i : ℕ) (order : Order) (cs : Cells)
    → IsLevel arena.storage level ((i, order) ∷ cs)
    → Uniq ((i, order) ∷ cs)
    → length arena.storage ≤ arena_null
    → length cs < arena_null
    → order.quantity < 18_446_744_073_709_551_616
    → Returns
        (λ (popped, arena', level').
          (popped ≡ some i) × IsLevel arena'.storage level' cs × Keeps cs arena arena')
        (pop_front arena level)
unfolding pop_front
pop_front-cons {arena} {level} i order cs is u small room word =
    let (first, m, at, rest) = Seg-cons is.chain in
    let at' : get_elem? arena.storage level.head ≡ some (node order arena_null m) =
      ap (get_elem? arena.storage) first ∙ at in
    rw (head-ne_null is.chain small, at')
      (bind (unlink_front-FrontUnlinked {level = level} cs rest (λ a. omega (arith, u a)) small)
        λ (st1, level1) p. returns (
          ap some first,
          record {
            chain = p.chain;
            counted = omega (arith, is.counted);
            sums = omega (arith, is.sums);
          },
          record { size = p.size; free_head = refl; count = refl; capacity = refl; same = p.same },
        ))

-- An empty level has nothing to pop.
pub pop_front-nil :
    {arena : Arena} {level : PriceLevel}
    → IsLevel arena.storage level []
    → pop_front arena level ≡ some (none, arena, level)
unfolding pop_front
pop_front-nil {level} is =
    let empty : (level.head == arena_null) ≡ true = ground (arith, Seg-nil is.chain) in rw empty
