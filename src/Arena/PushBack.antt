-- ===== src/Arena/PushBack.antt =====
-- `Arena::push_back` appends a cell to a level.
use ferrox.Prelude.{
  ◌∙◌, ℕ, ◌≤◌, ◌<◌, ◌≡◌, ◌≢◌, refl, some, [], ◌∷◌, ◌++◌, arith, ◌==◌, true, length, length-append,
  get_elem?, Returns, returns, bind,
}
use ferrox.Order.{Order}
use ferrox.Arena.{Arena, PriceLevel, Storage, arena_null, link_back, push_back}
use ferrox.Arena.Seg.{Cells, uses, Uniq, uses-append, node, Seg, nil, cons, Seg-append, uses-last}
use ferrox.Arena.Relink.{
  last_node-append, relink_last-append, set_next-Wrote, set_prev-Wrote, Wrote-frame, last_node,
  relink_last,
}
use ferrox.Arena.Level.{total-append, IsLevel, SameOutside, Keeps, Seg-nil, last-ne_null}

-- What the branch of `push_back` leaves: the new node is last, and still leads to `n`.
record Linked (st : Storage) (level : PriceLevel) (i n : ℕ) (order : Order) (cs : Cells)
    (out : Storage × PriceLevel) : Type 0 where
  chain : Seg out.0 i n arena_null out.1.head (cs ++ (i, order) ∷ [])
  count : out.1.count ≡ level.count
  qty : out.1.qty ≡ level.qty
  size : length out.0 ≡ length st
  same : SameOutside ((i, order) ∷ cs) st out.0

module _ {st : Storage} {level : PriceLevel} {i p n : ℕ} {order : Order}
    (at : get_elem? st i ≡ some (node order p n)) (small : length st ≤ arena_null) where
  link_back-Linked :
      (cs : Cells)
      → Seg st level.tail arena_null arena_null level.head cs
      → Uniq cs
      → uses i cs ≡ 0
      → Returns (Linked st level i n order cs) (link_back st level i)
  unfolding link_back
  link_back-Linked [] s u new =
      let empty : (level.tail == arena_null) ≡ true = ground (arith, Seg-nil s) in
      rw empty (
        bind (set_prev-Wrote arena_null at) λ st' w. returns (record {
          chain = cons w.here nil;
          count = refl;
          qty = refl;
          size = w.size;
          same = λ a out. w.others a (λ e. ground arith);
        }))
  link_back-Linked (c ∷ cs) s u new =
      let (o, q, end) = last_node s in
      let inside = uses-last s in
      let apart : i ≢ level.tail = λ e. ground arith in
      rw (last-ne_null s small) (
        bind (set_next-Wrote i end) λ st1 w1.
          bind (set_prev-Wrote level.tail (w1.others i apart ∙ at)) λ st2 w2. returns (record {
            chain = Seg-append (Wrote-frame w2 new (relink_last i s u end w1)) (cons w2.here nil);
            count = refl;
            qty = refl;
            size = w2.size ∙ w1.size;
            same = λ a out. ground (arith, w1.others a, w2.others a);
          }))

-- `push_back` of an allocated node that no cell uses appends its order to the level, with the count
-- and the sum of quantities brought up to date; it does not panic and touches no other node.
pub push_back-append :
    {arena : Arena} {level : PriceLevel} {cs : Cells} (i : ℕ) {p n : ℕ} (order : Order)
    → IsLevel arena.storage level cs
    → Uniq cs
    → uses i cs ≡ 0
    → get_elem? arena.storage i ≡ some (node order p n)
    → length arena.storage ≤ arena_null
    → length cs < arena_null
    → Returns
        (λ (arena', level').
          IsLevel arena'.storage level' (cs ++ (i, order) ∷ [])
          × Keeps ((i, order) ∷ cs) arena arena')
        (push_back arena level i)
unfolding push_back
push_back-append {cs} i {p} {n} order is u new at small room = rw at (
    bind (link_back-Linked at small cs is.chain u new) λ (st1, level1) linked.
      let (o, q, end) = last_node-append cs (i, order) linked.chain in
      bind (set_next-Wrote arena_null end) λ st2 w. returns (
        record {
          chain =
              relink_last-append cs (i, order) arena_null linked.chain
                (λ a. ground (arith, u a, uses-append a cs ((i, order) ∷ []))) end w;
          counted = omega (arith, is.counted, linked.count, length-append {0} cs ((i, order) ∷ []));
          sums = omega (arith, is.sums, linked.qty, total-append cs ((i, order) ∷ []));
        },
        record {
          size = w.size ∙ linked.size;
          free_head = refl;
          count = refl;
          capacity = refl;
          same = λ a out. ground (arith, w.others a, linked.same a);
        },
      ))
