-- ===== src/Arena/Quantity.antt =====
-- Reducing the quantity of the first order of a level, as `reduce_front_quantity` does.
use ferrox.Prelude.{
  some, sym, ◌≡◌, Returns, arith, get_elem?, get_elem?-lt, refl, returns, ◌-◌, ◌<◌, ◌∷◌, ◌≤◌, ℕ,
}
use mathlib.Core.Path.{subst}
use ferrox.Order.{Order}
use ferrox.Arena.{arena_null, Arena, PriceLevel, set_quantity, sub_u64}
use ferrox.Arena.Seg.{cons, Cells, Uniq, node, Seg}
use ferrox.Arena.Relink.{set-Wrote, Wrote-frame}
use ferrox.Arena.Level.{IsLevel, Keeps, Seg-cons}

abbrev pub less : Order → ℕ → Order
less o fill = record o { quantity = o.quantity - fill }

module _ {arena : Arena} {level : PriceLevel} (i : ℕ) (o : Order) (cs : Cells) (fill : ℕ)
    (is : IsLevel arena.storage level ((i, o) ∷ cs)) (u : Uniq ((i, o) ∷ cs))
    (small : fill ≤ o.quantity) (word : o.quantity < 18_446_744_073_709_551_616) where
  -- The write to the first node.
  write_first :
      {m : ℕ}
      → level.head ≡ i
      → get_elem? arena.storage i ≡ some (node o arena_null m)
      → Seg arena.storage level.tail arena_null i m cs
      → Returns
          (λ arena'.
            IsLevel arena'.storage
              (record level { qty = sub_u64 level.qty fill })
              ((i, less o fill) ∷ cs)
            × Keeps ((i, o) ∷ cs) arena arena')
          (set_quantity arena i (o.quantity - fill))
  unfolding set_quantity
  write_first {m} first at rest =
      let w =
        set-Wrote arena.storage i (node (less o fill) arena_null m)
          (get_elem?-lt arena.storage i at) in
      rw at (
        returns (
          record {
            chain = rw first (cons w.here (Wrote-frame w (ground (arith, u i)) rest));
            counted = is.counted;
            sums = omega (arith, is.sums);
          },
          record {
            size = w.size;
            free_head = refl;
            count = refl;
            capacity = refl;
            same = λ a out. w.others a (λ e. ground arith);
          },
        ))

  -- `front.quantity -= fill; level.qty -= fill`
  pub set_quantity-less :
      Returns
        (λ arena'.
          IsLevel arena'.storage
            (record level { qty = sub_u64 level.qty fill })
            ((i, less o fill) ∷ cs)
          × Keeps ((i, o) ∷ cs) arena arena')
        (set_quantity arena level.head (o.quantity - fill))
  set_quantity-less =
      let (first, m, at, rest) = Seg-cons is.chain in
      subst
        (λ h.
          Returns
            (λ arena'.
              IsLevel arena'.storage (record level { qty = sub_u64 level.qty fill })
                ((i, less o fill) ∷ cs)
              × Keeps ((i, o) ∷ cs) arena arena')
            (set_quantity arena h (o.quantity - fill)))
        (sym first) (write_first first at rest)
